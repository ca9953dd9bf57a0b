-- ===== src/RangeReply/Honored.antt =====
-- Which responses the check of src/megabasterd_cli/core/range_validation.py lets through.
use mathlib.Core.Path.{subst, sym}
use mega_basterd_cli.Prelude.{
  ℕ, ◌+◌, ◌≤◌, String, true, Option, none, some, ◌≡◌, refl, ◌↔◌, inl, inr, arith, ok, err,
  is_truthy, codes, ◌==◌, Bool-cases, ==→≡,
}
use mega_basterd_cli.Json.{ℤ, pos, negsuc}
use mega_basterd_cli.RangeReply.{
  Headers, content_range, strip, ContentRange, check_length, check_total, check_range, check_header,
  validate_range_response, length_check, bad_length,
}

-- The header names exactly this window of a file of this size.
abbrev pub IsWindow : ℕ → ℕ → ℕ → String → Type 0
IsWindow start stop size raw =
    (is_truthy raw ≡ true) × (content_range (strip (codes raw)) ≡ some (start, stop, some size))

module _ (parse_int : String → Option ℤ) where
  -- No length, or the length of the window.
  abbrev pub IsOfLength : ℕ → ℕ → Option String → Type 0
  IsOfLength start stop none = Unit {0}
  IsOfLength start stop (some t) = (d : ℕ) × (parse_int t ≡ some (pos d)) × (d + start ≡ stop + 1)

  pub data IsHonored (headers : Headers) (start stop size : ℕ) : ℕ → Type 0 where
    whole : start ≡ 0 → stop + 1 ≡ size → IsHonored headers start stop size 200
    window :
        {raw : String}
        → headers.content_range_header ≡ some raw
        → IsWindow start stop size raw
        → IsOfLength start stop headers.content_length_header
        → IsHonored headers start stop size 206

  check_length-IsOfLength :
      (start stop : ℕ) (o : Option String)
      → start ≤ stop
      → check_length parse_int start stop o ≡ ok tt
      → IsOfLength start stop o
  unfolding check_length
  check_length-IsOfLength start stop none le h = tt
  check_length-IsOfLength start stop (some t) le h = go (parse_int t) refl h
    where
      go :
          (o : Option ℤ)
          → parse_int t ≡ o
          → elim o [ none ↦ err bad_length | some n ↦ length_check start stop n ] ≡ ok tt
          → IsOfLength start stop (some t)
      go none e h = ground arith
      go (some (pos d)) e h = (d, e, ground arith)
      go (some (negsuc d)) e h = ground arith

  IsOfLength-check_length :
      (start stop : ℕ) (o : Option String)
      → IsOfLength start stop o
      → check_length parse_int start stop o ≡ ok tt
  unfolding check_length
  IsOfLength-check_length start stop none h = refl
  IsOfLength-check_length start stop (some t) (d, e, h) = ground arith

  check_range-eq :
      (start stop size : ℕ) (declared : Option String) (o : Option ContentRange)
      → check_range parse_int start stop size declared o ≡ ok tt
      → (o ≡ some (start, stop, some size)) × (check_length parse_int start stop declared ≡ ok tt)
  unfolding check_range check_total
  check_range-eq start stop size declared none h = ground arith
  check_range-eq start stop size declared (some (a, b, none)) h = ground arith
  check_range-eq start stop size declared (some (a, b, some t)) h = ground arith

  check_header-window :
      (headers : Headers) (start stop size : ℕ) (o : Option String)
      → start ≤ stop
      → headers.content_range_header ≡ o
      → check_header parse_int start stop size headers.content_length_header o ≡ ok tt
      → IsHonored headers start stop size 206
  unfolding check_header
  check_header-window headers start stop size none le e h = ground arith
  check_header-window headers start stop size (some raw) le e h =
      elim (Bool-cases (is_truthy raw)) [
        | inr n ↦ ground (arith, h, n)
        | inl n ↦
            let r =
              check_range-eq start stop size headers.content_length_header
                (content_range (strip (codes raw))) (ground (arith, h, n)) in
            window e (n, r.0)
              (check_length-IsOfLength start stop headers.content_length_header le r.1)
      ]

  IsHonored-check_header :
      (headers : Headers) (start stop size : ℕ) (raw : String)
      → IsWindow start stop size raw
      → IsOfLength start stop headers.content_length_header
      → check_header parse_int start stop size headers.content_length_header (some raw) ≡ ok tt
  unfolding check_header check_range check_total
  IsHonored-check_header headers start stop size raw w l =
      rw (w.0, w.1)
        (ground (arith, IsOfLength-check_length start stop headers.content_length_header l))

  IsHonored-validate :
      (headers : Headers) (status start stop size : ℕ)
      → IsHonored headers start stop size status
      → validate_range_response parse_int status headers start stop size ≡ ok tt
  unfolding validate_range_response
  IsHonored-validate headers status start stop size (whole a b) = ground arith
  IsHonored-validate headers status start stop size (window {raw} e w l) =
      rw e (IsHonored-check_header headers start stop size raw w l)

  validate-IsHonored :
      (headers : Headers) (status start stop size : ℕ)
      → start ≤ stop
      → validate_range_response parse_int status headers start stop size ≡ ok tt
      → IsHonored headers start stop size status
  unfolding validate_range_response
  validate-IsHonored headers status start stop size le h = elim (Bool-cases (status == 200)) [
    | inl e ↦
        subst (IsHonored headers start stop size) (sym (==→≡ status 200 e))
          (whole (ground (arith, h, e)) (ground (arith, h, e)))
    | inr n ↦ elim (Bool-cases (status == 206)) [
      | inl e ↦ subst (IsHonored headers start stop size) (sym (==→≡ status 206 e)) (
          check_header-window headers start stop size headers.content_range_header le refl
            (ground (arith, h, e, n)))
      | inr e ↦ ground (arith, h, e, n)
    ]
  ]

  -- For a range that is not empty, the check passes exactly a 200 for the whole file and a 206 whose
  -- `Content-Range` names this window of a file of this size, with no `Content-Length` or the window's.
  pub validate_range_response-IsHonored :
      (headers : Headers) (status start stop size : ℕ)
      → start ≤ stop
      → (validate_range_response parse_int status headers start stop size ≡ ok tt)
        ↔ IsHonored headers start stop size status
  validate_range_response-IsHonored headers status start stop size le = (
    validate-IsHonored headers status start stop size le,
    IsHonored-validate headers status start stop size,
  )
