-- ===== src/Stream/Range.antt =====
-- `_parse_range` (src/megabasterd_cli/streaming/server.py), on the code points of the header.
use mega_basterd_cli.Prelude.{
  ℕ, zero, suc, ◌-◌, ◌≤◌, ◌<◌, ◌≡◌, arith, inl, inr, Bool-cases, bind-eq-ok, Bool, true, false,
  ◌||◌, Option, none, some, List, [], ◌∷◌, any, ltb, leb, ◌==◌, codes, if◌then◌else◌, Result, ok,
  err, bind,
}
use mega_basterd_cli.Json.{ℤ, pos, negsuc}

-- ValueError and IndexError
pub data Refusal : Type 0 where
  malformed unsatisfiable : Refusal

-- `text.partition(separator)`, where the separator is there
unfoldable pub partition : ℕ → List ℕ → Option (List ℕ × List ℕ)
partition k [] = none
partition k (c ∷ cs) =
    let rest = partition k cs in
    if c == k then some ([], cs) else elim rest [ none ↦ none | some (l, r) ↦ some (c ∷ l, r) ]

-- `text.startswith(prefix)`, and what is behind the prefix
unfoldable pub behind : List ℕ → List ℕ → Option (List ℕ)
behind [] cs = some cs
behind (k ∷ ks) [] = none
behind (k ∷ ks) (c ∷ cs) = let rest = behind ks cs in if c == k then rest else none

-- The first and the last byte, and whether a range was asked for
abbrev pub ByteRange : Type 0
ByteRange = ℕ × ℕ × Bool

-- `size - 1`, in integers
abbrev pub last_byte : ℕ → ℤ
last_byte zero = negsuc 0
last_byte (suc n) = pos n

abbrev pub min_of : ℕ → ℕ → ℕ
min_of a b = if ltb b a then b else a

module _ (parse_int : List ℕ → Option ℤ) (size : ℕ) where
  abbrev pub int : List ℕ → Result Refusal ℤ
  int cs = elim (parse_int cs) [ none ↦ err malformed | some n ↦ ok n ]

  unfoldable pub check_bounds : ℤ → ℤ → Result Refusal ByteRange
  check_bounds (negsuc start) stop = err unsatisfiable
  check_bounds (pos start) (negsuc stop) = err unsatisfiable
  check_bounds (pos start) (pos stop) =
      if ltb stop start || leb size start
      then err unsatisfiable
      else ok (start, min_of stop (size - 1), true)

  -- `bytes=-N`: the last N bytes
  unfoldable pub suffix : ℤ → Result Refusal ByteRange
  suffix (negsuc n) = err unsatisfiable
  suffix (pos zero) = err unsatisfiable
  suffix (pos (suc n)) = check_bounds (pos (size - suc n)) (last_byte size)

  abbrev pub stop_of : List ℕ → Result Refusal ℤ
  stop_of [] = ok (last_byte size)
  stop_of (c ∷ cs) = int (c ∷ cs)

  unfoldable pub of_parts : List ℕ → List ℕ → Result Refusal ByteRange
  of_parts [] right = bind (int right) suffix
  of_parts (c ∷ left) right =
      bind (int (c ∷ left)) (λ start. bind (stop_of right) (check_bounds start))

  unfoldable pub of_partition : Option (List ℕ × List ℕ) → Result Refusal ByteRange
  of_partition none = err malformed
  of_partition (some (left, right)) = of_parts left right

  unfoldable pub of_spec : Option (List ℕ) → Result Refusal ByteRange
  of_spec none = err malformed
  of_spec (some spec) =
      if any (λ c. c == b',') spec then err malformed else of_partition (partition b'-' spec)

  -- The `Range` header, which is empty when it is missing; the size is positive.
  unfoldable pub parse_range : List ℕ → Result Refusal ByteRange
  parse_range [] = ok (0, size - 1, false)
  parse_range (c ∷ cs) = of_spec (behind (codes "bytes=") (c ∷ cs))

  -- A range that is served lies in the file.
  pub record IsInside (r : ByteRange) : Type 0 where
    pub ordered : r.0 ≤ r.1
    pub inside : r.1 < size

  check_bounds-IsInside :
      (start stop : ℤ) (r : ByteRange) → 0 < size → check_bounds start stop ≡ ok r → IsInside r
  unfolding check_bounds
  check_bounds-IsInside (negsuc start) stop r p e = absurd (ground arith)
  check_bounds-IsInside (pos start) (negsuc stop) r p e = absurd (ground arith)
  check_bounds-IsInside (pos start) (pos stop) (a, b, c) p e = record {
    ordered = ground (arith, e, p);
    inside = ground (arith, e, p);
  }

  suffix-IsInside : (n : ℤ) (r : ByteRange) → 0 < size → suffix n ≡ ok r → IsInside r
  unfolding suffix
  suffix-IsInside (negsuc n) r p e = absurd (ground arith)
  suffix-IsInside (pos zero) r p e = absurd (ground arith)
  suffix-IsInside (pos (suc n)) r p e =
      check_bounds-IsInside (pos (size - suc n)) (last_byte size) r p e

  of_parts-IsInside :
      (left right : List ℕ) (r : ByteRange) → 0 < size → of_parts left right ≡ ok r → IsInside r
  unfolding of_parts
  of_parts-IsInside [] right r p e =
      let (n, _, made) = bind-eq-ok (int right) suffix e in suffix-IsInside n r p made
  of_parts-IsInside (c ∷ left) right r p e =
      let (start, _, rest) =
        bind-eq-ok (int (c ∷ left)) (λ start. bind (stop_of right) (check_bounds start)) e in
      let (stop, _, made) = bind-eq-ok (stop_of right) (check_bounds start) rest in
      check_bounds-IsInside start stop r p made

  of_partition-IsInside :
      (parts : Option (List ℕ × List ℕ)) (r : ByteRange)
      → 0 < size
      → of_partition parts ≡ ok r
      → IsInside r
  unfolding of_partition
  of_partition-IsInside none r p e = absurd (ground arith)
  of_partition-IsInside (some (left, right)) r p e = of_parts-IsInside left right r p e

  of_spec-IsInside :
      (spec : Option (List ℕ)) (r : ByteRange) → 0 < size → of_spec spec ≡ ok r → IsInside r
  unfolding of_spec
  of_spec-IsInside none r p e = absurd (ground arith)
  of_spec-IsInside (some spec) r p e = elim (Bool-cases (any (λ c. c == b',') spec)) [
    | inl many ↦ absurd (ground (arith, many, e))
    | inr one ↦ of_partition-IsInside (partition b'-' spec) r p (cc)
  ]

  pub parse_range-IsInside :
      (header : List ℕ) (r : ByteRange) → 0 < size → parse_range header ≡ ok r → IsInside r
  unfolding parse_range
  parse_range-IsInside [] (a, b, c) p e = record {
    ordered = ground (arith, e, p);
    inside = ground (arith, e, p);
  }
  parse_range-IsInside (c ∷ cs) r p e = of_spec-IsInside (behind (codes "bytes=") (c ∷ cs)) r p e
