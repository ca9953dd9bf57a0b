-- ===== src/RangeReply.antt =====
-- The check of an HTTP Range response (src/megabasterd_cli/core/range_validation.py). A header
-- is Latin-1 text, in which `\d` is an ASCII digit.
pub mod Honored
mod Examples
use Prim.Native.Char.{code}
use mega_basterd_cli.Prelude.{
  ℕ, ◌+◌, ◌-◌, ◌*◌, String, Bool, true, false, not, ◌&&◌, ◌||◌, Option, none, some, List, [], ◌∷◌,
  leb, ◌==◌, if◌then◌else◌, Result, ok, err, is_space, codes, is_truthy,
}
use mega_basterd_cli.Json.{ℤ, pos, negsuc}
use mega_basterd_cli.Prelude.Options.{◌>>=◌, ◌>>◌, guard}

pub data RangeNotHonored : Type 0 where
  full_body wrong_status no_content_range unparsable other_range unknown_total other_size bad_length
        other_length :
      RangeNotHonored

-- `\d+` in ASCII, greedy: the number, and what is behind it.
abbrev pub is_digit : ℕ → Bool
is_digit c = leb b'0' c && leb c b'9'

unfoldable pub digits : ℕ → List ℕ → ℕ × List ℕ
digits n [] = (n, [])
digits n (c ∷ cs) =
    let rest = digits (n * 10 + (c - b'0')) cs in if is_digit c then rest else (n, c ∷ cs)

unfoldable pub number : List ℕ → Option (ℕ × List ℕ)
number [] = none
number (c ∷ cs) = if is_digit c then some (digits 0 (c ∷ cs)) else none

-- `\s*`, and `\s+`
unfoldable pub skip : List ℕ → List ℕ
skip [] = []
skip (c ∷ cs) = let rest = skip cs in if is_space c then rest else c ∷ cs

abbrev pub some_space : List ℕ → Option (List ℕ)
some_space [] = none
some_space (c ∷ cs) = if is_space c then some (skip cs) else none

-- One character, and a letter in either case
abbrev pub char : ℕ → List ℕ → Option (List ℕ)
char k [] = none
char k (c ∷ cs) = if c == k then some cs else none

abbrev pub letter : ℕ → List ℕ → Option (List ℕ)
letter k [] = none
letter k (c ∷ cs) = if c == k || c + 32 == k then some cs else none

-- `(\d+|\*)$`: an unknown total is `none`. The text is stripped, so `$` is its end.
abbrev pub last_number : Option (ℕ × List ℕ) → Option (Option ℕ)
last_number (some (n, [])) = some (some n)
last_number _ = none

unfoldable pub total : List ℕ → Option (Option ℕ)
total [] = none
total (c ∷ []) = if c == b'*' then some none else last_number (number (c ∷ []))
total (c ∷ d ∷ cs) = last_number (number (c ∷ d ∷ cs))

abbrev pub ContentRange : Type 0
ContentRange = ℕ × ℕ × Option ℕ

-- `_CONTENT_RANGE_RE`
unfoldable pub content_range : List ℕ → Option ContentRange
content_range cs = do
  b ← letter b'b' cs
  y ← letter b'y' b
  t ← letter b't' y
  e ← letter b'e' t
  s ← letter b's' e
  from ← some_space s
  first ← number from
  dash ← char b'-' (skip first.1)
  last ← number (skip dash)
  slash ← char b'/' (skip last.1)
  size ← total (skip slash)
  some (first.0, last.0, size)

-- `str(raw).strip()`
abbrev pub put_back : ℕ → List ℕ → List ℕ
put_back c [] = if is_space c then [] else c ∷ []
put_back c (d ∷ cs) = c ∷ d ∷ cs

unfoldable pub strip_end : List ℕ → List ℕ
strip_end [] = []
strip_end (c ∷ cs) = put_back c (strip_end cs)

abbrev pub strip : List ℕ → List ℕ
strip cs = strip_end (skip cs)

pub record Headers : Type 0 where
  pub content_range_header : Option String
  pub content_length_header : Option String

abbrev pub Checked : Type 0
Checked = Result RangeNotHonored (Unit {0})

-- `declared_len != end - start + 1`, in integers
abbrev pub length_check : ℕ → ℕ → ℤ → Checked
length_check start stop (pos d) = if d + start == stop + 1 then ok tt else err other_length
length_check start stop (negsuc d) = if start == stop + 1 + (d + 1) then ok tt else err other_length

-- Outside this file: Python's `int(text)`.
module _ (parse_int : String → Option ℤ) where
  unfoldable pub check_length : ℕ → ℕ → Option String → Checked
  check_length start stop none = ok tt
  check_length start stop (some t) = elim (parse_int t) [
    | none ↦ err bad_length
    | some n ↦ length_check start stop n
  ]

  unfoldable pub check_total : ℕ → ℕ → ℕ → Option String → Option ℕ → Checked
  check_total start stop size declared none = err unknown_total
  check_total start stop size declared (some t) =
      if t == size then check_length start stop declared else err other_size

  unfoldable pub check_range : ℕ → ℕ → ℕ → Option String → Option ContentRange → Checked
  check_range start stop size declared none = err unparsable
  check_range start stop size declared (some (a, b, t)) =
      if a == start && b == stop then check_total start stop size declared t else err other_range

  unfoldable pub check_header : ℕ → ℕ → ℕ → Option String → Option String → Checked
  check_header start stop size declared none = err no_content_range
  check_header start stop size declared (some raw) =
      if is_truthy raw
      then check_range start stop size declared (content_range (strip (codes raw)))
      else err no_content_range

  -- The range is from byte `start` to byte `stop`, which is its last one.
  unfoldable pub validate_range_response : ℕ → Headers → ℕ → ℕ → ℕ → Checked
  validate_range_response status headers start stop size =
      if status == 200
      then if start == 0 && stop + 1 == size then ok tt else err full_body
      else if status == 206
      then check_header start stop size headers.content_length_header headers.content_range_header
      else err wrong_status
