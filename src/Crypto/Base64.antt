-- ===== src/Crypto/Base64.antt =====
-- `b64_url_encode` and `b64_url_decode` (src/megabasterd_cli/core/crypto.py), with what `base64` does.
use mega_basterd_cli.Prelude.{
  ℕ, ◌+◌, ◌-◌, ◌*◌, ◌/◌, ◌%◌, ◌<◌, false, ◌&&◌, Option, none, some, List, [], ◌∷◌, ◌≡◌, refl, arith,
  ltb, leb, ◌==◌, if◌then◌else◌,
}
use mega_basterd_cli.Prelude.Options.{◌>>=◌}
use mega_basterd_cli.State.Hex.{Bytes, AreBytes}

abbrev pub Text : Type 0
Text = List ℕ

-- The URL-safe alphabet
pub digit : ℕ → ℕ
digit n =
    if ltb n 26
    then n + b'A'
    else if ltb n 52
    then n - 26 + b'a'
    else if ltb n 62
    then n - 52 + b'0'
    else if n == 62
    then b'-'
    else b'_'

-- Three bytes are four digits; the padding that `base64` would add is stripped.
unfoldable pub b64_url_encode : Bytes → Text
b64_url_encode [] = []
b64_url_encode (a ∷ []) = digit (a / 4) ∷ digit (a % 4 * 16) ∷ []
b64_url_encode (a ∷ b ∷ []) = digit (a / 4) ∷ digit (a % 4 * 16 + b / 16) ∷ digit (b % 16 * 4) ∷ []
b64_url_encode (a ∷ b ∷ c ∷ bs) =
    digit (a / 4)
    ∷ digit (a % 4 * 16 + b / 16)
    ∷ digit (b % 16 * 4 + c / 64)
    ∷ digit (c % 64)
    ∷ b64_url_encode bs

-- `replace("-", "+").replace("_", "/").replace(",", "")`
abbrev pub standard : ℕ → ℕ
standard c = if c == b'-' then b'+' else if c == b'_' then b'/' else c

pub translate : Text → Text
translate [] = []
translate (c ∷ cs) = let rest = translate cs in if c == b',' then rest else standard c ∷ rest

-- The standard alphabet; `none` is the `binascii.Error` of `_STD_B64_RE`.
pub value : ℕ → Option ℕ
value c =
    if leb b'A' c && leb c b'Z'
    then some (c - b'A')
    else if leb b'a' c && leb c b'z'
    then some (c - b'a' + 26)
    else if leb b'0' c && leb c b'9'
    then some (c - b'0' + 52)
    else if c == b'+'
    then some 62
    else if c == b'/'
    then some 63
    else none

pub values : Text → Option (List ℕ)
values [] = some []
values (c ∷ cs) = do v ← value c; vs ← values cs; some (v ∷ vs)

-- `base64.b64decode` of the padded text; a single digit over is its `binascii.Error`.
pub bytes_of : List ℕ → Option Bytes
bytes_of [] = some []
bytes_of (x ∷ []) = none
bytes_of (x ∷ y ∷ []) = some ((x * 4 + y / 16) ∷ [])
bytes_of (x ∷ y ∷ z ∷ []) = some ((x * 4 + y / 16) ∷ (y % 16 * 16 + z / 4) ∷ [])
bytes_of (x ∷ y ∷ z ∷ w ∷ ds) = do
  bs ← bytes_of ds
  some ((x * 4 + y / 16) ∷ (y % 16 * 16 + z / 4) ∷ (z % 4 * 64 + w) ∷ bs)

unfoldable pub b64_url_decode : Text → Option Bytes
b64_url_decode cs = do ds ← values (translate cs); bytes_of ds

-- The digits of the printed text
digits_of : Bytes → List ℕ
digits_of [] = []
digits_of (a ∷ []) = (a / 4) ∷ (a % 4 * 16) ∷ []
digits_of (a ∷ b ∷ []) = (a / 4) ∷ (a % 4 * 16 + b / 16) ∷ (b % 16 * 4) ∷ []
digits_of (a ∷ b ∷ c ∷ bs) =
    (a / 4) ∷ (a % 4 * 16 + b / 16) ∷ (b % 16 * 4 + c / 64) ∷ (c % 64) ∷ digits_of bs

value-digit : (n : ℕ) → n < 64 → value (standard (digit n)) ≡ some n
unfolding value digit
value-digit n h = ground arith

digit-ne-comma : (n : ℕ) → n < 64 → (digit n == b',') ≡ false
unfolding digit
digit-ne-comma n h = ground arith

values-digit :
    (n : ℕ) (cs : Text) (ds : List ℕ)
    → n < 64
    → values (translate cs) ≡ some ds
    → values (translate (digit n ∷ cs)) ≡ some (n ∷ ds)
unfolding values translate
values-digit n cs ds h e = rw (digit-ne-comma n h, value-digit n h, e) refl

values-nil : values (translate []) ≡ some []
unfolding values translate
values-nil = refl

values-encode :
    (bs : Bytes) → AreBytes bs → values (translate (b64_url_encode bs)) ≡ some (digits_of bs)
unfolding b64_url_encode digits_of
values-encode [] h = values-nil
values-encode (a ∷ []) h =
    values-digit (a / 4) _ _ (omega arith) (values-digit (a % 4 * 16) _ _ (omega arith) values-nil)
values-encode (a ∷ b ∷ []) h = values-digit (a / 4) _ _ (omega arith) (
    values-digit (a % 4 * 16 + b / 16) _ _ (omega arith)
      (values-digit (b % 16 * 4) _ _ (omega arith) values-nil))
values-encode (a ∷ b ∷ c ∷ bs) h = values-digit (a / 4) _ _ (omega arith) (
    values-digit (a % 4 * 16 + b / 16) _ _ (omega arith) (
      values-digit (b % 16 * 4 + c / 64) _ _ (omega arith)
        (values-digit (c % 64) _ _ (omega arith) (values-encode bs h.1.1.1))))

bytes_of-digits_of : (bs : Bytes) → AreBytes bs → bytes_of (digits_of bs) ≡ some bs
unfolding bytes_of digits_of
bytes_of-digits_of [] h = refl
bytes_of-digits_of (a ∷ []) h = ground arith
bytes_of-digits_of (a ∷ b ∷ []) h = ground arith
bytes_of-digits_of (a ∷ b ∷ c ∷ bs) h = ground (arith, bytes_of-digits_of bs h.1.1.1)

-- Bytes are read back from their print in MEGA's base64.
pub b64_url_decode-encode :
    (bs : Bytes) → AreBytes bs → b64_url_decode (b64_url_encode bs) ≡ some bs
unfolding b64_url_decode
b64_url_decode-encode bs h = rw (values-encode bs h) (bytes_of-digits_of bs h)
