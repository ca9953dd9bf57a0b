-- ===== src/State/Hex.antt =====
-- `bytes.hex` and `bytes.fromhex`, over code points.
use Prim.Native.Char.{Char, code}
use mathlib.Core.Path.{subst}
use mega_basterd_cli.Prelude.{
  zero, suc, sym, ℕ, String, codes, ◌+◌, ◌-◌, ◌*◌, ◌/◌, ◌%◌, ◌<◌, Bool, true, false, ◌&&◌, ◌||◌,
  Option, none, some, List, [], ◌∷◌, ◌≡◌, refl, arith, All, leb, ◌==◌, if◌then◌else◌, length, not,
  ap, Bool-cases, inl, inr, ==→≡, str_eq, eq_iff,
}
use mega_basterd_cli.Prelude.Options.{◌>>=◌}

abbrev pub Bytes : Type 0
Bytes = List ℕ

digit : ℕ → Char
digit n =
    if n == 0
    then "0"
    else if n == 1
    then "1"
    else if n == 2
    then "2"
    else if n == 3
    then "3"
    else if n == 4
    then "4"
    else if n == 5
    then "5"
    else if n == 6
    then "6"
    else if n == 7
    then "7"
    else if n == 8
    then "8"
    else if n == 9
    then "9"
    else if n == 10
    then "a"
    else if n == 11
    then "b"
    else if n == 12
    then "c"
    else if n == 13
    then "d"
    else if n == 14
    then "e"
    else "f"

value : ℕ → Option ℕ
value c =
    if leb b'0' c && leb c b'9'
    then some (c - b'0')
    else if leb b'a' c && leb c b'f'
    then some (c - b'a' + 10)
    else if leb b'A' c && leb c b'F'
    then some (c - b'A' + 10)
    else none

-- ASCII white space, which `fromhex` skips between bytes
abbrev is_gap : ℕ → Bool
is_gap c = (leb 9 c && leb c 13) || c == 32

pub hex : Bytes → String
hex [] = String.[]
hex (b ∷ bs) = String.◌∷◌ (digit (b / 16)) (String.◌∷◌ (digit (b % 16)) (hex bs))

-- `none` is the ValueError. The second argument is the first half of a byte.
read : List ℕ → Option ℕ → Option Bytes
read [] none = some []
read [] (some h) = none
read (c ∷ cs) none =
    let skip = read cs none in
    let take = (do h ← value c; read cs (some h)) in if is_gap c then skip else take
read (c ∷ cs) (some h) = do l ← value c; bs ← read cs none; some ((h * 16 + l) ∷ bs)

pub fromhex : String → Option Bytes
fromhex s = read (codes s) none

all_below : (ℕ → Bool) → ℕ → Bool
all_below p zero = true
all_below p (suc n) = p n && all_below p n

pub and-left : (a b : Bool) → (a && b) ≡ true → a ≡ true
and-left a b h = ground arith

and-right : (a b : Bool) → (a && b) ≡ true → b ≡ true
and-right a b h = ground arith

below : (n k : ℕ) → k < suc n → (k == n) ≡ false → k < n
below n k lt e = ground arith

all_below-at : (p : ℕ → Bool) (n k : ℕ) → all_below p n ≡ true → k < n → p k ≡ true
unfolding all_below
all_below-at p zero k h lt = ground arith
all_below-at p (suc n) k h lt = elim (Bool-cases (k == n)) [
  | inl e ↦ subst (λ j. p j ≡ true) (sym (==→≡ k n e)) (and-left (p n) _ h)
  | inr e ↦ all_below-at p n k (and-right (p n) _ h) (below n k lt e)
]

is_value : Option ℕ → ℕ → Bool
is_value none n = false
is_value (some m) n = m == n

is_value-some : (o : Option ℕ) (n : ℕ) → is_value o n ≡ true → o ≡ some n
unfolding is_value
is_value-some none n h = ground arith
is_value-some (some m) n h = ap some (==→≡ m n h)

abbrev reads_back : ℕ → Bool
reads_back n = is_value (value (code (digit n))) n && not (is_gap (code (digit n)))

digits-read : all_below reads_back 16 ≡ true
unfolding all_below is_value value digit
digits-read = refl

digit-reads_back : (n : ℕ) → n < 16 → reads_back n ≡ true
digit-reads_back n h = all_below-at reads_back 16 n digits-read h

value-digit : (n : ℕ) → n < 16 → value (code (digit n)) ≡ some n
value-digit n h = is_value-some _ n (and-left _ _ (digit-reads_back n h))

not-true : (b : Bool) → not b ≡ true → b ≡ false
not-true b h = ground arith

digit-not-gap : (n : ℕ) → n < 16 → is_gap (code (digit n)) ≡ false
digit-not-gap n h = not-true _ (and-right _ _ (digit-reads_back n h))

abbrev pub AreBytes : Bytes → Type 0
AreBytes = All (λ (b : ℕ). b < 256)

-- Bytes are read back from their hexadecimal print.
pub fromhex-hex : (bs : Bytes) → AreBytes bs → fromhex (hex bs) ≡ some bs
unfolding fromhex hex read
fromhex-hex [] h = refl
fromhex-hex (b ∷ bs) h =
    rw
      (
        digit-not-gap (b / 16) (omega arith),
        value-digit (b / 16) (omega arith),
        value-digit (b % 16) (omega arith),
      )
      (ground (arith, fromhex-hex bs h.1))

-- A print has two digits for each byte.
pub length-hex : (bs : Bytes) → length (codes (hex bs)) ≡ 2 * length bs
unfolding hex
length-hex [] = refl
length-hex (b ∷ bs) = omega (arith, length-hex bs)

pub hex-not_empty : (b : ℕ) (bs : Bytes) → str_eq (hex (b ∷ bs)) "" ≡ false
hex-not_empty b bs = elim (Bool-cases (str_eq (hex (b ∷ bs)) "")) [
  | inl e ↦
      ground
        (arith, length-hex (b ∷ bs), ap (λ s. length (codes s)) ((eq_iff (hex (b ∷ bs)) "").0 e))
  | inr e ↦ e
]
