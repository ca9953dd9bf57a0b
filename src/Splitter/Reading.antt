-- ===== src/Splitter/Reading.antt =====
-- The block loops of src/megabasterd_cli/core/splitter.py read what they are to read.
use mega_basterd_cli.Prelude.Slices.{drop-add}
use mega_basterd_cli.Prelude.{
  ℕ, zero, suc, ◌+◌, ◌-◌, ◌≤◌, min, false, [], ◌∷◌, ◌++◌, ◌≡◌, refl, sym, ap, ◌∙◌, arith, length,
  take, drop, ◌==◌, ◌⊎◌, inl, inr, length-drop, take-drop,
}
use mega_basterd_cli.State.Hex.{Bytes}
use mega_basterd_cli.Splitter.{copy_blocks, read_blocks, is_empty}

length-take-min : (n : ℕ) (xs : Bytes) → length (take n xs) ≡ min n (length xs)
length-take-min zero xs = omega arith
length-take-min (suc n) [] = omega arith
length-take-min (suc n) (x ∷ xs) = omega (arith, length-take-min n xs)

is_empty-take : (n : ℕ) (xs : Bytes) → is_empty (take (suc n) xs) ≡ is_empty xs
is_empty-take n [] = refl
is_empty-take n (x ∷ xs) = refl

take_nil : (n : ℕ) → take {A = ℕ} n [] ≡ []
take_nil zero = refl
take_nil (suc n) = refl

-- Taking in two steps
take-add : (m n : ℕ) (xs : Bytes) → take m xs ++ take n (drop m xs) ≡ take (m + n) xs
take-add zero n xs = ap (λ (k : ℕ). take k xs) (omega arith)
take-add (suc m) n [] = take_nil n ∙ sym (take_nil (suc m + n))
take-add (suc m) n (x ∷ xs) =
    let e : suc (m + n) ≡ suc m + n = omega arith in
    ap (λ (l : Bytes). x ∷ l) (take-add m n xs) ∙ ap (λ (k : ℕ). take k (x ∷ xs)) e

pub read_blocks-all :
    (size fuel : ℕ) (file : Bytes) → length file ≤ fuel → read_blocks (suc size) fuel file ≡ file
unfolding read_blocks
read_blocks-all size zero [] h = refl
read_blocks-all size zero (b ∷ bs) h = absurd (omega arith)
read_blocks-all size (suc fuel) [] h = refl
read_blocks-all size (suc fuel) (b ∷ bs) h =
    let rest = read_blocks-all size fuel (drop size bs) (omega (arith, length-drop size bs)) in
    rw rest (ap (λ (l : Bytes). b ∷ l) (take-drop size bs))

long-or-short : (n : ℕ) (xs : Bytes) → (n ≤ length xs) ⊎ (drop n xs ≡ [])
long-or-short zero xs = inl (omega arith)
long-or-short (suc n) [] = inr refl
long-or-short (suc n) (x ∷ xs) = elim (long-or-short n xs) [
  | inl l ↦ inl (omega arith)
  | inr e ↦ inr e
]

-- What is left is the same when the block was short.
left-over :
    (A : Type 0) (f : ℕ → Bytes → A) (n r : ℕ) (xs : Bytes)
    → ((k : ℕ) → f k [] ≡ f 0 [])
    → n ≤ r
    → f (r - length (take n xs)) (drop n xs) ≡ f (r - n) (drop n xs)
left-over A f n r xs empty h = elim (long-or-short n xs) [
  | inl long ↦ ap (λ (k : ℕ). f (r - k) (drop n xs)) (omega (arith, length-take-min n xs, long))
  | inr none_left ↦ rw none_left (empty (r - length (take n xs)) ∙ sym (empty (r - n)))
]

drop_nil : (n : ℕ) → drop {A = ℕ} n [] ≡ []
drop_nil zero = refl
drop_nil (suc n) = refl

-- A first block and what is left, together
joined :
    (k r b : ℕ) (bs : Bytes)
    → k ≤ r
    → ◌≡◌ {A = Bytes × Bytes}
        (
          b ∷ (take k bs ++ take (suc r - length (take (suc k) (b ∷ bs))) (drop k bs)),
          drop (suc r - length (take (suc k) (b ∷ bs))) (drop k bs),
        )
        (b ∷ take r bs, drop r bs)
joined k r b bs h =
    let sum : k + (suc r - suc k) ≡ r = omega arith in
    left-over (Bytes × Bytes) (λ j ys. (b ∷ (take k bs ++ take j ys), drop j ys)) (suc k) (suc r)
      (b ∷ bs) (λ j. rw (take_nil j, drop_nil j) refl) (omega arith)
    ∙ rw (take-add k (suc r - suc k) bs, drop-add k (suc r - suc k) bs, sum) refl

pub copy_blocks-take :
    (size fuel remaining : ℕ) (source : Bytes)
    → remaining ≤ fuel
    → copy_blocks (suc size) fuel remaining source ≡ (take remaining source, drop remaining source)
unfolding copy_blocks
copy_blocks-take size zero remaining source h = let e : remaining ≡ 0 = omega arith in rw e refl
copy_blocks-take size (suc fuel) zero source h = refl
copy_blocks-take size (suc fuel) (suc r) [] h =
    let e : min (suc size) (suc r) ≡ suc (min size r) = omega arith in
    let more : (suc r == 0) ≡ false = ground arith in rw (e, more) refl
copy_blocks-take size (suc fuel) (suc r) (b ∷ bs) h =
    let e : min (suc size) (suc r) ≡ suc (min size r) = omega arith in
    let more : (suc r == 0) ≡ false = ground arith in
    rw
      (
        e,
        more,
        copy_blocks-take size fuel (suc r - length (take (suc (min size r)) (b ∷ bs)))
            (drop (min size r) bs) (omega arith),
      )
      (joined (min size r) r b bs (omega arith))
