-- ===== src/Prelude/Slices.antt =====
-- Slices of a list, and a list with a part of it replaced.
use Prim.Native.Nat.{ℕ, zero, suc, ◌+◌, ◌-◌, ◌≤◌}
use mathlib.Core.Path.{◌≡◌, refl, sym, ap, ◌∙◌}
use mathlib.Core.List.{List, [], ◌∷◌, ◌++◌, append_assoc}
use native.Mathlib.Omega.{arith}
use mega_basterd_cli.Prelude.Lists.{
  length, take, drop, length-append, length-take, length-drop, take-append, drop-append, take-drop,
}

module _ {ℓ} {A : Type ℓ} where
  abbrev pub slice : ℕ → ℕ → List A → List A
  slice start n xs = take n (drop start xs)

  drop-nil : (n : ℕ) → drop {A = A} n [] ≡ []
  drop-nil zero = refl
  drop-nil (suc n) = refl

  pub drop-all : (n : ℕ) (xs : List A) → n ≡ length xs → drop n xs ≡ []
  drop-all zero [] h = refl
  drop-all zero (x ∷ xs) h = absurd (omega arith)
  drop-all (suc n) [] h = refl
  drop-all (suc n) (x ∷ xs) h = drop-all n xs (omega arith)

  -- To go on from a place is to start from the sum.
  pub drop-add : (m n : ℕ) (xs : List A) → drop n (drop m xs) ≡ drop (m + n) xs
  drop-add zero n xs = ap (λ (k : ℕ). drop k xs) (omega arith)
  drop-add (suc m) n [] = drop-nil n ∙ sym (drop-nil (suc m + n))
  drop-add (suc m) n (x ∷ xs) =
      let e : suc (m + n) ≡ suc m + n = omega arith in
      drop-add m n xs ∙ ap (λ (k : ℕ). drop k (x ∷ xs)) e

  pub take-all : (n : ℕ) (xs : List A) → length xs ≡ n → take n xs ≡ xs
  take-all zero [] h = refl
  take-all zero (x ∷ xs) h = absurd (omega arith)
  take-all (suc n) [] h = refl
  take-all (suc n) (x ∷ xs) h = ap (λ (l : List A). x ∷ l) (take-all n xs (omega arith))

  pub take-prefix : (n : ℕ) (xs ys : List A) → n ≤ length xs → take n (xs ++ ys) ≡ take n xs
  take-prefix zero xs ys h = refl
  take-prefix (suc n) [] ys h = absurd (omega arith)
  take-prefix (suc n) (x ∷ xs) ys h = ap (λ (l : List A). x ∷ l) (take-prefix n xs ys (omega arith))

  slice-prefix :
      (m n : ℕ) (xs ys : List A) → m + n ≤ length xs → slice m n (xs ++ ys) ≡ slice m n xs
  slice-prefix zero n xs ys h = take-prefix n xs ys (omega arith)
  slice-prefix (suc m) n [] ys h = absurd (omega arith)
  slice-prefix (suc m) n (x ∷ xs) ys h = slice-prefix m n xs ys (omega arith)

  -- A part that lies before a place is a part of what is before it.
  slice-take :
      (m n k : ℕ) (xs : List A) → m + n ≤ k → k ≤ length xs → slice m n (take k xs) ≡ slice m n xs
  slice-take m n k xs h l =
      let whole = take-drop k xs in
      sym (slice-prefix m n (take k xs) (drop k xs) (omega (arith, length-take k xs l)))
      ∙ ap (λ (ys : List A). slice m n ys) whole

  -- `file[offset : offset + len(part)] = part`, within the list
  abbrev pub overwrite : ℕ → List A → List A → List A
  overwrite offset part xs = take offset xs ++ part ++ drop (offset + length part) xs

  module _ (offset : ℕ) (part xs : List A) (fits : offset + length part ≤ length xs) where
    before-length : length (take offset xs) ≡ offset
    before-length = length-take offset xs (omega arith)

    pub length-overwrite : length (overwrite offset part xs) ≡ length xs
    length-overwrite = omega (
      arith,
      length-append (take offset xs ++ part) (drop (offset + length part) xs),
      length-append (take offset xs) part,
      before-length,
      length-drop (offset + length part) xs,
    )

    pub slice-overwrite : slice offset (length part) (overwrite offset part xs) ≡ part
    slice-overwrite =
        rw
          (
            append_assoc (take offset xs) part (drop (offset + length part) xs),
            drop-append offset (take offset xs) (part ++ drop (offset + length part) xs)
                before-length,
          )
          (take-append (length part) part (drop (offset + length part) xs) refl)

    pub slice-overwrite-before :
        (m n : ℕ) → m + n ≤ offset → slice m n (overwrite offset part xs) ≡ slice m n xs
    slice-overwrite-before m n h =
        rw (append_assoc (take offset xs) part (drop (offset + length part) xs)) (
          slice-prefix m n (take offset xs) (part ++ drop (offset + length part) xs)
            (omega (arith, before-length))
          ∙ slice-take m n offset xs h (omega arith))

    drop-overwrite :
        drop (offset + length part) (overwrite offset part xs) ≡ drop (offset + length part) xs
    drop-overwrite =
        drop-append (offset + length part) (take offset xs ++ part) (drop (offset + length part) xs)
          (omega (arith, length-append (take offset xs) part, before-length))

    drop-overwrite-after :
        (m : ℕ) → offset + length part ≤ m → drop m (overwrite offset part xs) ≡ drop m xs
    drop-overwrite-after m h =
        let e : (offset + length part) + (m - (offset + length part)) ≡ m = omega arith in
        ap (λ (k : ℕ). drop k (overwrite offset part xs)) (sym e)
        ∙ sym (
            drop-add (offset + length part) (m - (offset + length part)) (overwrite offset part xs))
        ∙ ap (drop (m - (offset + length part))) drop-overwrite
        ∙ drop-add (offset + length part) (m - (offset + length part)) xs
        ∙ ap (λ (k : ℕ). drop k xs) e

    pub slice-overwrite-after :
        (m n : ℕ) → offset + length part ≤ m → slice m n (overwrite offset part xs) ≡ slice m n xs
    slice-overwrite-after m n h = ap (take n) (drop-overwrite-after m h)

  pub slice-part :
      (n m : ℕ) (xs ys zs : List A)
      → length xs ≡ n
      → length ys ≡ m
      → slice n m (xs ++ (ys ++ zs)) ≡ ys
  slice-part n m xs ys zs h l = ap (take m) (drop-append n xs (ys ++ zs) h) ∙ take-append m ys zs l

  -- A prefix that ends in the second part, and what is behind a place, by the parts
  pub take-past :
      (n : ℕ) (xs ys : List A) → length xs ≤ n → take n (xs ++ ys) ≡ xs ++ take (n - length xs) ys
  take-past zero [] ys h = refl
  take-past zero (x ∷ xs) ys h = absurd (omega arith)
  take-past (suc n) [] ys h = let e : suc n ≡ suc n - 0 = omega arith in ap (λ (k : ℕ). take k ys) e
  take-past (suc n) (x ∷ xs) ys h =
      let e : n - length xs ≡ suc n - length (x ∷ xs) = omega arith in
      ap (λ (l : List A). x ∷ l) (take-past n xs ys (omega arith))
      ∙ ap (λ (k : ℕ). x ∷ (xs ++ take k ys)) e

  pub drop-past :
      (n : ℕ) (xs ys : List A) → drop n (xs ++ ys) ≡ drop n xs ++ drop (n - length xs) ys
  drop-past zero [] ys = refl
  drop-past zero (x ∷ xs) ys =
      let e : 0 ≡ 0 - length (x ∷ xs) = omega arith in ap (λ (k : ℕ). (x ∷ xs) ++ drop k ys) e
  drop-past (suc n) [] ys = let e : suc n ≡ suc n - 0 = omega arith in ap (λ (k : ℕ). drop k ys) e
  drop-past (suc n) (x ∷ xs) ys =
      let e : n - length xs ≡ suc n - length (x ∷ xs) = omega arith in
      drop-past n xs ys ∙ ap (λ (k : ℕ). drop n xs ++ drop k ys) e

  pub drop-over : (n : ℕ) (xs : List A) → length xs ≤ n → drop n xs ≡ []
  drop-over n [] h = drop-nil n
  drop-over zero (x ∷ xs) h = absurd (omega arith)
  drop-over (suc n) (x ∷ xs) h = drop-over n xs (omega arith)
