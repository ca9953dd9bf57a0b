-- ===== src/Splitter/Collected.antt =====
-- What `merge_parts` of src/megabasterd_cli/core/splitter.py reads: the parts and the digest.
use mathlib.Core.Option.{some-injective}
use mathlib.Core.Path.{subst}
use mega_basterd_cli.Prelude.{
  ℕ, zero, suc, ◌+◌, true, false, Option, none, some, List, [], ◌∷◌, ◌++◌, ◌≡◌, ◌≢◌, ◌≤◌, ◌<◌, refl,
  sym, ap, ◌∙◌, length, arith,
}
use mega_basterd_cli.State.Hex.{Bytes}
use mega_basterd_cli.Splitter.Reading.{read_blocks-all}
use mega_basterd_cli.Splitter.{add_part, part, Dir, collect, same_text}

pub same_text-eq : (s t : List ℕ) → same_text s t ≡ true → s ≡ t
same_text-eq [] [] h = refl
same_text-eq [] (b ∷ t) h = absurd (ground arith)
same_text-eq (a ∷ s) [] h = absurd (ground arith)
same_text-eq (a ∷ s) (b ∷ t) h =
    let first : a ≡ b = ground (arith, h) in
    let rest = same_text-eq s t (ground (arith, h)) in rw (first, rest) refl

same_text_refl : (s : List ℕ) → same_text s s ≡ true
same_text_refl [] = refl
same_text_refl (a ∷ s) = ground (arith, same_text_refl s)

pub same_text-other : (s t : List ℕ) → s ≡ t → same_text s t ≢ false
same_text-other s t e h =
    let yes = subst (λ (u : List ℕ). same_text s u ≡ true) e (same_text_refl s) in
    absurd (ground (arith, yes, h))

-- The contents of so many parts, from one number on, one behind the other
pub data Collected : ℕ → ℕ → ℕ → Dir → Bytes → Type 0 where
  all_read : {i total : ℕ} {dir : Dir} → Collected 0 i total dir []
  next :
      {n i total : ℕ} {dir : Dir} (file rest : Bytes)
      → dir (part i total) ≡ some file
      → Collected n (i + 1) total dir rest
      → Collected (suc n) i total dir (file ++ rest)

add_part-missing :
    (n i total : ℕ) (dir : Dir) (here files : Option Bytes)
    → dir (part i total) ≡ here
    → (files ≡ none → (k : ℕ) × (i + 1 ≤ k) × (k < i + 1 + n) × (dir (part k total) ≡ none))
    → add_part here files ≡ none
    → (k : ℕ) × (i ≤ k) × (k < i + suc n) × (dir (part k total) ≡ none)
add_part-missing n i total dir none files d f e = (i, omega arith, omega arith, d)
add_part-missing n i total dir (some file) none d f e =
    let (k, low, high, gone) = f refl in (k, omega arith, omega arith, gone)
add_part-missing n i total dir (some file) (some rest) d f e = absurd (ground arith)

pub collect-missing :
    (n i total : ℕ) (dir : Dir)
    → collect n i total dir ≡ none
    → (k : ℕ) × (i ≤ k) × (k < i + n) × (dir (part k total) ≡ none)
unfolding collect
collect-missing zero i total dir e = absurd (ground arith)
collect-missing (suc n) i total dir e =
    add_part-missing n i total dir (dir (part i total)) (collect n (i + 1) total dir) refl
      (collect-missing n (i + 1) total dir) e

add_part-Collected :
    (n i total : ℕ) (dir : Dir) (here files : Option Bytes) (content : Bytes)
    → dir (part i total) ≡ here
    → ((rest : Bytes) → files ≡ some rest → Collected n (i + 1) total dir rest)
    → add_part here files ≡ some content
    → Collected (suc n) i total dir content
add_part-Collected n i total dir none files content d f e = absurd (ground arith)
add_part-Collected n i total dir (some file) none content d f e = absurd (ground arith)
add_part-Collected n i total dir (some file) (some rest) content d f e =
    let read = read_blocks-all 1048575 (length file) file (omega arith) in
    subst (Collected (suc n) i total dir)
      (ap (λ (l : Bytes). l ++ rest) (sym read) ∙ some-injective _ _ e)
      (next file rest d (f rest refl))

pub collect-Collected :
    (n i total : ℕ) (dir : Dir) (content : Bytes)
    → collect n i total dir ≡ some content
    → Collected n i total dir content
unfolding collect
collect-Collected zero i total dir content e =
    subst (Collected 0 i total dir) (some-injective _ _ e) all_read
collect-Collected (suc n) i total dir content e =
    add_part-Collected n i total dir (dir (part i total)) (collect n (i + 1) total dir) content refl
      (collect-Collected n (i + 1) total dir) e
