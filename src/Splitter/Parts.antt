-- ===== src/Splitter/Parts.antt =====
-- The parts that a split of src/megabasterd_cli/core/splitter.py writes, and what a merge reads of them.
use mathlib.Core.List.{append-nil, append_assoc}
use native.Mathlib.Nat.{suc-mul}
use mega_basterd_cli.Prelude.{
  ℕ, zero, suc, ◌+◌, ◌*◌, ◌≤◌, ◌<◌, true, Option, some, List, [], ◌∷◌, ◌++◌, ◌≡◌, refl, sym, ap,
  ◌∙◌, arith, length, take, drop, ok, length-drop, take-drop,
}
use mega_basterd_cli.Prelude.{join}
use mega_basterd_cli.State.Hex.{Bytes}
use mega_basterd_cli.Splitter.{Name, part, Dir, put, Place, write_parts, collect, add_part}
use mega_basterd_cli.Splitter.Reading.{copy_blocks-take, read_blocks-all}

-- The source cut at the size of a part
abbrev pub cut : ℕ → ℕ → Bytes → List Bytes
cut zero per_part source = []
cut (suc n) per_part source = take per_part source ∷ cut n per_part (drop per_part source)

pub join-cut :
    (n per_part : ℕ) (source : Bytes)
    → length source ≤ n * per_part
    → join (cut n per_part source) ≡ source
join-cut zero per_part [] h = refl
join-cut zero per_part (b ∷ bs) h = absurd (omega arith)
join-cut (suc n) per_part source h =
    let rest =
      join-cut n per_part (drop per_part source)
        (omega (arith, length-drop per_part source, suc-mul n per_part)) in
    rw rest (take-drop per_part source)

-- The directory with these parts, from a number on
abbrev pub with_parts : ℕ → ℕ → List Bytes → Dir → Dir
with_parts i total [] dir = dir
with_parts i total (f ∷ fs) dir = with_parts (i + 1) total fs (put (part i total) f dir)

module _ (env : Place) (replaced : (x : Name) → env.replaces x ≡ true) where
  pub write_parts-cut :
      (n i total per_part : ℕ) (source hashed : Bytes) (dir : Dir)
      → write_parts env n i total per_part source hashed dir ≡ (
        ok (hashed ++ join (cut n per_part source)),
        with_parts i total (cut n per_part source) dir,
      )
  unfolding write_parts
  write_parts-cut zero i total per_part source hashed dir =
      ap (λ (x : Bytes). (ok x, dir)) (sym (append-nil hashed))
  write_parts-cut (suc n) i total per_part source hashed dir =
      let copied = copy_blocks-take 1048575 per_part per_part source (omega arith) in
      rw
        (
          replaced (part i total),
          copied,
          write_parts-cut n (i + 1) total per_part (drop per_part source)
              (hashed ++ take per_part source) (put (part i total) (take per_part source) dir),
          append_assoc hashed (take per_part source) (join (cut n per_part (drop per_part source))),
        )
        refl

earlier_part :
    (i k total : ℕ) (fs : List Bytes) (dir : Dir)
    → i < k
    → with_parts k total fs dir (part i total) ≡ dir (part i total)
earlier_part i k total [] dir h = refl
earlier_part i k total (f ∷ fs) dir h =
    earlier_part i (k + 1) total fs (put (part k total) f dir) (omega arith) ∙ ground (arith, h)

there :
    (i total : ℕ) (f : Bytes) (fs : List Bytes) (dir : Dir)
    → with_parts (i + 1) total fs (put (part i total) f dir) (part i total) ≡ some f
there i total f fs dir =
    earlier_part i (i + 1) total fs (put (part i total) f dir) (omega arith) ∙ ground arith

pub collect-with_parts :
    (i total : ℕ) (fs : List Bytes) (dir : Dir)
    → collect (length fs) i total (with_parts i total fs dir) ≡ some (join fs)
unfolding collect
collect-with_parts i total [] dir = refl
collect-with_parts i total (f ∷ fs) dir =
    let rest = collect-with_parts (i + 1) total fs (put (part i total) f dir) in
    ap
      (λ (x : Option Bytes).
        add_part x (collect (length fs) (i + 1) total (with_parts i total (f ∷ fs) dir)))
      (there i total f fs dir)
    ∙ ap (add_part (some f)) rest
    ∙ ap (λ (x : Bytes). some (x ++ join fs)) (read_blocks-all 1048575 (length f) f (omega arith))

pub length-cut : (n per_part : ℕ) (source : Bytes) → length (cut n per_part source) ≡ n
length-cut zero per_part source = refl
length-cut (suc n) per_part source = ap suc (length-cut n per_part (drop per_part source))
