-- ===== src/Splitter/RoundTrip.antt =====
-- A file that src/megabasterd_cli/core/splitter.py has split is merged again.
use native.Mathlib.Nat.{div-add-mod', mod-lt}
use mega_basterd_cli.Prelude.{
  ℕ, zero, suc, ◌+◌, ◌-◌, ◌*◌, ◌≤◌, ◌<◌, Bool, true, false, Option, some, List, [], ◌∷◌, ◌++◌, ◌≡◌,
  refl, sym, ap, ◌∙◌, arith, length, any, ◌==◌, leb, ok, All,
}
use mega_basterd_cli.State.Hex.{Bytes}
use mega_basterd_cli.Splitter.{
  Name, part, checksum, whole, Dir, put, Place, part_names, part_count, add_part, split_file,
  split_into, write_checksum, collect, SplitResult, expected_digest, first_word, lower, is_space,
  same_text, write_target, merged, check_against, against, merge_content, merge_parts,
}
use mega_basterd_cli.Splitter.Parts.{
  cut, join-cut, with_parts, write_parts-cut, collect-with_parts, length-cut,
}

-- A digit of a digest: from 0 to 9, or from a to f.
abbrev pub IsDigit : ℕ → Type 0
IsDigit c = (48 ≤ c) × (c ≤ 102) × (((65 ≤ c) × (c ≤ 90)) → ⊥)

-- `hexdigest()` of a file: some digits, in lower case
abbrev pub IsDigesting : Place → Type 0
IsDigesting env = (bs : Bytes) → All IsDigit (env.sha1 bs) × (1 ≤ length (env.sha1 bs))

enough : (n b : ℕ) → 0 < b → n ≤ part_count n b * b
enough n b h = omega (arith, div-add-mod' (n + b - 1) b, mod-lt (n + b - 1) h)

lower-digits : (ds : List ℕ) → All IsDigit ds → lower ds ≡ ds
lower-digits [] a = refl
lower-digits (d ∷ ds) (digit, a) = ground (arith, lower-digits ds a, digit)

first_word-digits : (ds : List ℕ) → All IsDigit ds → first_word (ds ++ 10 ∷ []) ≡ ds
first_word-digits [] a = refl
first_word-digits (d ∷ ds) (digit, a) = ground (arith, first_word-digits ds a, digit)

digits-ascii : (ds : List ℕ) → All IsDigit ds → any (leb 128) (ds ++ 10 ∷ []) ≡ false
digits-ascii [] a = refl
digits-ascii (d ∷ ds) (digit, a) = ground (arith, digits-ascii ds a, digit)

-- The digest is read back from its file.
expected_digest-digits :
    (ds : List ℕ) → All IsDigit ds → 1 ≤ length ds → expected_digest (ds ++ 10 ∷ []) ≡ some ds
unfolding expected_digest
expected_digest-digits [] a h = absurd (omega arith)
expected_digest-digits (d ∷ ds) (digit, a) h =
    let solid : is_space d ≡ false = ground (arith, digit) in
    rw
      (
        digits-ascii (d ∷ ds) (digit, a),
        solid,
        first_word-digits ds a,
        solid,
        lower-digits (d ∷ ds) (digit, a),
      )
      refl

same_text_refl : (ds : List ℕ) → same_text ds ds ≡ true
same_text_refl [] = refl
same_text_refl (d ∷ ds) = ground (arith, same_text_refl ds)

collect-put_checksum :
    (n i total : ℕ) (x : Bytes) (dir : Dir)
    → collect n i total (put checksum x dir) ≡ collect n i total dir
unfolding collect
collect-put_checksum zero i total x dir = refl
collect-put_checksum (suc n) i total x dir =
    ap (add_part (dir (part i total))) (collect-put_checksum n (i + 1) total x dir)

length-part_names : (n i total : ℕ) → length (part_names n i total) ≡ n
length-part_names zero i total = refl
length-part_names (suc n) i total = ap suc (length-part_names n (i + 1) total)

any-none : (p : Name → Bool) (xs : List Name) → ((x : Name) → p x ≡ false) → any p xs ≡ false
any-none p [] none_so = refl
any-none p (x ∷ xs) none_so = rw (none_so x) (any-none p xs none_so)

-- What a split leaves in the directory
abbrev split_dir : Place → ℕ → ℕ → Bytes → Dir → Dir
split_dir env n per_part source dir =
    put checksum (env.sha1 source ++ 10 ∷ []) (with_parts 1 n (cut n per_part source) dir)

module _ (env : Place) (replaced : (x : Name) → env.replaces x ≡ true)
    (apart : (x : Name) → env.is_source x ≡ false) where
  split_into-dir :
      (n per_part : ℕ) (source : Bytes) (dir : Dir)
      → length source ≤ n * per_part
      → split_into env n per_part source dir ≡ (
        ok (record {
          parts = part_names n 1 n;
          sha1 = env.sha1 source;
          total_bytes = length source;
        }),
        split_dir env n per_part source dir,
      )
  unfolding split_into write_checksum
  split_into-dir n per_part source dir h =
      rw
        (
          any-none env.is_source (part_names n 1 n) apart,
          apart checksum,
          write_parts-cut env replaced n 1 n per_part source [] dir,
          join-cut n per_part source h,
          replaced checksum,
        )
        refl

  checked :
      (source : Bytes) (dir : Dir)
      → All IsDigit (env.sha1 source) × (1 ≤ length (env.sha1 source))
      → check_against env (some (env.sha1 source ++ 10 ∷ [])) source dir
        ≡ (ok tt, put whole source dir)
  unfolding check_against against write_target
  checked source dir (digits, some_digits) =
      let equal : same_text (env.sha1 source) (lower (env.sha1 source)) ≡ true =
        ap (same_text (env.sha1 source)) (lower-digits (env.sha1 source) digits)
        ∙ same_text_refl (env.sha1 source) in
      ap (λ (x : Option (List ℕ)). against env x source dir)
        (expected_digest-digits (env.sha1 source) digits some_digits)
      ∙ rw (equal, replaced whole) refl

  merge_parts-split_dir :
      (n per_part : ℕ) (source : Bytes) (dir : Dir)
      → IsDigesting env
      → ((x : Name) → env.is_target x ≡ false)
      → length source ≤ n * per_part
      → merge_parts env true false (some n) (split_dir env n per_part source dir)
        ≡ (ok tt, put whole source (split_dir env n per_part source dir))
  unfolding merge_parts merge_content merged check_against write_target
  merge_parts-split_dir n per_part source dir digesting free h =
      let all_there : collect n 1 n (split_dir env n per_part source dir) ≡ some source =
        collect-put_checksum n 1 n (env.sha1 source ++ 10 ∷ [])
          (with_parts 1 n (cut n per_part source) dir)
        ∙ ap (λ (k : ℕ). collect k 1 n (with_parts 1 n (cut n per_part source) dir))
            (sym (length-cut n per_part source))
        ∙ collect-with_parts 1 n (cut n per_part source) dir
        ∙ ap some (join-cut n per_part source h) in
      let alone = any-none env.is_target (part_names n 1 n ++ checksum ∷ []) free in
      rw (all_there, alone)
        (ap (merged env false n)
          (checked source (split_dir env n per_part source dir) (digesting source)))

-- A file that is not empty, split at any positive size into a directory where nothing is in the way,
-- is merged from the parts with its checksum verified: the target holds the file.
pub merge_parts-split_file :
    (env : Place)
    → IsDigesting env
    → ((x : Name) → env.replaces x ≡ true)
    → ((x : Name) → env.is_source x ≡ false)
    → ((x : Name) → env.is_target x ≡ false)
    → (source : Bytes) (part_size_mb : ℕ) (dir : Dir) → 0 < part_size_mb
    → 1 ≤ length source
    → (result : SplitResult) × (after : Dir) × (end : Dir) × (split_file env
          (some source)
          part_size_mb
          dir
        ≡ (ok result, after))
      × (merge_parts env true false (some (length result.parts)) after ≡ (ok tt, end))
      × (end whole ≡ some source)
unfolding split_file
merge_parts-split_file env digesting replaced apart free [] mb dir size some_bytes =
    absurd (omega arith)
merge_parts-split_file env digesting replaced apart free (b ∷ bs) mb dir size some_bytes =
    let per_part = mb * 1024 * 1024 in
    let n = part_count (length (b ∷ bs)) per_part in
    let positive : 0 < per_part = omega arith in
    let fits = enough (length (b ∷ bs)) per_part positive in
    let asked : (mb == 0) ≡ false = ground (arith, size) in
    (
      record { parts = part_names n 1 n; sha1 = env.sha1 (b ∷ bs); total_bytes = length (b ∷ bs) },
      split_dir env n per_part (b ∷ bs) dir,
      put whole (b ∷ bs) (split_dir env n per_part (b ∷ bs) dir),
      rw asked (split_into-dir env replaced apart n per_part (b ∷ bs) dir fits),
      rw (length-part_names n 1 n)
          (merge_parts-split_dir env replaced apart n per_part (b ∷ bs) dir digesting free fits),
      refl,
    )
