-- ===== src/Splitter/Examples.antt =====
-- Witnesses for the splitter.
use mega_basterd_cli.Prelude.{
  true, false, none, some, [], ◌∷◌, ◌≡◌, refl, ok, length, replicate, ◌==◌, arith, if◌then◌else◌,
}
use mega_basterd_cli.Splitter.{
  part, checksum, whole, Dir, Place, SplitResult, split_file, merge_parts,
}
use mega_basterd_cli.Splitter.RoundTrip.{IsDigesting, merge_parts-split_file}
use mega_basterd_cli.Splitter.Merging.{Merges, merge_parts-Merges}

-- A digest that does not tell files apart
abbrev place : Place
place = record {
  sha1 = λ bs. replicate 40 97;
  is_source = λ x. false;
  is_target = λ x. false;
  replaces = λ x. true;
  unlinks = λ x. true;
}

abbrev empty_dir : Dir
empty_dir x = none

place-IsDigesting : IsDigesting place
place-IsDigesting bs = (omega arith, omega arith)

merge_parts-split_file_example :
    (result : SplitResult) × (after : Dir) × (end : Dir) × (split_file place
        (some (1 ∷ 2 ∷ 3 ∷ []))
        5
        empty_dir
      ≡ (ok result, after))
    × (merge_parts place true false (some (length result.parts)) after ≡ (ok tt, end))
    × (end whole ≡ some (1 ∷ 2 ∷ 3 ∷ []))
merge_parts-split_file_example =
    merge_parts-split_file place place-IsDigesting (λ x. refl) (λ x. refl) (λ x. refl)
      (1 ∷ 2 ∷ 3 ∷ []) 5 empty_dir (omega arith) (omega arith)

-- One part of two
abbrev first_only : Dir
first_only (part i n) = if i == 1 then some (7 ∷ []) else none
first_only x = none

merge_parts-Merges_example :
    Merges place first_only
      (first_only checksum)
      (some 2)
      (merge_parts place true true (some 2) first_only)
merge_parts-Merges_example = merge_parts-Merges place true true (some 2) first_only
