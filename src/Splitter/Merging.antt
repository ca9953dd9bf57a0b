-- ===== src/Splitter/Merging.antt =====
-- What a merge of src/megabasterd_cli/core/splitter.py does to its directory, whatever is in it.
use mega_basterd_cli.Prelude.{
  ℕ, zero, suc, ◌+◌, Bool, true, false, Option, none, some, List, [], ◌∷◌, ◌++◌, ◌≡◌, ◌≢◌, ◌≤◌,
  refl, ap, ◌∙◌, arith, any, if◌then◌else◌, Result, ok, err, Bool-cases, inl, inr,
}
use mega_basterd_cli.State.Hex.{Bytes}
use mega_basterd_cli.Splitter.Collected.{
  same_text-eq, same_text-other, Collected, collect-missing, collect-Collected,
}
use mega_basterd_cli.Splitter.{
  part, checksum, whole, Dir, put, Place, part_names, collect, expected_digest, lower, same_text,
  write_target, written, merged, against, check_against, merge_content, merge_parts, SplitterError,
  delete_files, unlink, alias_error, missing_part, bad_name, mismatch, bad_checksum, write_failed,
}

module _ (env : Place) where
  -- The digest that the checksum file asks for, where there is one
  abbrev pub Matches : Option Bytes → Bytes → Type 0
  Matches none content = Unit {0}
  Matches (some file) content = expected_digest file ≡ some (lower (env.sha1 content))

  -- Why contents do not become the target
  pub data Unwritten (needed : Option Bytes) (content : Bytes) : SplitterError → Type 0 where
    no_digest :
        (file : Bytes)
        → needed ≡ some file
        → expected_digest file ≡ none
        → Unwritten needed content bad_checksum
    other_digest :
        (file : Bytes) (word : List ℕ)
        → needed ≡ some file
        → expected_digest file ≡ some word
        → word ≢ lower (env.sha1 content)
        → Unwritten needed content mismatch
    not_replaced : env.replaces whole ≡ false → Unwritten needed content write_failed

  -- Why a merge raises
  pub data Refusal (dir : Dir) (needed : Option Bytes) (total : Option ℕ)
      : SplitterError → Type 0 where
    no_name : total ≡ none → Refusal dir needed total bad_name
    lacks :
        (n i : ℕ)
        → total ≡ some n
        → 1 ≤ i
        → i ≤ n
        → dir (part i n) ≡ none
        → Refusal dir needed total missing_part
    is_source :
        (n : ℕ)
        → total ≡ some n
        → any env.is_target (part_names n 1 n ++ checksum ∷ []) ≡ true
        → Refusal dir needed total alias_error
    unwritten :
        (n : ℕ) (content : Bytes) (e : SplitterError)
        → total ≡ some n
        → Collected n 1 n dir content
        → Unwritten needed content e
        → Refusal dir needed total e

  pub data Wrote (dir : Dir) (content : Bytes) (needed : Option Bytes)
      : Result SplitterError (Unit {0}) × Dir → Type 0 where
    failed :
        (e : SplitterError) → Unwritten needed content e → Wrote dir content needed (err e, dir)
    replaced : Matches needed content → Wrote dir content needed (ok tt, put whole content dir)

  -- A merge fails and leaves the directory as it is, or has written the parts, put together, to the
  -- target, with the digest that was asked for.
  pub data Merges (dir : Dir) (needed : Option Bytes) (total : Option ℕ)
      : Result SplitterError (Unit {0}) × Dir → Type 0 where
    refused :
        (e : SplitterError) → Refusal dir needed total e → Merges dir needed total (err e, dir)
    merges :
        (n : ℕ) (content : Bytes) (after : Dir)
        → total ≡ some n
        → Collected n 1 n dir content
        → Matches needed content
        → after whole ≡ some content
        → Merges dir needed total (ok tt, after)

  written-Wrote :
      (content : Bytes) (needed : Option Bytes) (dir : Dir)
      → Matches needed content
      → Wrote dir content needed (written env whole content dir)
  written-Wrote content needed dir m = elim (Bool-cases (env.replaces whole)) [
    | inl r ↦ rw r (replaced m)
    | inr r ↦ rw r (failed write_failed (not_replaced r))
  ]

  against-Wrote :
      (digest : Option (List ℕ)) (content file : Bytes) (dir : Dir)
      → expected_digest file ≡ digest
      → Wrote dir content (some file) (against env digest content dir)
  unfolding against write_target
  against-Wrote none content file dir e = failed bad_checksum (no_digest file refl e)
  against-Wrote (some word) content file dir e =
      elim (Bool-cases (same_text word (lower (env.sha1 content)))) [
        | inl s ↦ rw s (
            written-Wrote content (some file) dir
              (e ∙ ap some (same_text-eq word (lower (env.sha1 content)) s)))
        | inr s ↦ rw s (
            failed mismatch (
              other_digest file word refl e
                (λ same. same_text-other word (lower (env.sha1 content)) same s)))
      ]

  check_against-Wrote :
      (needed : Option Bytes) (content : Bytes) (dir : Dir)
      → Wrote dir content needed (check_against env needed content dir)
  unfolding check_against write_target
  check_against-Wrote none content dir = written-Wrote content none dir tt
  check_against-Wrote (some file) content dir =
      against-Wrote (expected_digest file) content file dir refl

  unlinked_part :
      (b : Bool) (i total : ℕ) (dir : Dir)
      → (if b then unlink (part i total) dir else dir) whole ≡ dir whole
  unlinked_part true i total dir = refl
  unlinked_part false i total dir = refl

  delete_files-whole :
      (n i total : ℕ) (dir : Dir)
      → delete_files env (part_names n i total ++ checksum ∷ []) dir whole ≡ dir whole
  unfolding delete_files
  delete_files-whole zero i total dir = elim (Bool-cases (env.unlinks checksum)) [
    | inl u ↦ rw u refl
    | inr u ↦ rw u refl
  ]
  delete_files-whole (suc n) i total dir =
      delete_files-whole n (i + 1) total
        (if env.unlinks (part i total) then unlink (part i total) dir else dir)
      ∙ unlinked_part (env.unlinks (part i total)) i total dir

  merged-Merges :
      (delete_parts : Bool) (n : ℕ) (content : Bytes) (dir : Dir) (needed : Option Bytes)
      (o : Result SplitterError (Unit {0}) × Dir)
      → Collected n 1 n dir content
      → Wrote dir content needed o
      → Merges dir needed (some n) (merged env delete_parts n o)
  unfolding merged
  merged-Merges delete_parts n content dir needed o c (failed e u) =
      refused e (unwritten n content e refl c u)
  merged-Merges true n content dir needed o c (replaced m) =
      merges n content _ refl c m (delete_files-whole n 1 n (put whole content dir))
  merged-Merges false n content dir needed o c (replaced m) = merges n content _ refl c m refl

  merge_content-Merges :
      (verify_sha1 delete_parts : Bool) (n : ℕ) (found : Option Bytes) (dir : Dir)
      → collect n 1 n dir ≡ found
      → Merges dir
          (if verify_sha1 then dir checksum else none)
          (some n)
          (merge_content env verify_sha1 delete_parts n found dir)
  unfolding merge_content
  merge_content-Merges verify_sha1 delete_parts n none dir c =
      let (i, low, high, gone) = collect-missing n 1 n dir c in
      refused missing_part (lacks n i refl low (omega arith) gone)
  merge_content-Merges verify_sha1 delete_parts n (some content) dir c =
      elim (Bool-cases (any env.is_target (part_names n 1 n ++ checksum ∷ []))) [
        | inl a ↦ rw a (refused alias_error (is_source n refl a))
        | inr a ↦ rw a (
            merged-Merges delete_parts n content dir (if verify_sha1 then dir checksum else none) _
              (collect-Collected n 1 n dir content c)
              (check_against-Wrote (if verify_sha1 then dir checksum else none) content dir))
      ]

-- A merge of any directory has found all the parts that the name announces, and the digest of the checksum
-- file where one is there and asked for, and left the contents of the parts, one behind the other by their
-- numbers, in the target. Or it raises and leaves every file as it was: for a name that is not a part's, a
-- missing part, a target that is one of the sources, a checksum file without a digest or with that of
-- other contents, or a target that cannot be replaced.
pub merge_parts-Merges :
    (env : Place) (verify_sha1 delete_parts : Bool) (total : Option ℕ) (dir : Dir)
    → Merges env dir
        (if verify_sha1 then dir checksum else none)
        total
        (merge_parts env verify_sha1 delete_parts total dir)
unfolding merge_parts
merge_parts-Merges env verify_sha1 delete_parts none dir = refused bad_name (no_name refl)
merge_parts-Merges env verify_sha1 delete_parts (some n) dir =
    merge_content-Merges env verify_sha1 delete_parts n (collect n 1 n dir) dir refl
