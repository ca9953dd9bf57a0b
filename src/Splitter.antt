-- ===== src/Splitter.antt =====
-- The splitter and merger of files (src/megabasterd_cli/core/splitter.py). Files are those of one
-- directory, under the names of one base.
pub mod Reading
pub mod Parts
pub mod RoundTrip
pub mod Collected
pub mod Merging
mod Examples
use mega_basterd_cli.Prelude.{
  ℕ, zero, suc, ◌+◌, ◌-◌, ◌*◌, ◌/◌, min, Bool, true, false, not, ◌&&◌, ◌||◌, Option, none, some,
  List, [], ◌∷◌, ◌++◌, length, take, drop, any, ◌==◌, leb, ltb, if◌then◌else◌, Result, ok, err,
  Exec,
}
use mega_basterd_cli.State.Hex.{Bytes}

-- `<base>.part<n>-<total>`, `<base>.sha1` and `<base>`
pub data Name : Type 0 where
  part : ℕ → ℕ → Name
  checksum whole : Name

abbrev pub same_name : Name → Name → Bool
same_name (part i m) (part j n) = i == j && m == n
same_name checksum checksum = true
same_name whole whole = true
same_name _ _ = false

abbrev pub Dir : Type 0
Dir = Name → Option Bytes

abbrev pub put : Name → Bytes → Dir → Dir
put x file dir y = if same_name y x then some file else dir y

abbrev pub unlink : Name → Dir → Dir
unlink x dir y = if same_name y x then none else dir y

-- SplitterError and its messages, SplitterAliasError, an OSError of a write, and the exceptions of
-- a checksum file that is blank or not ASCII.
pub data SplitterError : Type 0 where
  not_positive not_a_file empty_file bad_name missing_part alias_error mismatch write_failed
        bad_checksum :
      SplitterError

-- What the calls answer: SHA-1 in hexadecimal, `_is_same_file` with the input of a split and with the
-- target of a merge, and whether `_atomic_output` and `unlink` succeed for a name.
pub record Place : Type 0 where
  pub sha1 : Bytes → List ℕ
  pub is_source : Name → Bool
  pub is_target : Name → Bool
  pub replaces : Name → Bool
  pub unlinks : Name → Bool

abbrev pub Method : Type 0 → Type 0
Method A = Exec SplitterError Dir A

abbrev pub block_size : ℕ
block_size = 1048576

abbrev pub is_empty : Bytes → Bool
is_empty [] = true
is_empty (b ∷ bs) = false

-- `while remaining > 0`, by blocks of this size: what is written and what the source has left
unfoldable pub copy_blocks : ℕ → ℕ → ℕ → Bytes → Bytes × Bytes
copy_blocks size zero remaining source = ([], source)
copy_blocks size (suc fuel) remaining source =
    let n = min size remaining in
    let rest = copy_blocks size fuel (remaining - length (take n source)) (drop n source) in
    if remaining == 0 || is_empty (take n source)
    then ([], source)
    else (take n source ++ rest.0, rest.1)

-- `while True` over one part
unfoldable pub read_blocks : ℕ → ℕ → Bytes → Bytes
read_blocks size zero file = []
read_blocks size (suc fuel) file =
    let rest = read_blocks size fuel (drop size file) in
    if is_empty (take size file) then [] else take size file ++ rest

abbrev pub part_names : ℕ → ℕ → ℕ → List Name
part_names zero i total = []
part_names (suc n) i total = part i total ∷ part_names n (i + 1) total

pub record SplitResult : Type 0 where
  pub parts : List Name
  pub sha1 : List ℕ
  pub total_bytes : ℕ

abbrev pub part_count : ℕ → ℕ → ℕ
part_count bytes per_part = (bytes + per_part - 1) / per_part

-- The contents of one part, with those of the parts behind it; `none` is a part that is missing.
abbrev pub add_part : Option Bytes → Option Bytes → Option Bytes
add_part none files = none
add_part (some file) none = none
add_part (some file) (some files) = some (read_blocks block_size (length file) file ++ files)

unfoldable pub collect : ℕ → ℕ → ℕ → Dir → Option Bytes
collect zero i total dir = some []
collect (suc n) i total dir = add_part (dir (part i total)) (collect n (i + 1) total dir)

abbrev pub is_space : ℕ → Bool
is_space c = c == 32 || (leb 9 c && leb c 13) || (leb 28 c && leb c 31)

abbrev pub skip_space : List ℕ → List ℕ
skip_space [] = []
skip_space (c ∷ cs) = let rest = skip_space cs in if is_space c then rest else c ∷ cs

abbrev pub first_word : List ℕ → List ℕ
first_word [] = []
first_word (c ∷ cs) = let rest = first_word cs in if is_space c then [] else c ∷ rest

abbrev pub lower : List ℕ → List ℕ
lower [] = []
lower (c ∷ cs) = (if leb 65 c && leb c 90 then c + 32 else c) ∷ lower cs

abbrev pub same_text : List ℕ → List ℕ → Bool
same_text [] [] = true
same_text (a ∷ s) (b ∷ t) = a == b && same_text s t
same_text _ _ = false

abbrev pub word_of : List ℕ → Option (List ℕ)
word_of [] = none
word_of (c ∷ cs) = some (lower (c ∷ cs))

-- `read_text(encoding="ascii").strip().split()[0].lower()`
unfoldable pub expected_digest : Bytes → Option (List ℕ)
expected_digest file = if any (leb 128) file then none else word_of (first_word (skip_space file))

module _ (env : Place) where
  abbrev pub written : Name → Bytes → Method (Unit {0})
  written x file dir = if env.replaces x then (ok tt, put x file dir) else (err write_failed, dir)

  -- `for part_path in parts`, from this number on; with what has been hashed
  unfoldable pub write_parts : ℕ → ℕ → ℕ → ℕ → Bytes → Bytes → Method Bytes
  write_parts zero i total per_part source hashed dir = (ok hashed, dir)
  write_parts (suc n) i total per_part source hashed dir =
      let (file, left) = copy_blocks block_size per_part per_part source in
      let rest =
        write_parts n (i + 1) total per_part left (hashed ++ file) (put (part i total) file dir) in
      if env.replaces (part i total) then rest else (err write_failed, dir)

  unfoldable pub write_checksum : List Name → ℕ → Result SplitterError Bytes → Method SplitResult
  write_checksum parts total_bytes (err e) dir = (err e, dir)
  write_checksum parts total_bytes (ok hashed) dir =
      if env.replaces checksum
      then (
        ok (record { parts = parts; sha1 = env.sha1 hashed; total_bytes = total_bytes }),
        put checksum (env.sha1 hashed ++ 10 ∷ []) dir,
      )
      else (err write_failed, dir)

  unfoldable pub split_into : ℕ → ℕ → Bytes → Method SplitResult
  split_into num_parts per_part source dir =
      let names = part_names num_parts 1 num_parts in
      if any env.is_source names || env.is_source checksum
      then (err alias_error, dir)
      else (let (hashed, after) = write_parts num_parts 1 num_parts per_part source [] dir in
          write_checksum names (length source) hashed after)

  unfoldable pub split_file : Option Bytes → ℕ → Method SplitResult
  split_file none part_size_mb dir =
      if part_size_mb == 0 then (err not_positive, dir) else (err not_a_file, dir)
  split_file (some source) part_size_mb dir =
      let per_part = part_size_mb * 1024 * 1024 in
      if part_size_mb == 0
      then (err not_positive, dir)
      else if is_empty source
      then (err empty_file, dir)
      else split_into (part_count (length source) per_part) per_part source dir

  unfoldable pub delete_files : List Name → Dir → Dir
  delete_files [] dir = dir
  delete_files (x ∷ xs) dir = delete_files xs (if env.unlinks x then unlink x dir else dir)

  -- `_atomic_output(target)`: the target is replaced only where nothing is raised.
  unfoldable pub write_target : Bytes → Option (List ℕ) → Method (Unit {0})
  write_target content none dir = written whole content dir
  write_target content (some expected) dir =
      if same_text expected (lower (env.sha1 content))
      then written whole content dir
      else (err mismatch, dir)

  unfoldable pub merged :
      Bool → ℕ → Result SplitterError (Unit {0}) × Dir → Result SplitterError (Unit {0}) × Dir
  merged delete_parts total (err e, dir) = (err e, dir)
  merged delete_parts total (ok u, dir) = (
    ok u,
    if delete_parts then delete_files (part_names total 1 total ++ checksum ∷ []) dir else dir,
  )

  unfoldable pub against : Option (List ℕ) → Bytes → Method (Unit {0})
  against none content dir = (err bad_checksum, dir)
  against (some word) content dir = write_target content (some word) dir

  -- `expected`, from the checksum file if there is one
  unfoldable pub check_against : Option Bytes → Bytes → Method (Unit {0})
  check_against none content dir = write_target content none dir
  check_against (some file) content dir = against (expected_digest file) content dir

  unfoldable pub merge_content : Bool → Bool → ℕ → Option Bytes → Method (Unit {0})
  merge_content verify_sha1 delete_parts total none dir = (err missing_part, dir)
  merge_content verify_sha1 delete_parts total (some content) dir =
      if any env.is_target (part_names total 1 total ++ checksum ∷ [])
      then (err alias_error, dir)
      else merged delete_parts total
          (check_against (if verify_sha1 then dir checksum else none) content dir)

  -- `total` is read from the name of the first part, if that is the name of a part.
  unfoldable pub merge_parts : Bool → Bool → Option ℕ → Method (Unit {0})
  merge_parts verify_sha1 delete_parts none dir = (err bad_name, dir)
  merge_parts verify_sha1 delete_parts (some total) dir =
      merge_content verify_sha1 delete_parts total (collect total 1 total dir) dir
