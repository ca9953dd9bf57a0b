-- ===== src/Chunks.antt =====
-- MEGA's chunk plan (src/megabasterd_cli/core/chunks.py): the byte ranges of a file, their number,
-- and the chunks that overlap a range. Sizes are numbers from 0 up, as `_validate_declared_size`
-- makes them.
pub mod Tiling
pub mod Count
pub mod Range
pub mod Apart
mod Examples
use mega_basterd_cli.Prelude.{
  ℕ, zero, suc, ◌+◌, ◌-◌, ◌*◌, ◌/◌, min, Bool, true, false, List, [], ◌∷◌, ltb, leb, ◌==◌,
  if◌then◌else◌,
}

abbrev pub chunk_sizes_kb : List ℕ
chunk_sizes_kb = 128 ∷ 256 ∷ 384 ∷ 512 ∷ 640 ∷ 768 ∷ 896 ∷ 1024 ∷ []

abbrev pub max_chunk_size : ℕ
max_chunk_size = 1048576

pub record Chunk : Type 0 where
  pub index : ℕ
  pub offset : ℕ
  pub size : ℕ

abbrev pub end_of : Chunk → ℕ
end_of c = c.offset + c.size

-- `while offset < file_size` on fuel
unfoldable pub rest_chunks : ℕ → ℕ → ℕ → ℕ → List Chunk
rest_chunks zero file_size offset index = []
rest_chunks (suc fuel) file_size offset index =
    let actual = min max_chunk_size (file_size - offset) in
    let rest = rest_chunks fuel file_size (offset + actual) (index + 1) in
    if ltb offset file_size
    then record { index = index; offset = offset; size = actual } ∷ rest
    else []

-- `for size_kb in CHUNK_SIZES_KB`, and the loop behind it
unfoldable pub first_chunks : ℕ → List ℕ → ℕ → ℕ → List Chunk
first_chunks file_size [] offset index = rest_chunks file_size file_size offset index
first_chunks file_size (size_kb ∷ sizes) offset index =
    let actual = min (size_kb * 1024) (file_size - offset) in
    let rest = first_chunks file_size sizes (offset + actual) (index + 1) in
    if leb file_size offset
    then []
    else record { index = index; offset = offset; size = actual } ∷ rest

-- The bytes of a chunk are at least one, so as much fuel as bytes is enough.
unfoldable pub iter_chunks : ℕ → List Chunk
iter_chunks file_size = first_chunks file_size chunk_sizes_kb 0 0

abbrev pub max_chunks : ℕ
max_chunks = 200000

abbrev sum_kb : List ℕ → ℕ
sum_kb [] = 0
sum_kb (kb ∷ sizes) = kb * 1024 + sum_kb sizes

abbrev pub max_file_size : ℕ
max_file_size = sum_kb chunk_sizes_kb + (max_chunks - 8) * max_chunk_size

pub count_from : ℕ → List ℕ → ℕ → ℕ → ℕ
count_from file_size [] offset count =
    count + (file_size - offset + max_chunk_size - 1) / max_chunk_size
count_from file_size (size_kb ∷ sizes) offset count =
    let rest =
      count_from file_size sizes (offset + min (size_kb * 1024) (file_size - offset)) (count + 1) in
    if leb file_size offset then count else rest

pub chunk_count : ℕ → ℕ
chunk_count file_size = if file_size == 0 then 0 else count_from file_size chunk_sizes_kb 0 0

-- The loop of `chunks_for_range`: `continue` before the range, `break` behind it.
pub overlapping : ℕ → ℕ → List Chunk → List Chunk
overlapping start stop [] = []
overlapping start stop (c ∷ cs) =
    let rest = overlapping start stop cs in
    if leb (end_of c) start then rest else if leb stop c.offset then [] else c ∷ rest

pub chunks_for_range : ℕ → ℕ → ℕ → List Chunk
chunks_for_range file_size start stop = overlapping start stop (iter_chunks file_size)
