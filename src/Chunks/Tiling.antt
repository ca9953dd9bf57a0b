-- ===== src/Chunks/Tiling.antt =====
-- The chunks of a file lie end to end over the whole file.
use mega_basterd_cli.Prelude.{
  ℕ, zero, suc, ◌+◌, ◌-◌, ◌*◌, ◌≤◌, ◌<◌, min, List, [], ◌∷◌, ◌≡◌, refl, arith, inl, inr, ltb, leb,
  Bool-cases, All,
}
use mega_basterd_cli.Chunks.{
  Chunk, rest_chunks, first_chunks, iter_chunks, max_chunk_size, chunk_sizes_kb,
}

-- Chunks numbered from `index` that cover the bytes from `offset` to `stop` without a gap, each of
-- at least one byte and at most one MiB.
abbrev pub Tiles : ℕ → ℕ → ℕ → List Chunk → Type 0
Tiles index offset stop [] = offset ≡ stop
Tiles index offset stop (c ∷ cs) =
    (c.index ≡ index)
    × (c.offset ≡ offset)
    × (0 < c.size)
    × (c.size ≤ max_chunk_size)
    × Tiles (index + 1) (offset + c.size) stop cs

rest_chunks-Tiles :
    (fuel n offset index : ℕ)
    → offset ≤ n
    → n - offset ≤ fuel
    → Tiles index offset n (rest_chunks fuel n offset index)
unfolding rest_chunks
rest_chunks-Tiles zero n offset index h enough = omega arith
rest_chunks-Tiles (suc fuel) n offset index h enough = elim (Bool-cases (ltb offset n)) [
  | inl more ↦ rw more (
    refl,
    refl,
    ground arith,
    ground arith,
    rest_chunks-Tiles fuel n (offset + min max_chunk_size (n - offset)) (index + 1) (ground arith)
        (ground arith),
  )
  | inr done ↦ rw done (ground arith)
]

abbrev Fits : List ℕ → Type 0
Fits = All (λ (kb : ℕ). (0 < kb) × (kb ≤ 1024))

first_chunks-Tiles :
    (n : ℕ) (sizes : List ℕ) (offset index : ℕ)
    → Fits sizes
    → offset ≤ n
    → Tiles index offset n (first_chunks n sizes offset index)
unfolding first_chunks
first_chunks-Tiles n [] offset index f h = rest_chunks-Tiles n n offset index h (omega arith)
first_chunks-Tiles n (kb ∷ sizes) offset index f h = elim (Bool-cases (leb n offset)) [
  | inl done ↦ rw done (ground arith)
  | inr more ↦ rw more (
    refl,
    refl,
    ground arith,
    ground arith,
    first_chunks-Tiles n sizes (offset + min (kb * 1024) (n - offset)) (index + 1) f.1
        (ground arith),
  )
]

-- The chunks of a file cover it exactly: they are numbered from 0, start at byte 0, leave no gap,
-- end at the file's size, and each holds between one byte and one MiB.
pub iter_chunks-Tiles : (n : ℕ) → Tiles 0 0 n (iter_chunks n)
unfolding iter_chunks
iter_chunks-Tiles n = first_chunks-Tiles n chunk_sizes_kb 0 0 (omega arith) (omega arith)
