-- ===== src/Chunks/Count.antt =====
-- The number of chunks is computed without building them, and bounds the file's size.
use mega_basterd_cli.Prelude.{
  ℕ, zero, suc, ◌+◌, ◌-◌, ◌*◌, ◌/◌, ◌≤◌, min, List, [], ◌∷◌, ◌≡◌, ◌↔◌, refl, arith, inl, inr, ltb,
  leb, ◌==◌, Bool-cases, ==_iff, length,
}
use mega_basterd_cli.Chunks.{
  rest_chunks, first_chunks, iter_chunks, count_from, chunk_count, max_chunk_size, chunk_sizes_kb,
  max_file_size, max_chunks,
}

length-rest_chunks :
    (fuel n offset index : ℕ)
    → offset ≤ n
    → n - offset ≤ fuel
    → length (rest_chunks fuel n offset index) ≡ (n - offset + max_chunk_size - 1) / max_chunk_size
unfolding rest_chunks
length-rest_chunks zero n offset index h enough = omega arith
length-rest_chunks (suc fuel) n offset index h enough = elim (Bool-cases (ltb offset n)) [
  | inl more ↦ rw more (
      ground
        (arith, length-rest_chunks fuel n (offset + min max_chunk_size (n - offset)) (index + 1)))
  | inr done ↦ rw done (ground arith)
]

length-first_chunks :
    (n : ℕ) (sizes : List ℕ) (offset index count : ℕ)
    → offset ≤ n
    → count + length (first_chunks n sizes offset index) ≡ count_from n sizes offset count
unfolding first_chunks count_from
length-first_chunks n [] offset index count h = omega (arith, length-rest_chunks n n offset index h)
length-first_chunks n (kb ∷ sizes) offset index count h = elim (Bool-cases (leb n offset)) [
  | inl done ↦ rw done (omega arith)
  | inr more ↦ rw more (
      ground (
        arith,
        length-first_chunks n sizes (offset + min (kb * 1024) (n - offset)) (index + 1) (count + 1),
      ))
]

-- `chunk_count` is the number of chunks that `iter_chunks` yields.
pub chunk_count-length : (n : ℕ) → chunk_count n ≡ length (iter_chunks n)
unfolding chunk_count iter_chunks
chunk_count-length n = elim (Bool-cases (n == 0)) [
  | inl none_left ↦ rw none_left (rw ((==_iff n 0).0 none_left) (unfold first_chunks in refl))
  | inr some_left ↦
      rw some_left (omega (arith, length-first_chunks n chunk_sizes_kb 0 0 0 (omega arith)))
]

-- A file has at most 200,000 chunks exactly if it is no larger than the largest supported size.
pub chunk_count-le-max : (n : ℕ) → (chunk_count n ≤ max_chunks) ↔ (n ≤ max_file_size)
unfolding chunk_count count_from
chunk_count-le-max n = ground arith
