-- ===== src/Chunks/Examples.antt =====
-- Witnesses for the chunk plan (src/megabasterd_cli/core/chunks.py), on a file of three chunks.
use mega_basterd_cli.Prelude.{◌≡◌, ◌≤◌, ◌↔◌, length}
use mega_basterd_cli.Chunks.{iter_chunks, chunk_count, max_chunks, max_file_size}
use mega_basterd_cli.Chunks.Tiling.{Tiles, iter_chunks-Tiles}
use mega_basterd_cli.Chunks.Count.{chunk_count-length, chunk_count-le-max}

iter_chunks-Tiles_example : Tiles 0 0 500000 (iter_chunks 500000)
iter_chunks-Tiles_example = iter_chunks-Tiles 500000

chunk_count-length_example : chunk_count 500000 ≡ length (iter_chunks 500000)
chunk_count-length_example = chunk_count-length 500000

chunk_count-le-max_example : (chunk_count 500000 ≤ max_chunks) ↔ (500000 ≤ max_file_size)
chunk_count-le-max_example = chunk_count-le-max 500000
