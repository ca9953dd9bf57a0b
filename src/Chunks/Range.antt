-- ===== src/Chunks/Range.antt =====
-- The chunks that overlap a range of bytes.
use mega_basterd_cli.Prelude.{ℕ, Bool, ltb, ◌&&◌}
use mega_basterd_cli.Chunks.{Chunk, end_of}

abbrev pub overlaps : ℕ → ℕ → Chunk → Bool
overlaps start stop c = ltb start (end_of c) && ltb c.offset stop
