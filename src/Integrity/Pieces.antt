-- ===== src/Integrity/Pieces.antt =====
-- What the check of src/megabasterd_cli/core/download_verify.py reads and decides.
use mega_basterd_cli.Prelude.Slices.{drop-all, drop-add}
use mega_basterd_cli.Prelude.{
  ℕ, ◌+◌, ◌&&◌, some, List, [], ◌∷◌, ◌≡◌, refl, sym, arith, All, map, length, drop, length-take,
  length-drop, take-drop, All-take, All-drop, ◌==◌,
}
use mega_basterd_cli.Chunks.{Chunk, iter_chunks}
use mega_basterd_cli.Chunks.Apart.{Tiles-le}
use mega_basterd_cli.Prelude.{join}
use mega_basterd_cli.Chunks.Tiling.{Tiles, iter_chunks-Tiles}
use mega_basterd_cli.State.Hex.{Bytes, AreBytes}
use mega_basterd_cli.Crypto.Primitives.{Primitives, IsCipher}
use mega_basterd_cli.Crypto.Mac.{
  chunk_mac, combine_chunk_macs, condense_mac, IsBlock, chunk_mac-IsBlock,
  condense_mac-combine_chunk_macs,
}
use mega_basterd_cli.Integrity.{piece, macs_on_disk, same_mac, compare_macs, verify_file_on_disk}

pieces-join :
    (file : Bytes) (index offset stop : ℕ) (cs : List Chunk)
    → Tiles index offset stop cs
    → stop ≡ length file
    → join (map (piece file) cs) ≡ drop offset file
pieces-join file index offset stop [] t e = sym (drop-all offset file (omega arith))
pieces-join file index offset stop (c ∷ cs) t e =
    let rest = pieces-join file (index + 1) (offset + c.size) stop cs t.4 e in
    simp (t.1, rest, ← drop-add offset c.size file) (take-drop c.size (drop offset file))

-- The chunks of a file of this length read the whole file, each byte once and in order.
pub iter_chunks-join : (file : Bytes) → join (map (piece file) (iter_chunks (length file))) ≡ file
iter_chunks-join file = pieces-join file 0 0 (length file) _ (iter_chunks-Tiles (length file)) refl

piece-length :
    (file : Bytes) (index offset stop : ℕ) (c : Chunk) (cs : List Chunk)
    → Tiles index offset stop (c ∷ cs)
    → stop ≡ length file
    → length (piece file c) ≡ c.size
piece-length file index offset stop c cs t e =
    length-take c.size (drop c.offset file)
      (omega (arith, length-drop c.offset file, Tiles-le (index + 1) (offset + c.size) stop cs t.4))

module _ (env : Primitives) (key nonce : Bytes) where
  -- The second list holds the MACs of the first.
  abbrev pub AreMacs : List Bytes → List Bytes → Type 0
  AreMacs [] [] = Unit {0}
  AreMacs (p ∷ ps) (m ∷ ms) = (chunk_mac env p key nonce ≡ some m) × AreMacs ps ms
  AreMacs _ _ = ⊥

module _ (env : Primitives) (cipher : IsCipher env) (key nonce file : Bytes)
    (key_fits : length key ≡ 16) (nonce_fits : length nonce ≡ 8) (bytes : AreBytes file) where
  macs_on_disk-AreMacs :
      (index offset stop : ℕ) (cs : List Chunk)
      → Tiles index offset stop cs
      → stop ≡ length file
      → (macs : List Bytes) × (macs_on_disk env key nonce file cs ≡ some (some macs))
        × AreMacs env key nonce (map (piece file) cs) macs
        × All IsBlock macs
  unfolding macs_on_disk
  macs_on_disk-AreMacs index offset stop [] t e = ([], refl, tt, tt)
  macs_on_disk-AreMacs index offset stop (c ∷ cs) t e =
      let (macs, read, made, blocks) =
        macs_on_disk-AreMacs (index + 1) (offset + c.size) stop cs t.4 e in
      let (mac, first, block) =
        chunk_mac-IsBlock env cipher key key_fits (piece file c) nonce
          (All-take _ c.size (drop c.offset file) (All-drop _ c.offset file bytes)) nonce_fits in
      (
        mac ∷ macs,
        ground (arith, piece-length file index offset stop c cs t e, first, read),
        (first, made),
        (block, blocks),
      )

  -- With a cipher, a key of 16 and a nonce of 8 bytes, the check of a file of bytes against two words and
  -- the plan of its length returns an answer: it reads every chunk, and passes exactly if the MAC that the
  -- chunk MACs combine to condenses to these two words.
  pub verify_file_on_disk-AreMacs :
      (low high : ℕ)
      → (macs : List Bytes) × (mac : Bytes) × (a : ℕ) × (b : ℕ) × AreMacs env key nonce
          (map (piece file) (iter_chunks (length file)))
          macs
        × (combine_chunk_macs env macs key ≡ some mac)
        × (condense_mac mac ≡ some (a ∷ b ∷ []))
        × (verify_file_on_disk env key nonce
              (low ∷ high ∷ [])
              (iter_chunks (length file))
              (some file)
            ≡ some (a == low && b == high))
  unfolding verify_file_on_disk compare_macs same_mac
  verify_file_on_disk-AreMacs low high =
      let (macs, read, made, blocks) =
        macs_on_disk-AreMacs 0 0 (length file) (iter_chunks (length file))
          (iter_chunks-Tiles (length file)) refl in
      let (mac, a, b, combined, condensed, words) =
        condense_mac-combine_chunk_macs env cipher key key_fits macs blocks in
      (macs, mac, a, b, made, combined, condensed, rw (read, combined, condensed) refl)
