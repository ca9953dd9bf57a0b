-- ===== src/Integrity/Examples.antt =====
-- Witnesses for the check of a finished file.
use mega_basterd_cli.Prelude.{
  ℕ, some, List, [], ◌∷◌, ◌≡◌, arith, ◌&&◌, ◌==◌, map, length, refl, replicate,
}
use mega_basterd_cli.Chunks.{iter_chunks}
use mega_basterd_cli.State.Hex.{Bytes}
use mega_basterd_cli.Crypto.Mac.{combine_chunk_macs, condense_mac}
use mega_basterd_cli.Crypto.Plain.{plain, plain-IsCipher}
use mega_basterd_cli.Integrity.{piece, verify_file_on_disk}
use mega_basterd_cli.Integrity.Pieces.{AreMacs, verify_file_on_disk-AreMacs}

abbrev contents : Bytes
contents = replicate 20 65

abbrev key : Bytes
key = replicate 16 5

abbrev nonce : Bytes
nonce = replicate 8 6

verify_file_on_disk-AreMacs_example :
    (macs : List Bytes) × (mac : Bytes) × (a : ℕ) × (b : ℕ) × AreMacs plain key nonce
      (map (piece contents) (iter_chunks (length contents)))
      macs
    × (combine_chunk_macs plain macs key ≡ some mac)
    × (condense_mac mac ≡ some (a ∷ b ∷ []))
    × (verify_file_on_disk plain key nonce
          (0 ∷ 1 ∷ [])
          (iter_chunks (length contents))
          (some contents)
        ≡ some (a == 0 && b == 1))
verify_file_on_disk-AreMacs_example =
    verify_file_on_disk-AreMacs plain plain-IsCipher key nonce contents refl refl (omega arith) 0 1
