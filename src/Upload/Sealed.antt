-- ===== src/Upload/Sealed.antt =====
-- The MACs and the key that `_upload_file_locked` and `_register_node` of
-- src/megabasterd_cli/core/uploader.py make at the end.
use mathlib.Core.Path.{subst, ◌∙◌}
use mega_basterd_cli.Prelude.Options.{◌>>=◌}
use mega_basterd_cli.Prelude.{
  ℕ, Option, none, some, List, [], ◌∷◌, ◌≡◌, refl, sym, ap, arith, inl, inr, length, All,
}
use mega_basterd_cli.Chunks.{Chunk}
use mega_basterd_cli.Chunks.Apart.{In}
use mega_basterd_cli.State.Hex.{Bytes, AreBytes}
use mega_basterd_cli.State.Model.{TransferState, get_chunk_mac}
use mega_basterd_cli.Crypto.Primitives.{Primitives, IsCipher}
use mega_basterd_cli.Crypto.Base64.{Text, b64_url_encode, b64_url_decode, b64_url_decode-encode}
use mega_basterd_cli.Crypto.Words.{
  bytes_to_a32, a32_to_bytes-some, bytes_of_words, bytes_of_words-AreBytes,
  bytes_to_a32-bytes_of_words, length-bytes_of_words, AreWords,
}
use mega_basterd_cli.Crypto.Keys.{unpack_file_key, unpack_file_key-pack_file_key}
use mega_basterd_cli.Crypto.Wrap.{aes_key_wrap_decrypt, wrapped_key}
use mega_basterd_cli.Crypto.Mac.{chunk_mac, IsBlock}
use mega_basterd_cli.Integrity.{piece, macs_on_disk}
use mega_basterd_cli.Upload.Register.{Account, wrap_file_key}
use mega_basterd_cli.Upload.Finish.{recorded_macs}

recorded :
    (a : Option (Option Bytes)) (r : Option (Option (List Bytes))) (macs : List Bytes)
    → (a >>= λ mac. r >>= λ rest. some (mac >>= λ m. rest >>= λ ms. some (m ∷ ms)))
      ≡ some (some macs)
    → (m : Bytes) × (ms : List Bytes) × (a ≡ some (some m)) × (r ≡ some (some ms)) × (macs ≡ m ∷ ms)
recorded none r macs e = absurd (cc)
recorded (some mac) none macs e = absurd (cc)
recorded (some none) (some rest) macs e = absurd (ground arith)
recorded (some (some m)) (some none) macs e = absurd (ground arith)
recorded (some (some m)) (some (some ms)) macs e = (m, ms, refl, refl, ground arith)

-- A recorded MAC that the chunk's bytes have
abbrev pub IsMade : Primitives → Bytes → Bytes → Bytes → TransferState → Chunk → Type 0
IsMade lib key nonce source state c =
    (length (piece source c) ≡ c.size)
    × ((mac : Bytes)
        → get_chunk_mac state c.index ≡ some (some mac)
        → (chunk_mac lib (piece source c) key nonce ≡ some mac) × IsBlock mac)

-- Where every chunk's recorded MAC is that of its bytes, these are the MACs of the file.
pub macs_on_disk-recorded_macs :
    (lib : Primitives) (key nonce source : Bytes) (state : TransferState) (cs : List Chunk)
    (macs : List Bytes)
    → recorded_macs state cs ≡ some (some macs)
    → ((c : Chunk) → In c cs → IsMade lib key nonce source state c)
    → (macs_on_disk lib key nonce source cs ≡ some (some macs))
      × All IsBlock macs
      × ((c : Chunk) → In c cs → (mac : Bytes) × (get_chunk_mac state c.index ≡ some (some mac)))
unfolding recorded_macs macs_on_disk
macs_on_disk-recorded_macs lib key nonce source state [] macs e h =
    let none_left : [] ≡ macs = ground arith in
    (rw (← none_left) refl, subst (All IsBlock) none_left tt, λ c i. absurd i)
macs_on_disk-recorded_macs lib key nonce source state (c ∷ cs) macs e h =
    let (m, ms, there, rest, same) =
      recorded (get_chunk_mac state c.index) (recorded_macs state cs) macs e in
    let (fits, made) = h c (inl refl) in
    let (mac, block) = made m there in
    let (disk, blocks, all_there) =
      macs_on_disk-recorded_macs lib key nonce source state cs ms rest (λ d i. h d (inr i)) in
    (
      ground (arith, fits, mac, disk, same),
      subst (All IsBlock) (sym same) (block, blocks),
      λ d i. elim i [
        | inl e ↦ (m, ap (λ (x : Chunk). get_chunk_mac state x.index) e ∙ there)
        | inr j ↦ all_there d j
      ],
    )

-- Who has the master key reads the key, the nonce and the file's MAC in the wrapped key.
pub record Opens (lib : Primitives) (master_key key nonce : Bytes) (mac_iv : List ℕ)
    (wrapped : Text) : Type 0 where
  pub sealed : Bytes
  pub file_key : Bytes
  pub decoded : b64_url_decode wrapped ≡ some sealed
  pub unwrapped : aes_key_wrap_decrypt lib sealed master_key ≡ some file_key
  pub sized : length file_key ≡ 32
  pub unpacked : unpack_file_key (bytes_to_a32 file_key) ≡ some (key, nonce, mac_iv)

pub wrap_file_key-Opens :
    (lib : Primitives) (account : Account) (key nonce : Bytes) (low high : ℕ)
    → IsCipher lib
    → length account.master_key ≡ 16
    → length key ≡ 16
    → AreBytes key
    → length nonce ≡ 8
    → AreBytes nonce
    → AreWords (low ∷ high ∷ [])
    → (wrapped : Bytes) × (wrap_file_key lib account key nonce (low ∷ high ∷ []) ≡ some wrapped)
      × Opens lib account.master_key key nonce (low ∷ high ∷ []) (b64_url_encode wrapped)
unfolding wrap_file_key
wrap_file_key-Opens lib account key nonce low high cipher m k kb n nb w =
    let (words, made, size, small, unpacks) =
      unpack_file_key-pack_file_key key nonce low high k kb n nb w in
    let (wrapped, sealing, opening, bytes) =
      wrapped_key lib cipher account.master_key m (bytes_of_words words)
        (omega (arith, length-bytes_of_words words, size)) (bytes_of_words-AreBytes words small) in
    (
      wrapped,
      rw (made, a32_to_bytes-some words small) sealing,
      record {
        sealed = wrapped;
        file_key = bytes_of_words words;
        decoded = b64_url_decode-encode wrapped bytes;
        unwrapped = opening;
        sized = omega (arith, length-bytes_of_words words, size);
        unpacked = rw (bytes_to_a32-bytes_of_words words small) unpacks;
      },
    )
