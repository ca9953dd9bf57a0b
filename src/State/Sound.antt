-- ===== src/State/Sound.antt =====
-- The states that the program makes (src/megabasterd_cli/core/state.py): `IsSound`, kept by `mark_chunk_done`.
use mathlib.Core.Path.{subst}
use mega_basterd_cli.Prelude.{
  ℕ, String, Bool, true, false, not, ◌&&◌, ◌||◌, Option, none, some, List, [], ◌∷◌, ◌++◌, ◌≡◌, refl,
  ap, arith, ◌==◌, if◌then◌else◌, ok, Bool-cases, length, inl, inr,
}
use mega_basterd_cli.Json.{pos, Json}
use mega_basterd_cli.State.Hex.{Bytes, hex, AreBytes, fromhex-hex, length-hex, hex-not_empty}
use mega_basterd_cli.State.Model.{
  TransferState, Macs, has, mac_at, put_mac, bad_mac, with_mac, mark_chunk_done, get_chunk_mac,
  decoded, state_format_version, mac_byte_length, is_chunk_done,
}
use mega_basterd_cli.State.Validate.{Texts, validate_metadata, no_orphans, hex_of_length}

-- No number twice, and none of those that were seen.
unfoldable pub are_fresh : List ℕ → List ℕ → Bool
are_fresh [] seen = true
are_fresh (k ∷ ks) seen = not (has k seen) && are_fresh ks (k ∷ seen)

abbrev pub keys : Macs → List ℕ
keys [] = []
keys ((k, m) ∷ macs) = k ∷ keys macs

abbrev pub are_macs : Macs → Bool
are_macs [] = true
are_macs ((k, m) ∷ macs) = hex_of_length 32 (Json.str m) && are_macs macs

-- Chunks and keys without repetition, every MAC 16 bytes in hexadecimal and of a completed chunk.
pub record IsSound (env : Texts) (s : TransferState) : Type 0 where
  pub current : s.format_version ≡ pos state_format_version
  pub chunks_fresh : are_fresh s.completed_chunks [] ≡ true
  pub keys_fresh : are_fresh (keys s.chunk_macs) [] ≡ true
  pub macs_hex : are_macs s.chunk_macs ≡ true
  pub no_orphans : no_orphans env s.completed_chunks s.chunk_macs ≡ true
  pub metadata_valid : validate_metadata env s.metadata ≡ true

are_fresh-append :
    (k : ℕ) (ks seen : List ℕ)
    → are_fresh ks seen ≡ true
    → has k ks ≡ false
    → has k seen ≡ false
    → are_fresh (ks ++ k ∷ []) seen ≡ true
unfolding are_fresh
are_fresh-append k [] seen h e f = ground arith
are_fresh-append k (j ∷ ks) seen h e f =
    ground (arith, are_fresh-append k ks (j ∷ seen) (ground arith) (ground arith) (ground arith))

keys-put_mac-old :
    (k : ℕ) (m : String) (macs : Macs)
    → has k (keys macs) ≡ true
    → keys (put_mac k m macs) ≡ keys macs
unfolding put_mac
keys-put_mac-old k m [] h = ground arith
keys-put_mac-old k m ((j, n) ∷ macs) h = ground (arith, keys-put_mac-old k m macs)

pub put_mac-new :
    (k : ℕ) (m : String) (macs : Macs)
    → has k (keys macs) ≡ false
    → put_mac k m macs ≡ macs ++ (k, m) ∷ []
unfolding put_mac
put_mac-new k m [] h = refl
put_mac-new k m ((j, n) ∷ macs) h = ground (arith, put_mac-new k m macs)

pub keys-append :
    (k : ℕ) (m : String) (macs : Macs) → keys (macs ++ (k, m) ∷ []) ≡ keys macs ++ k ∷ []
keys-append k m [] = refl
keys-append k m ((j, n) ∷ macs) = ap (λ (l : List ℕ). j ∷ l) (keys-append k m macs)

put_mac-are_fresh :
    (k : ℕ) (m : String) (macs : Macs)
    → are_fresh (keys macs) [] ≡ true
    → are_fresh (keys (put_mac k m macs)) [] ≡ true
put_mac-are_fresh k m macs h = elim (Bool-cases (has k (keys macs))) [
  | inl e ↦ rw (keys-put_mac-old k m macs e) h
  | inr e ↦
      rw (put_mac-new k m macs e, keys-append k m macs) (are_fresh-append k (keys macs) [] h e refl)
]

put_mac-are_macs :
    (k : ℕ) (m : String) (macs : Macs)
    → hex_of_length 32 (Json.str m) ≡ true
    → are_macs macs ≡ true
    → are_macs (put_mac k m macs) ≡ true
unfolding put_mac
put_mac-are_macs k m [] e h = ground arith
put_mac-are_macs k m ((j, n) ∷ macs) e h = ground (arith, put_mac-are_macs k m macs e)

pub has-append : (i k : ℕ) (ks : List ℕ) → has i (ks ++ k ∷ []) ≡ (has i ks || i == k)
has-append i k [] = ground arith
has-append i k (j ∷ ks) = ground (arith, has-append i k ks)

module _ (env : Texts) where
  no_orphans-append :
      (k : ℕ) (ks : List ℕ) (macs : Macs)
      → no_orphans env ks macs ≡ true
      → no_orphans env (ks ++ k ∷ []) macs ≡ true
  no_orphans-append k ks [] h = refl
  no_orphans-append k ks ((i, m) ∷ macs) h =
      ground (arith, has-append i k ks, no_orphans-append k ks macs)

  no_orphans-put_mac :
      (k : ℕ) (m : String) (ks : List ℕ) (macs : Macs)
      → has k ks ≡ true
      → no_orphans env ks macs ≡ true
      → no_orphans env ks (put_mac k m macs) ≡ true
  unfolding put_mac
  no_orphans-put_mac k m ks [] e h = ground arith
  no_orphans-put_mac k m ks ((j, n) ∷ macs) e h = ground (arith, no_orphans-put_mac k m ks macs e)

chunks_of : ℕ → List ℕ → List ℕ
chunks_of k ks = if has k ks then ks else ks ++ k ∷ []

chunks_of-are_fresh :
    (k : ℕ) (ks : List ℕ) → are_fresh ks [] ≡ true → are_fresh (chunks_of k ks) [] ≡ true
unfolding chunks_of
chunks_of-are_fresh k ks h = ground (arith, are_fresh-append k ks [] h)

chunks_of-has : (k : ℕ) (ks : List ℕ) → has k (chunks_of k ks) ≡ true
unfolding chunks_of
chunks_of-has k ks = ground (arith, has-append k k ks)

hex-hex_of_length :
    (mac : Bytes)
    → AreBytes mac
    → length mac ≡ mac_byte_length
    → hex_of_length 32 (Json.str (hex mac)) ≡ true
hex-hex_of_length mac b h = ground (arith, fromhex-hex mac b, length-hex mac)

abbrev marked : TransferState → ℕ → Option Bytes → TransferState
marked s k mac = record s {
  completed_chunks = chunks_of k s.completed_chunks;
  chunk_macs = with_mac k mac s.chunk_macs;
}

module _ (env : Texts) where
  chunks_of-no_orphans :
      (k : ℕ) (ks : List ℕ) (macs : Macs)
      → no_orphans env ks macs ≡ true
      → no_orphans env (chunks_of k ks) macs ≡ true
  unfolding chunks_of
  chunks_of-no_orphans k ks macs h = ground (arith, no_orphans-append env k ks macs h)

  -- The bytes that a caller hands over, where it hands over a MAC.
  abbrev pub AreMacBytes : Option Bytes → Type 0
  AreMacBytes none = Unit {0}
  AreMacBytes (some mac) = AreBytes mac

  mark_chunk_done-marked :
      (s t : TransferState) (k : ℕ) (mac : Option Bytes)
      → mark_chunk_done s k mac ≡ ok t
      → (bad_mac mac ≡ false) × (marked s k mac ≡ t)
  unfolding mark_chunk_done chunks_of
  mark_chunk_done-marked s t k mac e = ground arith

  with_mac-fresh :
      (k : ℕ) (mac : Option Bytes) (macs : Macs)
      → are_fresh (keys macs) [] ≡ true
      → are_fresh (keys (with_mac k mac macs)) [] ≡ true
  with_mac-fresh k none macs h = h
  with_mac-fresh k (some mac) macs h = put_mac-are_fresh k (hex mac) macs h

  with_mac-are_macs :
      (k : ℕ) (mac : Option Bytes) (macs : Macs)
      → AreMacBytes mac
      → bad_mac mac ≡ false
      → are_macs macs ≡ true
      → are_macs (with_mac k mac macs) ≡ true
  with_mac-are_macs k none macs b l h = h
  with_mac-are_macs k (some mac) macs b l h =
      put_mac-are_macs k (hex mac) macs (hex-hex_of_length mac b (ground arith)) h

  with_mac-no_orphans :
      (k : ℕ) (mac : Option Bytes) (ks : List ℕ) (macs : Macs)
      → has k ks ≡ true
      → no_orphans env ks macs ≡ true
      → no_orphans env ks (with_mac k mac macs) ≡ true
  with_mac-no_orphans k none ks macs e h = h
  with_mac-no_orphans k (some mac) ks macs e h = no_orphans-put_mac env k (hex mac) ks macs e h

  marked-IsSound :
      (s : TransferState) (k : ℕ) (mac : Option Bytes)
      → IsSound env s
      → AreMacBytes mac
      → bad_mac mac ≡ false
      → IsSound env (marked s k mac)
  marked-IsSound s k mac i b l = record {
    current = i.current;
    chunks_fresh = chunks_of-are_fresh k s.completed_chunks i.chunks_fresh;
    keys_fresh = with_mac-fresh k mac s.chunk_macs i.keys_fresh;
    macs_hex = with_mac-are_macs k mac s.chunk_macs b l i.macs_hex;
    no_orphans =
        with_mac-no_orphans k mac (chunks_of k s.completed_chunks) s.chunk_macs
          (chunks_of-has k s.completed_chunks)
          (chunks_of-no_orphans k s.completed_chunks s.chunk_macs i.no_orphans);
    metadata_valid = i.metadata_valid;
  }

  -- Marking a chunk, with a MAC of bytes or without one, keeps a state sound.
  pub mark_chunk_done-IsSound :
      (s t : TransferState) (k : ℕ) (mac : Option Bytes)
      → IsSound env s
      → AreMacBytes mac
      → mark_chunk_done s k mac ≡ ok t
      → IsSound env t
  mark_chunk_done-IsSound s t k mac i b e =
      let m = mark_chunk_done-marked s t k mac e in
      subst (IsSound env) m.1 (marked-IsSound s k mac i b m.0)

pub mac_at-put_mac : (k : ℕ) (m : String) (macs : Macs) → mac_at k (put_mac k m macs) ≡ some m
unfolding mac_at put_mac
mac_at-put_mac k m [] = ground arith
mac_at-put_mac k m ((j, n) ∷ macs) = ground (arith, mac_at-put_mac k m macs)

pub decoded-hex :
    (mac : Bytes)
    → AreBytes mac
    → length mac ≡ mac_byte_length
    → decoded (some (hex mac)) ≡ some (some mac)
decoded-hex [] b h = ground arith
decoded-hex (x ∷ xs) b h = rw (hex-not_empty x xs, fromhex-hex (x ∷ xs) b) refl

-- Marking a chunk with a MAC of 16 bytes succeeds, and then the chunk is done and its MAC reads back.
mark_chunk_done-get_chunk_mac :
    (s : TransferState) (k : ℕ) (mac : Bytes)
    → AreBytes mac
    → length mac ≡ mac_byte_length
    → (t : TransferState) × (mark_chunk_done s k (some mac) ≡ ok t)
      × (is_chunk_done t k ≡ true)
      × (get_chunk_mac t k ≡ some (some mac))
unfolding mark_chunk_done is_chunk_done get_chunk_mac chunks_of
mark_chunk_done-get_chunk_mac s k mac b h = (
  marked s k (some mac),
  ground (arith, h),
  chunks_of-has k s.completed_chunks,
  rw (mac_at-put_mac k (hex mac) s.chunk_macs) (decoded-hex mac b h),
)
