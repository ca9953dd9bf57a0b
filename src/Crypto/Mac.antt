-- ===== src/Crypto/Mac.antt =====
-- The CBC-MACs of chunks and of the file (src/megabasterd_cli/core/chunks.py).
use Prim.Native.Nat.{bit_xor}
use mega_basterd_cli.Prelude.{
  ℕ, ◌-◌, ◌%◌, Option, none, some, List, [], ◌∷◌, ◌++◌, ◌≡◌, refl, arith, All, length, drop,
  replicate, length-append, All-append, length-drop, length-replicate, All-replicate, All-drop,
}
use mega_basterd_cli.Prelude.Bits.{bit_xor-lt}
use mega_basterd_cli.Prelude.Options.{◌>>=◌}
use mega_basterd_cli.State.Hex.{Bytes, AreBytes}
use mega_basterd_cli.Crypto.Primitives.{Primitives, IsCipher, zeros}
use mega_basterd_cli.Crypto.Words.{
  bytes_to_a32, AreWords, length-bytes_to_a32, bytes_to_a32-AreWords,
}

-- `(-len(plaintext)) % 16` zeros
abbrev pub padding : Bytes → Bytes
padding bs = replicate ((16 - length bs % 16) % 16) 0

-- `zip(..., strict=True)` of two byte strings, added; `none` is its ValueError.
unfoldable pub xor_bytes : Bytes → Bytes → Option Bytes
xor_bytes [] [] = some []
xor_bytes (a ∷ s) (b ∷ t) = do rest ← xor_bytes s t; some (bit_xor a b ∷ rest)
xor_bytes _ _ = none

-- The two halves, folded; `none` is the IndexError of a MAC that is too short.
unfoldable pub fold_words : List ℕ → Option (List ℕ)
fold_words (a ∷ b ∷ c ∷ d ∷ _) = some (bit_xor a b ∷ bit_xor c d ∷ [])
fold_words _ = none

unfoldable pub condense_mac : Bytes → Option (List ℕ)
condense_mac mac = fold_words (bytes_to_a32 mac)

module _ (env : Primitives) where
  unfoldable pub chunk_mac : Bytes → Bytes → Bytes → Option Bytes
  chunk_mac [] aes_key nonce = some zeros
  chunk_mac (p ∷ ps) aes_key nonce = do
    encrypted ← env.cbc_encrypt aes_key (nonce ++ nonce) ((p ∷ ps) ++ padding (p ∷ ps))
    some (drop (length encrypted - 16) encrypted)

  -- The loop, from the state it has reached
  unfoldable pub combine_from : Bytes → List Bytes → Bytes → Option Bytes
  combine_from state [] aes_key = some state
  combine_from state (mac ∷ macs) aes_key = do
    block ← xor_bytes state mac
    next ← env.cbc_encrypt aes_key zeros block
    combine_from next macs aes_key

  unfoldable pub combine_chunk_macs : List Bytes → Bytes → Option Bytes
  combine_chunk_macs macs aes_key = combine_from zeros macs aes_key

abbrev pub IsBlock : Bytes → Type 0
IsBlock bs = (length bs ≡ 16) × AreBytes bs

xor_bytes-some :
    (s t : Bytes)
    → length s ≡ length t
    → AreBytes s
    → AreBytes t
    → (u : Bytes) × (xor_bytes s t ≡ some u) × (length u ≡ length s) × AreBytes u
unfolding xor_bytes
xor_bytes-some [] [] l p q = ([], refl, refl, tt)
xor_bytes-some [] (b ∷ t) l p q = absurd (omega arith)
xor_bytes-some (a ∷ s) [] l p q = absurd (omega arith)
xor_bytes-some (a ∷ s) (b ∷ t) l p q =
    let (u, added, size, small) = xor_bytes-some s t (omega arith) p.1 q.1 in
    (bit_xor a b ∷ u, rw added refl, omega (arith, size), (bit_xor-lt 8 a b p.0 q.0, small))

folded_words :
    (ws : List ℕ)
    → length ws ≡ 4
    → AreWords ws
    → (low : ℕ) × (high : ℕ) × (fold_words ws ≡ some (low ∷ high ∷ [])) × AreWords (low ∷ high ∷ [])
unfolding fold_words
folded_words [] l w = absurd (omega arith)
folded_words (a ∷ []) l w = absurd (omega arith)
folded_words (a ∷ b ∷ []) l w = absurd (omega arith)
folded_words (a ∷ b ∷ c ∷ []) l w = absurd (omega arith)
folded_words (a ∷ b ∷ c ∷ d ∷ []) l (wa, (wb, (wc, (wd, u)))) =
    (bit_xor a b, bit_xor c d, refl, (bit_xor-lt 32 a b wa wb, (bit_xor-lt 32 c d wc wd, tt)))
folded_words (a ∷ b ∷ c ∷ d ∷ e ∷ ws) l w = absurd (omega arith)

pub padded-length : (bs : Bytes) → length (bs ++ padding bs) % 16 ≡ 0
padded-length bs =
    omega (
      arith,
      length-append bs (padding bs),
      length-replicate {A = ℕ} ((16 - length bs % 16) % 16) 0,
    )

pub padded-AreBytes : (bs : Bytes) → AreBytes bs → AreBytes (bs ++ padding bs)
padded-AreBytes bs h =
    All-append _ bs (padding bs) h (All-replicate _ ((16 - length bs % 16) % 16) 0 (omega arith))

module _ (env : Primitives) (cipher : IsCipher env) (key : Bytes) (key_fits : length key ≡ 16) where
  -- The MAC of a chunk is a block of 16 bytes, for a key of 16 and a nonce of 8 bytes.
  pub chunk_mac-IsBlock :
      (plaintext nonce : Bytes)
      → AreBytes plaintext
      → length nonce ≡ 8
      → (mac : Bytes) × (chunk_mac env plaintext key nonce ≡ some mac) × IsBlock mac
  unfolding chunk_mac
  chunk_mac-IsBlock [] nonce h n = (zeros, refl, omega arith)
  chunk_mac-IsBlock (p ∷ ps) nonce h n =
      let bs = p ∷ ps in
      let (sealed, c) =
        cipher key (nonce ++ nonce) (bs ++ padding bs) key_fits
          (omega (arith, length-append nonce nonce)) (padded-length bs) (padded-AreBytes bs h) in
      (
        drop (length sealed - 16) sealed,
        rw c.encrypts refl,
        (
          omega (
            arith,
            length-drop (length sealed - 16) sealed,
            c.same_length,
            padded-length bs,
            length-append bs (padding bs),
          ),
          All-drop _ (length sealed - 16) sealed c.sealed_bytes,
        ),
      )

  combine_from-IsBlock :
      (state : Bytes) (macs : List Bytes)
      → IsBlock state
      → All IsBlock macs
      → (mac : Bytes) × (combine_from env state macs key ≡ some mac) × IsBlock mac
  unfolding combine_from
  combine_from-IsBlock state [] s h = (state, refl, s)
  combine_from-IsBlock state (mac ∷ macs) s h =
      let (block, added, size, small) = xor_bytes-some state mac (omega arith) s.1 h.0.1 in
      let (sealed, c) = cipher key zeros block key_fits refl (omega (arith, size)) small in
      let (last, run, fits) =
        combine_from-IsBlock sealed macs (omega (arith, size, c.same_length), c.sealed_bytes) h.1 in
      (last, rw (added, c.encrypts) run, fits)

  -- The MAC of a file of blocks as chunk MACs is a block, and condenses to two words.
  pub condense_mac-combine_chunk_macs :
      (macs : List Bytes)
      → All IsBlock macs
      → (mac : Bytes) × (low : ℕ) × (high : ℕ) × (combine_chunk_macs env macs key ≡ some mac)
        × (condense_mac mac ≡ some (low ∷ high ∷ []))
        × AreWords (low ∷ high ∷ [])
  unfolding combine_chunk_macs condense_mac
  condense_mac-combine_chunk_macs macs h =
      let (mac, run, (size, small)) = combine_from-IsBlock zeros macs (omega arith) h in
      let (low, high, folded, words) =
        folded_words (bytes_to_a32 mac)
          (omega (arith, length-bytes_to_a32 mac (omega (arith, size))))
          (bytes_to_a32-AreWords mac small) in
      (mac, low, high, run, folded, words)
