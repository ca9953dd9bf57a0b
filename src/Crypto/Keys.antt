-- ===== src/Crypto/Keys.antt =====
-- The file key of 8 words: `pack_file_key` and `unpack_file_key` (src/megabasterd_cli/core/crypto.py).
use Prim.Native.Nat.{bit_xor}
use mega_basterd_cli.Prelude.{
  ℕ, ◌<◌, ◌%◌, Option, none, some, List, [], ◌∷◌, ◌≡◌, refl, arith, length,
}
use mega_basterd_cli.Prelude.Bits.{bit_xor_cancel, bit_xor-lt}
use mega_basterd_cli.Prelude.Options.{◌>>=◌}
use mega_basterd_cli.State.Hex.{Bytes, AreBytes}
use mega_basterd_cli.Crypto.Words.{
  bytes_to_a32, a32_to_bytes, AreWords, bytes_of_words, a32_to_bytes-some,
  bytes_to_a32-bytes_of_words, bytes_to_a32-AreWords, bytes_of_words-bytes_to_a32,
  length-bytes_to_a32,
}

-- `none` is the ValueError of a key that has not 8 words.
unfoldable pub unpack_file_key : List ℕ → Option (Bytes × Bytes × List ℕ)
unpack_file_key (a ∷ b ∷ c ∷ d ∷ e ∷ f ∷ g ∷ h ∷ []) = do
  aes_key ← a32_to_bytes (bit_xor a e ∷ bit_xor b f ∷ bit_xor c g ∷ bit_xor d h ∷ [])
  nonce ← a32_to_bytes (e ∷ f ∷ [])
  some (aes_key, nonce, g ∷ h ∷ [])
unpack_file_key _ = none

-- `none` is the IndexError of a part that is too short; what is behind the indexed words is ignored.
unfoldable pub pack_words : List ℕ → List ℕ → List ℕ → Option (List ℕ)
pack_words (a ∷ b ∷ c ∷ d ∷ _) (e ∷ f ∷ _) (g ∷ h ∷ _) =
    some (bit_xor a e ∷ bit_xor b f ∷ bit_xor c g ∷ bit_xor d h ∷ e ∷ f ∷ g ∷ h ∷ [])
pack_words _ _ _ = none

unfoldable pub pack_file_key : Bytes → Bytes → List ℕ → Option (List ℕ)
pack_file_key aes_key nonce mac_iv = pack_words (bytes_to_a32 aes_key) (bytes_to_a32 nonce) mac_iv

bit_xor-word : (a b : ℕ) → a < 4294967296 → b < 4294967296 → bit_xor a b < 4294967296
bit_xor-word a b p q = bit_xor-lt 32 a b p q

unpacked :
    (a b c d e f g h : ℕ)
    → AreWords (a ∷ b ∷ c ∷ d ∷ e ∷ f ∷ g ∷ h ∷ [])
    → (aes_key : Bytes) × (nonce : Bytes) × (mac_iv : List ℕ) × (unpack_file_key
          (a ∷ b ∷ c ∷ d ∷ e ∷ f ∷ g ∷ h ∷ [])
        ≡ some (aes_key, nonce, mac_iv))
      × (pack_file_key aes_key nonce mac_iv ≡ some (a ∷ b ∷ c ∷ d ∷ e ∷ f ∷ g ∷ h ∷ []))
unfolding unpack_file_key pack_file_key pack_words
unpacked a b c d e f g h (wa, (wb, (wc, (wd, (we, (wf, (wg, (wh, u)))))))) =
    let key_words : AreWords (bit_xor a e ∷ bit_xor b f ∷ bit_xor c g ∷ bit_xor d h ∷ []) = (
      bit_xor-word a e wa we,
      (bit_xor-word b f wb wf, (bit_xor-word c g wc wg, (bit_xor-word d h wd wh, tt))),
    ) in
    let nonce_words : AreWords (e ∷ f ∷ []) = (we, (wf, tt)) in
    (
      bytes_of_words (bit_xor a e ∷ bit_xor b f ∷ bit_xor c g ∷ bit_xor d h ∷ []),
      bytes_of_words (e ∷ f ∷ []),
      g ∷ h ∷ [],
      rw (a32_to_bytes-some _ key_words, a32_to_bytes-some _ nonce_words) refl,
      rw
          (
            bytes_to_a32-bytes_of_words _ key_words,
            bytes_to_a32-bytes_of_words _ nonce_words,
            bit_xor_cancel a e,
            bit_xor_cancel b f,
            bit_xor_cancel c g,
            bit_xor_cancel d h,
          )
          refl,
    )

-- Every key of 8 words of 32 bits unpacks, and packing the parts gives it back.
pack_file_key-unpack_file_key :
    (key : List ℕ)
    → length key ≡ 8
    → AreWords key
    → (aes_key : Bytes) × (nonce : Bytes) × (mac_iv : List ℕ) × (unpack_file_key key
        ≡ some (aes_key, nonce, mac_iv))
      × (pack_file_key aes_key nonce mac_iv ≡ some key)
pack_file_key-unpack_file_key [] l w = absurd (omega arith)
pack_file_key-unpack_file_key (a ∷ []) l w = absurd (omega arith)
pack_file_key-unpack_file_key (a ∷ b ∷ []) l w = absurd (omega arith)
pack_file_key-unpack_file_key (a ∷ b ∷ c ∷ []) l w = absurd (omega arith)
pack_file_key-unpack_file_key (a ∷ b ∷ c ∷ d ∷ []) l w = absurd (omega arith)
pack_file_key-unpack_file_key (a ∷ b ∷ c ∷ d ∷ e ∷ []) l w = absurd (omega arith)
pack_file_key-unpack_file_key (a ∷ b ∷ c ∷ d ∷ e ∷ f ∷ []) l w = absurd (omega arith)
pack_file_key-unpack_file_key (a ∷ b ∷ c ∷ d ∷ e ∷ f ∷ g ∷ []) l w = absurd (omega arith)
pack_file_key-unpack_file_key (a ∷ b ∷ c ∷ d ∷ e ∷ f ∷ g ∷ h ∷ []) l w = unpacked a b c d e f g h w
pack_file_key-unpack_file_key (a ∷ b ∷ c ∷ d ∷ e ∷ f ∷ g ∷ h ∷ i ∷ rest) l w = absurd (omega arith)

-- The two words of the MAC of a file, and the words of its key
abbrev pub Packed : Bytes → Bytes → List ℕ → Type 0
Packed aes_key nonce mac_iv =
    (words : List ℕ) × (pack_file_key aes_key nonce mac_iv ≡ some words)
    × (length words ≡ 8)
    × AreWords words
    × (unpack_file_key words ≡ some (aes_key, nonce, mac_iv))

packed :
    (aes_key nonce : Bytes) (ks ns : List ℕ) (low high : ℕ)
    → length ks ≡ 4
    → length ns ≡ 2
    → AreWords ks
    → AreWords ns
    → AreWords (low ∷ high ∷ [])
    → bytes_to_a32 aes_key ≡ ks
    → bytes_to_a32 nonce ≡ ns
    → a32_to_bytes ks ≡ some aes_key
    → a32_to_bytes ns ≡ some nonce
    → Packed aes_key nonce (low ∷ high ∷ [])
unfolding unpack_file_key pack_file_key pack_words
packed aes_key nonce (a ∷ b ∷ c ∷ d ∷ []) (e ∷ f ∷ []) g h l m (wa, (wb, (wc, (wd, u))))
      (we, (wf, v)) (wg, (wh, w)) k n key_there nonce_there =
    (
      bit_xor a e ∷ bit_xor b f ∷ bit_xor c g ∷ bit_xor d h ∷ e ∷ f ∷ g ∷ h ∷ [],
      rw (k, n) refl,
      refl,
      (
        bit_xor-word a e wa we,
        (
          bit_xor-word b f wb wf,
          (bit_xor-word c g wc wg, (bit_xor-word d h wd wh, (we, (wf, (wg, (wh, tt)))))),
        ),
      ),
      rw
          (
            bit_xor_cancel a e,
            bit_xor_cancel b f,
            bit_xor_cancel c g,
            bit_xor_cancel d h,
            key_there,
            nonce_there,
          )
          refl,
    )
packed aes_key nonce [] ns g h l m wk wn wm k n p q = absurd (omega arith)
packed aes_key nonce (a ∷ []) ns g h l m wk wn wm k n p q = absurd (omega arith)
packed aes_key nonce (a ∷ b ∷ []) ns g h l m wk wn wm k n p q = absurd (omega arith)
packed aes_key nonce (a ∷ b ∷ c ∷ []) ns g h l m wk wn wm k n p q = absurd (omega arith)
packed aes_key nonce (a ∷ b ∷ c ∷ d ∷ e ∷ ks) ns g h l m wk wn wm k n p q = absurd (omega arith)
packed aes_key nonce (a ∷ b ∷ c ∷ d ∷ []) [] g h l m wk wn wm k n p q = absurd (omega arith)
packed aes_key nonce (a ∷ b ∷ c ∷ d ∷ []) (e ∷ []) g h l m wk wn wm k n p q = absurd (omega arith)
packed aes_key nonce (a ∷ b ∷ c ∷ d ∷ []) (e ∷ f ∷ i ∷ ns) g h l m wk wn wm k n p q =
    absurd (omega arith)

there_and_back :
    (bs : Bytes) → AreBytes bs → length bs % 4 ≡ 0 → a32_to_bytes (bytes_to_a32 bs) ≡ some bs
there_and_back bs h l =
    rw
      (
        a32_to_bytes-some (bytes_to_a32 bs) (bytes_to_a32-AreWords bs h),
        bytes_of_words-bytes_to_a32 bs h l,
      )
      refl

-- A key of 16 and a nonce of 8 bytes can be packed with the two words of a MAC, and unpack to themselves.
pub unpack_file_key-pack_file_key :
    (aes_key nonce : Bytes) (low high : ℕ)
    → length aes_key ≡ 16
    → AreBytes aes_key
    → length nonce ≡ 8
    → AreBytes nonce
    → AreWords (low ∷ high ∷ [])
    → Packed aes_key nonce (low ∷ high ∷ [])
unpack_file_key-pack_file_key aes_key nonce low high k kb n nb w =
    packed aes_key nonce (bytes_to_a32 aes_key) (bytes_to_a32 nonce) low high
      (omega (arith, length-bytes_to_a32 aes_key (omega (arith, k)), k))
      (omega (arith, length-bytes_to_a32 nonce (omega (arith, n)), n))
      (bytes_to_a32-AreWords aes_key kb) (bytes_to_a32-AreWords nonce nb) w refl refl
      (there_and_back aes_key kb (omega (arith, k))) (there_and_back nonce nb (omega (arith, n)))
