-- ===== src/Crypto/Words.antt =====
-- Bytes as 32-bit words, big end first (src/megabasterd_cli/core/crypto.py).
use mega_basterd_cli.Prelude.{
  ℕ, ◌+◌, ◌*◌, ◌/◌, ◌%◌, ◌<◌, Option, none, some, List, [], ◌∷◌, ◌≡◌, refl, arith, All, ltb, length,
  if◌then◌else◌,
}
use mega_basterd_cli.Prelude.Options.{◌>>=◌}
use mega_basterd_cli.State.Hex.{Bytes, AreBytes}

abbrev pub word : ℕ → ℕ → ℕ → ℕ → ℕ
word a b c d = a * 16777216 + b * 65536 + c * 256 + d

-- The last word is filled up with zeros.
unfoldable pub bytes_to_a32 : Bytes → List ℕ
bytes_to_a32 [] = []
bytes_to_a32 (a ∷ []) = word a 0 0 0 ∷ []
bytes_to_a32 (a ∷ b ∷ []) = word a b 0 0 ∷ []
bytes_to_a32 (a ∷ b ∷ c ∷ []) = word a b c 0 ∷ []
bytes_to_a32 (a ∷ b ∷ c ∷ d ∷ bs) = word a b c d ∷ bytes_to_a32 bs

-- `none` is the `struct.error` of an integer that is not of 32 bits.
unfoldable pub a32_to_bytes : List ℕ → Option Bytes
a32_to_bytes [] = some []
a32_to_bytes (w ∷ ws) = do
  bs ← a32_to_bytes ws
  if ltb w 4294967296
      then some ((w / 16777216) ∷ (w / 65536 % 256) ∷ (w / 256 % 256) ∷ (w % 256) ∷ bs)
      else none

abbrev pub AreWords : List ℕ → Type 0
AreWords = All (λ (w : ℕ). w < 4294967296)

-- The bytes of words, by a function that cannot fail.
abbrev pub bytes_of_words : List ℕ → Bytes
bytes_of_words [] = []
bytes_of_words (w ∷ ws) =
    (w / 16777216) ∷ (w / 65536 % 256) ∷ (w / 256 % 256) ∷ (w % 256) ∷ bytes_of_words ws

pub a32_to_bytes-some : (ws : List ℕ) → AreWords ws → a32_to_bytes ws ≡ some (bytes_of_words ws)
unfolding a32_to_bytes
a32_to_bytes-some [] h = refl
a32_to_bytes-some (w ∷ ws) h = ground (arith, a32_to_bytes-some ws h.1)

pub bytes_of_words-AreBytes : (ws : List ℕ) → AreWords ws → AreBytes (bytes_of_words ws)
bytes_of_words-AreBytes [] h = tt
bytes_of_words-AreBytes (w ∷ ws) h =
    (omega arith, (omega arith, (omega arith, (omega arith, bytes_of_words-AreBytes ws h.1))))

pub length-bytes_of_words : (ws : List ℕ) → length (bytes_of_words ws) ≡ 4 * length ws
length-bytes_of_words [] = refl
length-bytes_of_words (w ∷ ws) = omega (arith, length-bytes_of_words ws)

pub bytes_to_a32-bytes_of_words :
    (ws : List ℕ) → AreWords ws → bytes_to_a32 (bytes_of_words ws) ≡ ws
unfolding bytes_to_a32
bytes_to_a32-bytes_of_words [] h = refl
bytes_to_a32-bytes_of_words (w ∷ ws) h = ground (arith, bytes_to_a32-bytes_of_words ws h.1)

pub bytes_to_a32-AreWords : (bs : Bytes) → AreBytes bs → AreWords (bytes_to_a32 bs)
unfolding bytes_to_a32
bytes_to_a32-AreWords [] h = tt
bytes_to_a32-AreWords (a ∷ []) h = omega arith
bytes_to_a32-AreWords (a ∷ b ∷ []) h = omega arith
bytes_to_a32-AreWords (a ∷ b ∷ c ∷ []) h = omega arith
bytes_to_a32-AreWords (a ∷ b ∷ c ∷ d ∷ bs) h = (omega arith, bytes_to_a32-AreWords bs h.1.1.1.1)

pub bytes_of_words-bytes_to_a32 :
    (bs : Bytes) → AreBytes bs → length bs % 4 ≡ 0 → bytes_of_words (bytes_to_a32 bs) ≡ bs
unfolding bytes_to_a32
bytes_of_words-bytes_to_a32 [] h e = refl
bytes_of_words-bytes_to_a32 (a ∷ []) h e = absurd (omega arith)
bytes_of_words-bytes_to_a32 (a ∷ b ∷ []) h e = absurd (omega arith)
bytes_of_words-bytes_to_a32 (a ∷ b ∷ c ∷ []) h e = absurd (omega arith)
bytes_of_words-bytes_to_a32 (a ∷ b ∷ c ∷ d ∷ bs) h e =
    ground (arith, bytes_of_words-bytes_to_a32 bs h.1.1.1.1 (omega arith))

pub length-bytes_to_a32 :
    (bs : Bytes) → length bs % 4 ≡ 0 → 4 * length (bytes_to_a32 bs) ≡ length bs
unfolding bytes_to_a32
length-bytes_to_a32 [] e = refl
length-bytes_to_a32 (a ∷ []) e = absurd (omega arith)
length-bytes_to_a32 (a ∷ b ∷ []) e = absurd (omega arith)
length-bytes_to_a32 (a ∷ b ∷ c ∷ []) e = absurd (omega arith)
length-bytes_to_a32 (a ∷ b ∷ c ∷ d ∷ bs) e = omega (arith, length-bytes_to_a32 bs (omega arith))
