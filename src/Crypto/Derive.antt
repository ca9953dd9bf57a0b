-- ===== src/Crypto/Derive.antt =====
-- Key derivation from a password and the login hash (src/megabasterd_cli/core/crypto.py).
pub mod Passes
pub mod Words
use Prim.Native.Nat.{bit_xor}
use mega_basterd_cli.Prelude.{
  ℕ, zero, suc, ◌+◌, ◌*◌, ◌/◌, ◌%◌, ◌<◌, Option, none, some, List, [], ◌∷◌, ◌≡◌, refl, arith, All,
  length,
}
use mega_basterd_cli.Prelude.Options.{◌>>=◌}
use mega_basterd_cli.Prelude.Bits.{bit_xor-lt}
use mega_basterd_cli.State.Hex.{Bytes, AreBytes}
use mega_basterd_cli.Crypto.Primitives.{Primitives, IsCipher}
use mega_basterd_cli.Crypto.Wrap.{aes_cbc_encrypt, aes_cbc_decrypt}
use mega_basterd_cli.Crypto.Base64.{Text, b64_url_encode, b64_url_decode}
use mega_basterd_cli.Crypto.Words.{bytes_to_a32, a32_to_bytes, AreWords}

unfoldable pub a32_to_str : List ℕ → Option Text
a32_to_str arr = do bytes ← a32_to_bytes arr; some (b64_url_encode bytes)

unfoldable pub str_to_a32 : Text → Option (List ℕ)
str_to_a32 s = do bytes ← b64_url_decode s; some (bytes_to_a32 bytes)

-- `password_a32[i]` where the index is in range, and 0
unfoldable pub word_at : ℕ → List ℕ → ℕ
word_at i [] = 0
word_at zero (w ∷ ws) = w
word_at (suc i) (w ∷ ws) = word_at i ws

abbrev pub key_chunk : ℕ → List ℕ → List ℕ
key_chunk j ws = word_at j ws ∷ word_at (1 + j) ws ∷ word_at (2 + j) ws ∷ word_at (3 + j) ws ∷ []

-- `h32[i] ^= word`; out of range is the IndexError, which `i % 4` does not meet.
unfoldable pub xor_at : ℕ → ℕ → List ℕ → List ℕ
xor_at i word [] = []
xor_at zero word (h ∷ hs) = bit_xor h word ∷ hs
xor_at (suc i) word (h ∷ hs) = h ∷ xor_at i word hs

-- The loop over the words of the string, from index `i`
unfoldable pub absorb : ℕ → List ℕ → List ℕ → List ℕ
absorb i [] h32 = h32
absorb i (word ∷ s32) h32 = absorb (suc i) s32 (xor_at (i % 4) word h32)

-- A loop of so many rounds, whose body may raise
unfoldable pub rounds : {A : Type 0} → ℕ → (A → Option A) → A → Option A
rounds zero step a = some a
rounds (suc n) step a = do b ← step a; rounds n step b

-- `[h32[0], h32[2]]`
unfoldable pub even_words : List ℕ → Option (List ℕ)
even_words (a ∷ b ∷ c ∷ _) = some (a ∷ c ∷ [])
even_words _ = none

abbrev pub start_key : List ℕ
start_key = 2479122403 ∷ 2108737444 ∷ 3518906241 ∷ 22203222 ∷ []

module _ (lib : Primitives) where
  unfoldable pub aes_cbc_encrypt_a32 : List ℕ → List ℕ → Option (List ℕ)
  aes_cbc_encrypt_a32 data_a32 key_a32 = do
    plain ← a32_to_bytes data_a32
    key ← a32_to_bytes key_a32
    sealed ← aes_cbc_encrypt lib plain key
    some (bytes_to_a32 sealed)

  unfoldable pub aes_cbc_decrypt_a32 : List ℕ → List ℕ → Option (List ℕ)
  aes_cbc_decrypt_a32 data_a32 key_a32 = do
    sealed ← a32_to_bytes data_a32
    key ← a32_to_bytes key_a32
    plain ← aes_cbc_decrypt lib sealed key
    some (bytes_to_a32 plain)

  -- `for j in range(0, len(password_a32), 4)`, by the rounds left
  unfoldable pub mix_password : ℕ → ℕ → List ℕ → List ℕ → Option (List ℕ)
  mix_password zero j password_a32 pkey = some pkey
  mix_password (suc n) j password_a32 pkey = do
    next ← aes_cbc_encrypt_a32 pkey (key_chunk j password_a32)
    mix_password n (4 + j) password_a32 next

  -- The password is given as its UTF-8.
  unfoldable pub derive_key_legacy : Bytes → Option (List ℕ)
  derive_key_legacy password =
      let password_a32 = bytes_to_a32 password in
      rounds 65536 (mix_password ((length password_a32 + 3) / 4) 0 password_a32) start_key

  unfoldable derive_key_v2 : Bytes → Bytes → ℕ → Bytes
  derive_key_v2 password salt iterations = lib.pbkdf2 password salt 32 iterations

  unfoldable pub stringhash : Bytes → List ℕ → Option Text
  stringhash string aeskey_a32 = do
    h32 ←
        rounds 16384 (λ h. aes_cbc_encrypt_a32 h aeskey_a32)
          (absorb 0 (bytes_to_a32 string) (0 ∷ 0 ∷ 0 ∷ 0 ∷ []))
    words ← even_words h32
    a32_to_str words
