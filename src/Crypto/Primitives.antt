-- ===== src/Crypto/Primitives.antt =====
-- What src/megabasterd_cli/core/crypto.py and chunks.py take from packages: AES, PBKDF2 and HMAC, with
-- the facts about AES that the code relies on.
use mega_basterd_cli.Prelude.{ℕ, ◌%◌, Option, some, ◌≡◌, length, replicate}
use mega_basterd_cli.State.Hex.{Bytes, AreBytes}

pub record Primitives : Type 0 where
  -- `AES.new(key, MODE_CBC, iv).encrypt(data)`; `none` is the ValueError of a wrong length.
  pub cbc_encrypt : Bytes → Bytes → Bytes → Option Bytes
  pub cbc_decrypt : Bytes → Bytes → Bytes → Option Bytes
  -- AES in counter mode, by the key, the nonce and the first counter
  pub ctr_encrypt : Bytes → Bytes → ℕ → Bytes → Bytes
  pub ctr_decrypt : Bytes → Bytes → ℕ → Bytes → Bytes
  -- PBKDF2-HMAC-SHA512 to so many bytes, in so many rounds
  pub pbkdf2 : Bytes → Bytes → ℕ → ℕ → Bytes
  pub hmac_sha256 : Bytes → Bytes → Bytes

abbrev pub zeros : Bytes
zeros = replicate 16 0

-- CBC of whole blocks under a key and a start value of 16 bytes keeps the length and is undone.
pub record IsCiphering (env : Primitives) (key iv plain sealed : Bytes) : Type 0 where
  pub encrypts : env.cbc_encrypt key iv plain ≡ some sealed
  pub decrypts : env.cbc_decrypt key iv sealed ≡ some plain
  pub same_length : length sealed ≡ length plain
  pub sealed_bytes : AreBytes sealed

abbrev pub IsCipher : Primitives → Type 0
IsCipher env =
    (key iv plain : Bytes)
    → length key ≡ 16
    → length iv ≡ 16
    → length plain % 16 ≡ 0
    → AreBytes plain
    → (sealed : Bytes) × IsCiphering env key iv plain sealed

-- AES in counter mode turns bytes into as many bytes.
abbrev pub IsStream : Primitives → Type 0
IsStream env =
    (key nonce sealed : Bytes) (counter : ℕ)
    → (length (env.ctr_decrypt key nonce counter sealed) ≡ length sealed)
      × AreBytes (env.ctr_decrypt key nonce counter sealed)

-- What is encrypted in counter mode is decrypted with the same key, nonce and counter.
abbrev pub IsCounter : Primitives → Type 0
IsCounter env =
    (key nonce plain : Bytes) (counter : ℕ)
    → AreBytes plain
    → env.ctr_decrypt key nonce counter (env.ctr_encrypt key nonce counter plain) ≡ plain
