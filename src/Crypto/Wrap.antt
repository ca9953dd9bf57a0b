-- ===== src/Crypto/Wrap.antt =====
-- Key wrapping block by block (src/megabasterd_cli/core/crypto.py).
use mega_basterd_cli.Prelude.{
  ℕ, zero, suc, ◌*◌, ◌/◌, ◌%◌, Option, none, some, [], ◌∷◌, ◌++◌, ◌≡◌, refl, ap, arith, ◌==◌,
  if◌then◌else◌, length, take, drop, length-take, All-take, length-drop, All-drop, take-append,
  drop-append, take-drop, length-append, All-append,
}
use mega_basterd_cli.Prelude.Options.{◌>>=◌}
use mega_basterd_cli.State.Hex.{Bytes, AreBytes}
use mega_basterd_cli.Crypto.Primitives.{Primitives, IsCipher, zeros}

-- `for i in range(0, len(data), 16)`, by the rounds
unfoldable pub each_block : (Bytes → Option Bytes) → ℕ → Bytes → Option Bytes
each_block f zero bs = some []
each_block f (suc n) bs = do
  block ← f (take 16 bs)
  rest ← each_block f n (drop 16 bs)
  some (block ++ rest)

module _ (env : Primitives) where
  unfoldable pub aes_cbc_encrypt : Bytes → Bytes → Option Bytes
  aes_cbc_encrypt bs key = env.cbc_encrypt key zeros bs

  unfoldable pub aes_cbc_decrypt : Bytes → Bytes → Option Bytes
  aes_cbc_decrypt bs key = env.cbc_decrypt key zeros bs

  unfoldable pub aes_key_wrap_encrypt : Bytes → Bytes → Option Bytes
  unfolding aes_cbc_encrypt
  aes_key_wrap_encrypt bs key =
      if length bs % 16 == 0
      then each_block (λ b. aes_cbc_encrypt b key) (length bs / 16) bs
      else none

  unfoldable pub aes_key_wrap_decrypt : Bytes → Bytes → Option Bytes
  aes_key_wrap_decrypt bs key =
      if length bs % 16 == 0
      then each_block (λ b. aes_cbc_decrypt b key) (length bs / 16) bs
      else none

module _ (env : Primitives) (cipher : IsCipher env) (key : Bytes) (key_fits : length key ≡ 16) where
  wrapped_blocks :
      (n : ℕ) (bs : Bytes)
      → length bs ≡ 16 * n
      → AreBytes bs
      → (sealed : Bytes) × (each_block (λ b. env.cbc_encrypt key zeros b) n bs ≡ some sealed)
        × (each_block (λ b. env.cbc_decrypt key zeros b) n sealed ≡ some bs)
        × (length sealed ≡ length bs)
        × AreBytes sealed
  unfolding each_block
  wrapped_blocks zero [] l h = ([], refl, refl, refl, tt)
  wrapped_blocks zero (b ∷ bs) l h = absurd (omega arith)
  wrapped_blocks (suc n) bs l h =
      let size : length (take 16 bs) ≡ 16 = length-take 16 bs (omega arith) in
      let (block, c) =
        cipher key zeros (take 16 bs) key_fits refl (ground (arith, size)) (All-take _ 16 bs h) in
      let (rest, sealing, opening, size_left, small) =
        wrapped_blocks n (drop 16 bs) (omega (arith, length-drop 16 bs)) (All-drop _ 16 bs h) in
      let fits : length block ≡ 16 = omega (arith, c.same_length, size) in
      (
        block ++ rest,
        rw (c.encrypts, sealing) refl,
        rw (take-append 16 block rest fits, drop-append 16 block rest fits, c.decrypts, opening)
            (ap some (take-drop 16 bs)),
        omega (arith, length-append block rest, fits, size_left, length-drop 16 bs),
        All-append _ block rest c.sealed_bytes small,
      )

  -- A key of whole blocks can be wrapped to bytes, and is unwrapped to itself.
  pub wrapped_key :
      (bs : Bytes)
      → length bs % 16 ≡ 0
      → AreBytes bs
      → (sealed : Bytes) × (aes_key_wrap_encrypt env bs key ≡ some sealed)
        × (aes_key_wrap_decrypt env sealed key ≡ some bs)
        × AreBytes sealed
  unfolding aes_key_wrap_encrypt aes_key_wrap_decrypt aes_cbc_encrypt aes_cbc_decrypt
  wrapped_key bs l h =
      let (sealed, sealing, opening, size, small) =
        wrapped_blocks (length bs / 16) bs (omega arith) h in
      (sealed, ground (arith, sealing), ground (arith, opening, ap (λ (n : ℕ). n / 16) size), small)

  -- A key of whole blocks can be wrapped, and is unwrapped to itself, where AES is a cipher.
  aes_key_wrap_decrypt-encrypt :
      (bs : Bytes)
      → length bs % 16 ≡ 0
      → AreBytes bs
      → (sealed : Bytes) × (aes_key_wrap_encrypt env bs key ≡ some sealed)
        × (aes_key_wrap_decrypt env sealed key ≡ some bs)
  aes_key_wrap_decrypt-encrypt bs l h =
      let (sealed, sealing, opening, small) = wrapped_key bs l h in (sealed, sealing, opening)
