-- ===== src/Crypto/PasswordLink.antt =====
-- Password-protected links (`encrypt_password_link` and `decrypt_password_link` of
-- src/megabasterd_cli/core/crypto.py). `none` is a ValueError; the password is given by its UTF-8 bytes.
pub mod Shared
use mega_basterd_cli.Prelude.Slices.{slice}
use mega_basterd_cli.Prelude.{
  ℕ, zero, suc, ◌+◌, Bool, true, false, ◌&&◌, ◌||◌, not, Option, none, some, List, [], ◌∷◌, ◌++◌,
  ◌≡◌, ◌⊎◌, inl, inr, refl, sym, ap, arith, length, take, drop, ltb, ◌==◌, if◌then◌else◌,
  length-append, take-append, drop-append,
}
use mega_basterd_cli.Prelude.Options.{◌>>=◌}
use mega_basterd_cli.State.Hex.{Bytes, AreBytes}
use mega_basterd_cli.Crypto.Primitives.{Primitives}
use mega_basterd_cli.Crypto.Base64.{Text, b64_url_encode, b64_url_decode, b64_url_decode-encode}
use mega_basterd_cli.Crypto.Mac.{xor_bytes}

-- `hmac.compare_digest`
unfoldable pub same_bytes : Bytes → Bytes → Bool
same_bytes [] [] = true
same_bytes (a ∷ s) (b ∷ t) = a == b && same_bytes s t
same_bytes _ _ = false

-- The length of the key of a file, and of anything else
abbrev pub key_length : ℕ → ℕ
key_length node_type = if node_type == 0 then 32 else 16

module _ (lib : Primitives) where
  unfoldable pub derive_password_link_keys : Bytes → Bytes → ℕ → Option (Bytes × Bytes)
  derive_password_link_keys password salt algo =
      if algo == 1 || algo == 2
      then some (
        take 32 (lib.pbkdf2 password salt 64 100000),
        drop 32 (lib.pbkdf2 password salt 64 100000),
      )
      else none

  -- The parts of the blob, behind its two first bytes
  unfoldable pub open_key :
      ℕ → Bytes → Bytes → Bytes → Bytes → Bytes × Bytes → Option (ℕ × Bytes × Bytes)
  open_key node_type public_handle encrypted_key expected_hmac body (aes_xor_key, hmac_key) =
      if same_bytes (lib.hmac_sha256 hmac_key body) expected_hmac
      then (xor_bytes encrypted_key (take (key_length node_type) aes_xor_key) >>= λ plain_key.
          some (node_type, public_handle, plain_key))
      else none

  unfoldable pub open_blob : Bytes → Bytes → Option (ℕ × Bytes × Bytes)
  open_blob password (algo ∷ node_type ∷ rest) = do
    keys ← derive_password_link_keys password (slice 6 32 rest) algo
    open_key node_type (take 6 rest) (slice 38 (key_length node_type) rest)
        (slice (38 + key_length node_type) 32 rest)
        (algo ∷ node_type ∷ take (38 + key_length node_type) rest) keys
  open_blob password _ = none

  unfoldable pub decrypt_password_link : Text → Bytes → Option (ℕ × Bytes × Bytes)
  decrypt_password_link encoded_blob password = do
    raw ← b64_url_decode encoded_blob
    if ltb (length raw) 88 then none else open_blob password raw

  -- `b64_url_encode(body + mac)`
  unfoldable pub print_blob : Bytes → Bytes → Text
  print_blob hmac_key body = b64_url_encode (body ++ lib.hmac_sha256 hmac_key body)

  -- The body and its MAC, under the derived keys
  unfoldable pub seal_key : ℕ → ℕ → Bytes → Bytes → Bytes → Bytes × Bytes → Option Text
  seal_key algo node_type public_handle salt raw_key (aes_xor_key, hmac_key) = do
    enc_key ← xor_bytes raw_key (take (key_length node_type) aes_xor_key)
    some (print_blob hmac_key (algo ∷ node_type ∷ (public_handle ++ (salt ++ enc_key))))

  -- `salt` is what `os.urandom` gives.
  unfoldable pub encrypt_password_link : ℕ → Bytes → Bytes → Bytes → ℕ → Bytes → Option Text
  encrypt_password_link node_type public_handle raw_key password algo salt =
      if (node_type == 0 || node_type == 1)
        && length raw_key == key_length node_type
        && length public_handle == 6
      then (derive_password_link_keys password salt algo
          >>= seal_key algo node_type public_handle salt raw_key)
      else none
