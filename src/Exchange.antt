-- ===== src/Exchange.antt =====
-- The key that `NodeOperations.decrypt_node` (src/megabasterd_cli/core/nodes.py) reads of a file's node, as
-- the other end of an upload.
pub mod Served
mod Examples
use mega_basterd_cli.Prelude.{
  ℕ, Bool, Option, none, some, List, [], ◌∷◌, length, take, leb, ◌==◌, if◌then◌else◌,
}
use mega_basterd_cli.Prelude.Options.{◌>>=◌}
use mega_basterd_cli.State.Hex.{Bytes}
use mega_basterd_cli.Crypto.Primitives.{Primitives}
use mega_basterd_cli.Crypto.Base64.{Text, b64_url_decode}
use mega_basterd_cli.Crypto.Words.{bytes_to_a32}
use mega_basterd_cli.Crypto.Wrap.{aes_key_wrap_decrypt}
use mega_basterd_cli.Crypto.Keys.{unpack_file_key}

-- What is behind the first colon, if there is one
unfoldable pub after_colon : Text → Option Text
after_colon [] = none
after_colon (c ∷ cs) = let rest = after_colon cs in if c == b':' then some cs else rest

abbrev pub wrapped_part : Text → Option Text → Text
wrapped_part encoded_key none = encoded_key
wrapped_part encoded_key (some wrapped) = wrapped

module _ (lib : Primitives) where
  unfoldable pub decrypt_node_key : Text → Bytes → Option Bytes
  decrypt_node_key encoded_key master_key = do
    wrapped_bytes ← b64_url_decode (wrapped_part encoded_key (after_colon encoded_key))
    aes_key_wrap_decrypt lib wrapped_bytes master_key

  -- `unpack_file_key(bytes_to_a32(decrypted_key[:32]))`, where the key is of 32 bytes and more
  unfoldable pub file_keys : Bytes → Option (Bytes × Bytes × List ℕ)
  file_keys decrypted_key =
      if leb 32 (length decrypted_key)
      then unpack_file_key (bytes_to_a32 (take 32 decrypted_key))
      else none

  unfoldable pub node_file_keys : Text → Bytes → Option (Bytes × Bytes × List ℕ)
  node_file_keys encoded_key master_key = do
    decrypted_key ← decrypt_node_key encoded_key master_key
    file_keys decrypted_key
