-- ===== src/Upload/Register.antt =====
-- `_register_node` (src/megabasterd_cli/core/uploader.py).
use mega_basterd_cli.Prelude.{
  ℕ, String, Option, none, some, List, [], ◌∷◌, any, leb, is_truthy, if◌then◌else◌, Result, ok, err,
}
use mega_basterd_cli.Prelude.Options.{◌>>=◌}
use mega_basterd_cli.Json.{Json, to_list, to_dict, lookup}
use mega_basterd_cli.State.Hex.{Bytes}
use mega_basterd_cli.Crypto.Primitives.{Primitives}
use mega_basterd_cli.Crypto.Base64.{b64_url_encode}
use mega_basterd_cli.Crypto.Words.{a32_to_bytes}
use mega_basterd_cli.Crypto.Keys.{pack_file_key}
use mega_basterd_cli.Crypto.Wrap.{aes_key_wrap_encrypt}
use mega_basterd_cli.Crypto.Attributes.{encrypt_attributes}
use mega_basterd_cli.Upload.Session.{Session, Request}

-- The TransferErrors of a run, MegaError for a slot, and what the calls raise that is not caught.
pub data Failure : Type 0 where
  no_target other_version bad_slot chunk_failed expired_again no_token source_changed source_gone
        missing_mac bad_token no_handle crypto_failed io_failed :
      Failure

-- The account: its master key, what `json.dumps` prints of the attributes, and the answer of the API to
-- the new node, where it answers.
pub record Account : Type 0 where
  pub master_key : Bytes
  pub dumps : String → Bytes
  pub complete_upload : Request → Option Json

abbrev pub first_node : List Json → Option Json
first_node [] = none
first_node (j ∷ js) = some j

abbrev pub named : String → Option Json → Option Json
named k (some (Json.obj fs)) = lookup k (to_dict fs)
named k _ = none

abbrev pub elements : Option Json → Option Json
elements (some (Json.arr js)) = first_node (to_list js)
elements _ = none

abbrev pub text_of : Option Json → Option String
text_of (some (Json.str s)) = if is_truthy s then some s else none
text_of _ = none

-- `result["f"][0]["h"]`, where it is a text that is not empty
abbrev pub node_handle : Option Json → Option String
node_handle result = text_of (named "h" (elements (named "f" result)))

module _ (lib : Primitives) (account : Account) where
  unfoldable pub wrap_file_key : Bytes → Bytes → List ℕ → Option Bytes
  wrap_file_key key nonce mac_iv = do
    words ← pack_file_key key nonce mac_iv
    file_key ← a32_to_bytes words
    aes_key_wrap_encrypt lib file_key account.master_key

  abbrev pub answered_handle : Option String → Session → Result Failure String × Session
  answered_handle none s = (err no_handle, s)
  answered_handle (some h) s = (ok h, s)

  unfoldable pub take_result : Option Json → Session → Result Failure String × Session
  take_result none s = (err io_failed, s)
  take_result (some result) s = answered_handle (node_handle (some result)) s

  unfoldable pub send_request : Request → Session → Result Failure String × Session
  send_request request s =
      take_result (account.complete_upload request)
        (record s { registered = request ∷ s.registered })

  unfoldable pub register_with :
      String → Bytes → Option Bytes → Option Bytes → Session → Result Failure String × Session
  register_with target token none wrapped s = (err crypto_failed, s)
  register_with target token (some attrs) none s = (err crypto_failed, s)
  register_with target token (some attrs) (some wrapped) s =
      if any (leb 128) token
      then (err bad_token, s)
      else send_request
          (record {
            target_handle = target;
            upload_token = token;
            encrypted_attrs = b64_url_encode attrs;
            wrapped_key = b64_url_encode wrapped;
          })
          s

  unfoldable pub register_node :
      String → String → Bytes → Bytes → List ℕ → Bytes → Session → Result Failure String × Session
  register_node name target key nonce mac_iv token s =
      register_with target token (encrypt_attributes lib account.dumps name key)
        (wrap_file_key key nonce mac_iv) s
