-- ===== src/Upload/Sent.antt =====
-- What `_register_node` of src/megabasterd_cli/core/uploader.py sends.
use mathlib.Core.Path.{◌∙◌}
use mega_basterd_cli.Prelude.{
  ℕ, String, Option, none, some, List, ◌∷◌, ◌≡◌, refl, arith, any, leb, Bool-cases, inl, inr,
  Result, ok, err, continue,
}
use mega_basterd_cli.Json.{Json}
use mega_basterd_cli.State.Model.{Error}
use mega_basterd_cli.State.Hex.{Bytes}
use mega_basterd_cli.State.Store.{File, clear_state}
use mega_basterd_cli.Crypto.Primitives.{Primitives}
use mega_basterd_cli.Crypto.Base64.{b64_url_encode}
use mega_basterd_cli.Upload.Session.{Request, Session}
use mega_basterd_cli.Upload.Register.{
  Failure, Account, answered_handle, take_result, node_handle, wrap_file_key, send_request,
  register_with,
}
use mega_basterd_cli.Upload.Run.{Run, UploadResult}
use mega_basterd_cli.Upload.Finish.{stored, discard_state, conclude, after_register}

-- The request that the API was sent
pub record Sends (lib : Primitives) (account : Account) (target : String) (token key nonce : Bytes)
    (mac_iv : List ℕ) (s t : Session) : Type 0 where
  pub request : Request
  pub same_target : request.target_handle ≡ target
  pub same_token : request.upload_token ≡ token
  pub wrapped : Bytes
  pub wraps : wrap_file_key lib account key nonce mac_iv ≡ some wrapped
  pub same_key : request.wrapped_key ≡ b64_url_encode wrapped
  pub log : t.registered ≡ request ∷ s.registered

answered_handle-log :
    (lib : Primitives) (account : Account) (handle : Option String) (s : Session)
    → (answered_handle lib account handle s).1.registered ≡ s.registered
answered_handle-log lib account none s = refl
answered_handle-log lib account (some h) s = refl

take_result-log :
    (lib : Primitives) (account : Account) (result : Option Json) (s : Session)
    → (take_result lib account result s).1.registered ≡ s.registered
unfolding take_result
take_result-log lib account none s = refl
take_result-log lib account (some result) s =
    answered_handle-log lib account (node_handle (some result)) s

send_request-log :
    (lib : Primitives) (account : Account) (request : Request) (s : Session)
    → (send_request lib account request s).1.registered ≡ request ∷ s.registered
unfolding send_request
send_request-log lib account request s =
    take_result-log lib account (account.complete_upload request)
      (record s { registered = request ∷ s.registered })

pub register_with-Sends :
    (lib : Primitives) (account : Account) (target : String) (token key nonce : Bytes)
    (mac_iv : List ℕ) (attrs wrapped : Option Bytes) (handle : String) (s : Session)
    → wrap_file_key lib account key nonce mac_iv ≡ wrapped
    → (register_with lib account target token attrs wrapped s).0 ≡ ok handle
    → Sends lib account target token key nonce mac_iv s
        (register_with lib account target token attrs wrapped s).1
unfolding register_with
register_with-Sends lib account target token key nonce mac_iv none wrapped handle s w e =
    absurd (ground arith)
register_with-Sends lib account target token key nonce mac_iv (some attrs) none handle s w e =
    absurd (ground arith)
register_with-Sends lib account target token key nonce mac_iv (some attrs) (some wrapped) handle s w
      e =
    elim (Bool-cases (any (leb 128) token)) [
      | inl bad ↦ absurd (ground (arith, bad, e))
      | inr fine ↦
          let request : Request = record {
            target_handle = target;
            upload_token = token;
            encrypted_attrs = b64_url_encode attrs;
            wrapped_key = b64_url_encode wrapped;
          } in
          simp fine (record {
            request = request;
            same_target = refl;
            same_token = refl;
            wrapped = wrapped;
            wraps = w;
            same_key = refl;
            log = send_request-log lib account request s;
          })
    ]

stored-log :
    (r : Result Error (Unit {0}) × File) (s : Session) → (stored r s).1.registered ≡ s.registered
stored-log (ok u, f) s = refl
stored-log (err e, f) s = refl

answer-log :
    (result : UploadResult) (r : Result Failure (Unit {0}) × Session)
    → (continue {E = Failure} {B = UploadResult}
        (λ (u : Unit {0}) (t : Session). (ok result, t))
        r.0
        r.1).1.registered
      ≡ r.1.registered
answer-log result (ok u, t) = refl
answer-log result (err e, t) = refl

pub after_register-ok :
    (run : Run) (r : Result Failure String × Session) (result : UploadResult)
    → (after_register run r).0 ≡ ok result
    → (handle : String) × (r.0 ≡ ok handle) × ((after_register run r).1.registered ≡ r.1.registered)
unfolding after_register conclude discard_state
after_register-ok run (err f, s) result e = absurd (ground arith)
after_register-ok run (ok handle, s) result e = (
  handle,
  refl,
  answer-log (record { file_handle = handle; name = run.upload_name; size = run.file_size })
        (stored (clear_state run.clearing s.saved) s)
      ∙ stored-log (clear_state run.clearing s.saved) s,
)
