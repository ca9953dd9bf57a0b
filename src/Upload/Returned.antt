-- ===== src/Upload/Returned.antt =====
-- When an upload of src/megabasterd_cli/core/uploader.py returns.
use mathlib.Core.Path.{◌∙◌}
use mega_basterd_cli.Prelude.{
  String, Bool, true, false, Option, none, some, List, [], ◌∷◌, ◌++◌, ◌≡◌, refl, ap, arith, inl,
  inr, length, any, leb, All-append, Result, ok, err, continue, ◌>>◌, if◌then◌else◌,
}
use mega_basterd_cli.Json.{Json, Dict, of_dict}
use mega_basterd_cli.Chunks.{Chunk, iter_chunks}
use mega_basterd_cli.Chunks.Apart.{In}
use mega_basterd_cli.State.Hex.{Bytes, AreBytes}
use mega_basterd_cli.State.Model.{TransferState, Error, get_chunk_mac}
use mega_basterd_cli.State.Store.{File, clear_state}
use mega_basterd_cli.Crypto.Base64.{b64_url_encode}
use mega_basterd_cli.Crypto.Primitives.{Primitives, IsCipher, zeros}
use mega_basterd_cli.Crypto.Mac.{
  padding, condense_mac-combine_chunk_macs, padded-length, padded-AreBytes,
}
use mega_basterd_cli.Crypto.Wrap.{aes_cbc_encrypt}
use mega_basterd_cli.Upload.Session.{Request, Session}
use mega_basterd_cli.Upload.Identity.{identities_match}
use mega_basterd_cli.Upload.Register.{
  Failure, Account, node_handle, take_result, send_request, register_with, register_node,
  source_changed,
}
use mega_basterd_cli.Crypto.Attributes.{encrypt_attributes, attr_prefix}
use mega_basterd_cli.Upload.Run.{Run, UploadResult, Material}
use mega_basterd_cli.Upload.Finish.{
  stored, recorded_macs, discard_state, conclude, after_register, finalize, with_macs, check_source,
  finish_with, finish,
}
use mega_basterd_cli.Upload.Recorded.{IsRecorded}
use mega_basterd_cli.Upload.Sealed.{macs_on_disk-recorded_macs, wrap_file_key-Opens}
use mega_basterd_cli.Upload.Registered.{IsReady, made, finalize-runs}

all_recorded :
    (state : TransferState) (cs : List Chunk)
    → ((c : Chunk) → In c cs → (mac : Bytes) × (get_chunk_mac state c.index ≡ some (some mac)))
    → (macs : List Bytes) × (recorded_macs state cs ≡ some (some macs))
unfolding recorded_macs
all_recorded state [] h = ([], refl)
all_recorded state (c ∷ cs) h =
    let (mac, there) = h c (inl refl) in
    let (macs, rest) = all_recorded state cs (λ d i. h d (inr i)) in
    (mac ∷ macs, rw (there, rest) refl)

-- What the API and the disk do at the end
pub record IsEnding (run : Run) (s : Session) (token : Bytes) (current : Dict) (handle : String)
    : Type 0 where
  pub ascii : any (leb 128) token ≡ false
  pub unchanged : run.current_identity ≡ some current
  pub matching :
      identities_match run.values (some (Json.obj (of_dict run.source_identity))) current ≡ true
  pub dumped : AreBytes (run.account.dumps run.upload_name)
  pub answers :
      (request : Request) → node_handle (run.account.complete_upload request) ≡ some handle
  pub cleared : (clear_state run.clearing s.saved).0 ≡ ok tt

take_result-answers :
    (lib : Primitives) (account : Account) (answer : Option Json) (handle : String) (s : Session)
    → node_handle answer ≡ some handle
    → take_result lib account answer s ≡ (ok handle, s)
unfolding take_result
take_result-answers lib account none handle s e = absurd (ground arith)
take_result-answers lib account (some result) handle s e = rw e refl

encrypt_attributes-some :
    (lib : Primitives) (account : Account) (name : String) (key : Bytes)
    → IsCipher lib
    → length key ≡ 16
    → AreBytes (account.dumps name)
    → (attrs : Bytes) × (encrypt_attributes lib account.dumps name key ≡ some attrs)
unfolding encrypt_attributes aes_cbc_encrypt
encrypt_attributes-some lib account name key cipher k h =
    let plaintext = attr_prefix ++ account.dumps name in
    let bytes : AreBytes plaintext =
      All-append _ attr_prefix (account.dumps name) (omega arith) h in
    let (sealed, c) =
      cipher key zeros (plaintext ++ padding plaintext) k refl (padded-length plaintext)
        (padded-AreBytes plaintext bytes) in
    (sealed, c.encrypts)

register_with-answers :
    (lib : Primitives) (account : Account) (target : String) (token attrs wrapped : Bytes)
    (handle : String) (s : Session)
    → any (leb 128) token ≡ false
    → ((request : Request) → node_handle (account.complete_upload request) ≡ some handle)
    → (request : Request) × (register_with lib account target token (some attrs) (some wrapped) s
        ≡ (ok handle, record s { registered = request ∷ s.registered }))
unfolding register_with send_request
register_with-answers lib account target token attrs wrapped handle s e h =
    let request : Request = record {
      target_handle = target;
      upload_token = token;
      encrypted_attrs = b64_url_encode attrs;
      wrapped_key = b64_url_encode wrapped;
    } in
    (
      request,
      simp e (
          take_result-answers lib account (account.complete_upload request) handle
            (record s { registered = request ∷ s.registered }) (h request)),
    )

conclude-returns :
    (run : Run) (handle : String) (r : Result Error (Unit {0}) × File) (s : Session)
    → r.0 ≡ ok tt
    → (continue {E = Failure} {B = UploadResult}
        (λ (u : Unit {0}) (t : Session).
          (ok (record { file_handle = handle; name = run.upload_name; size = run.file_size }), t))
        (stored r s).0
        (stored r s).1).0
      ≡ ok (record { file_handle = handle; name = run.upload_name; size = run.file_size })
conclude-returns run handle (ok u, f) s e = refl
conclude-returns run handle (err x, f) s e = absurd (ground arith)

finish-finalize :
    (lib : Primitives) (run : Run) (m : Material) (s : Session) (token : Bytes) (current : Dict)
    (handle : String) (macs : List Bytes)
    → s.completion_token ≡ some token
    → IsEnding run s token current handle
    → recorded_macs s.state run.all_chunks ≡ some (some macs)
    → finish run lib m s ≡ finalize run lib m token macs s
unfolding finish finish_with check_source with_macs
finish-finalize lib run m s token current handle macs h a e =
    ap (λ (o : Option Bytes). finish_with run lib m o s) h
    ∙ ap (λ (o : Option Dict). check_source run lib m token o s) a.unchanged
    ∙ ap
        (λ (b : Bool).
          if b
          then with_macs run lib m token (recorded_macs s.state run.all_chunks) s
          else (discard_state run >> λ t. (err source_changed, t)) s)
        a.matching
    ∙ ap (λ (o : Option (Option (List Bytes))). with_macs run lib m token o s) e

-- For a plan of the file's size, a source of as many bytes, a key and a master key of 16 and a
-- nonce of 8 bytes, and a cipher, in a session whose records are right: where every chunk of the
-- plan has a MAC and the slot has answered with an ASCII token, the source is the same as before,
-- the attributes print as bytes, the API answers with a handle and the state file can be removed,
-- the upload returns this handle.
pub finish-returns :
    (lib : Primitives) (run : Run) (m : Material) (source : Bytes)
    → IsReady lib run m source
    → (s : Session) → IsRecorded lib m.key m.nonce source run.file_size s
    → (token : Bytes) (current : Dict) (handle : String) → s.completion_token ≡ some token
    → ((c : Chunk)
        → In c (iter_chunks run.file_size)
        → (mac : Bytes) × (get_chunk_mac s.state c.index ≡ some (some mac)))
    → IsEnding run s token current handle
    → (finish run lib m s).0
      ≡ ok (record { file_handle = handle; name = run.upload_name; size = run.file_size })
unfolding after_register conclude discard_state register_node
finish-returns lib run m source ready s r token current handle has_token recorded a =
    let result : UploadResult = record {
      file_handle = handle;
      name = run.upload_name;
      size = run.file_size;
    } in
    let (macs, all) = all_recorded s.state (iter_chunks run.file_size) recorded in
    let (disk, blocks, there) =
      macs_on_disk-recorded_macs lib m.key m.nonce source s.state (iter_chunks run.file_size) macs
        all (made lib run m source ready s r result) in
    let (mac, low, high, combined, condensed, words) =
      condense_mac-combine_chunk_macs lib ready.cipher m.key ready.key_fits macs blocks in
    let (wrapped, wraps, opens) =
      wrap_file_key-Opens lib run.account m.key m.nonce low high ready.cipher ready.master_fits
        ready.key_fits ready.key_bytes ready.nonce_fits ready.nonce_bytes words in
    let (attrs, sealed) =
      encrypt_attributes-some lib run.account run.upload_name m.key ready.cipher ready.key_fits
        a.dumped in
    let (request, registers) =
      register_with-answers lib run.account run.target token attrs wrapped handle s a.ascii
        a.answers in
    let runs =
      finalize-runs lib run m source ready s r result token mac macs (low ∷ high ∷ []) combined
        condensed in
    ap (λ p. p.0)
      (finish-finalize lib run m s token current handle macs has_token a
          (ap (recorded_macs s.state) ready.planned ∙ all)
        ∙ runs)
    ∙ rw (sealed, wraps, registers)
        (conclude-returns run handle (clear_state run.clearing s.saved)
          (record s { registered = request ∷ s.registered }) a.cleared)
