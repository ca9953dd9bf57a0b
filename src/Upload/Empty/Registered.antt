-- ===== src/Upload/Empty/Registered.antt =====
-- What the upload of an empty file (src/megabasterd_cli/core/uploader.py) has registered.
use mathlib.Core.Option.{some-injective}
use mathlib.Core.Path.{subst, ◌∙◌}
use mega_basterd_cli.Prelude.Options
use mega_basterd_cli.Prelude.{
  ℕ, String, true, false, ◌&&◌, Option, none, some, List, [], ◌∷◌, ◌≡◌, refl, sym, ap, arith, inl,
  inr, ◌⊎◌, Bool-cases, ok, ◌>>=◌, continue-ok,
}
use mega_basterd_cli.Json.{Json, Dict, pos, of_dict, lookup}
use mega_basterd_cli.State.Hex.{Bytes}
use mega_basterd_cli.Crypto.Primitives.{Primitives}
use mega_basterd_cli.Crypto.Base64.{b64_url_encode}
use mega_basterd_cli.Crypto.Mac.{combine_chunk_macs, condense_mac, condense_mac-combine_chunk_macs}
use mega_basterd_cli.Integrity.{macs_on_disk, compare_macs, same_mac, verify_file_on_disk}
use mega_basterd_cli.Upload.Session.{Attempt, Session, Request}
use mega_basterd_cli.Upload.Post.{is_empty}
use mega_basterd_cli.Upload.Identity.{identities_match}
use mega_basterd_cli.Upload.Register.{wrap_file_key, register_node}
use mega_basterd_cli.Crypto.Attributes.{encrypt_attributes}
use mega_basterd_cli.Upload.Run.{Run, UploadResult, request_upload_url}
use mega_basterd_cli.Upload.Sealed.{Opens, wrap_file_key-Opens}
use mega_basterd_cli.Upload.Sent.{register_with-Sends}
use mega_basterd_cli.Upload.Empty.{
  post_at, post_again, register_empty, check_empty, with_token, empty_result, upload_empty_file,
}
use mega_basterd_cli.Upload.Empty.Posted.{
  Answers, IsRegisteredEmpty, IsKeyed, post_at-Posted, post_again-Posted,
}

module _ (lib : Primitives) (run : Run) (keyed : IsKeyed lib run) (first second : Attempt)
    (handle : String) where
  register_empty-IsRegisteredEmpty :
      (token : Bytes) (s : Session)
      → is_empty token ≡ false
      → Answers first token ⊎ Answers second token
      → (register_empty lib run token
          (Options.◌>>=◌ (combine_chunk_macs lib [] run.aes_key) condense_mac)
          s).0
        ≡ ok handle
      → IsRegisteredEmpty lib run first second s
          (register_empty lib run token
            (Options.◌>>=◌ (combine_chunk_macs lib [] run.aes_key) condense_mac)
            s).1
  unfolding register_empty register_node verify_file_on_disk macs_on_disk compare_macs same_mac
  register_empty-IsRegisteredEmpty token s filled there e =
      let (mac, low, high, combined, condensed, words) =
        condense_mac-combine_chunk_macs lib keyed.cipher run.aes_key keyed.key_fits [] tt in
      let (wrapped, wraps, opens) =
        wrap_file_key-Opens lib run.account run.aes_key run.nonce low high keyed.cipher
          keyed.master_fits keyed.key_fits keyed.key_bytes keyed.nonce_fits keyed.nonce_bytes
          words in
      let made : Options.◌>>=◌ (combine_chunk_macs lib [] run.aes_key) condense_mac
          ≡ some (low ∷ high ∷ []) =
        ap (λ (o : Option Bytes). Options.◌>>=◌ o condense_mac) combined ∙ condensed in
      let runs = ap (λ (o : Option (List ℕ)). register_empty lib run token o s) made in
      let sends =
        register_with-Sends lib run.account run.target token run.aes_key run.nonce (low ∷ high ∷ [])
          (encrypt_attributes lib run.account.dumps run.upload_name run.aes_key)
          (wrap_file_key lib run.account run.aes_key run.nonce (low ∷ high ∷ [])) handle s refl
          (sym (ap (λ p. p.0) runs) ∙ e) in
      record {
        request = sends.request;
        log = ap (λ p. p.1.registered) runs ∙ sends.log;
        same_target = sends.same_target;
        filled = ap is_empty sends.same_token ∙ filled;
        token =
            subst (λ (b : Bytes). Answers first b ⊎ Answers second b) (sym sends.same_token) there;
        mac_iv = low ∷ high ∷ [];
        opens =
            subst (Opens lib run.account.master_key run.aes_key run.nonce (low ∷ high ∷ []))
              (sym (
                sends.same_key
                ∙ ap b64_url_encode
                    (some-injective sends.wrapped wrapped (sym sends.wraps ∙ wraps))))
              opens;
        verified = rw (combined, condensed) (ground arith);
      }

  check_empty-IsRegisteredEmpty :
      (token : Bytes) (current : Option Dict) (s : Session)
      → is_empty token ≡ false
      → Answers first token ⊎ Answers second token
      → (check_empty lib run token current s).0 ≡ ok handle
      → IsRegisteredEmpty lib run first second s (check_empty lib run token current s).1
  unfolding check_empty
  check_empty-IsRegisteredEmpty token none s filled there e = absurd (ground arith)
  check_empty-IsRegisteredEmpty token (some current) s filled there e =
      elim (Bool-cases (
        run.values.equals (lookup "size" current) (some (Json.int (pos 0)))
        && identities_match run.values (some (Json.obj (of_dict run.source_identity))) current)) [
          | inl same ↦ simp same (register_empty-IsRegisteredEmpty token s filled there (cc))
          | inr other ↦ absurd (ground (arith, other, e))
        ]

  with_token-IsRegisteredEmpty :
      (token : Option Bytes) (s : Session)
      → ((b : Bytes) → token ≡ some b → Answers first b ⊎ Answers second b)
      → (with_token lib run token s).0 ≡ ok handle
      → IsRegisteredEmpty lib run first second s (with_token lib run token s).1
  unfolding with_token
  with_token-IsRegisteredEmpty none s there e = absurd (ground arith)
  with_token-IsRegisteredEmpty (some token) s there e = elim (Bool-cases (is_empty token)) [
    | inl empty ↦ absurd (ground (arith, empty, e))
    | inr filled ↦
        simp filled (
          check_empty-IsRegisteredEmpty token run.current_identity s filled (there token refl) (cc))
  ]

registered-from :
    (lib : Primitives) (run : Run) (first second : Attempt) (s t u : Session)
    → t.registered ≡ s.registered
    → IsRegisteredEmpty lib run first second t u
    → IsRegisteredEmpty lib run first second s u
registered-from lib run first second s t u e r = record {
  request = r.request;
  log = r.log ∙ ap (λ (l : List Request). r.request ∷ l) e;
  same_target = r.same_target;
  filled = r.filled;
  token = r.token;
  mac_iv = r.mac_iv;
  opens = r.opens;
  verified = r.verified;
}

module _ (lib : Primitives) (run : Run) (keyed : IsKeyed lib run) (first second : Attempt)
    (result : UploadResult) where
  after_token-IsRegisteredEmpty :
      (token : Option Bytes) (s : Session)
      → ((b : Bytes) → token ≡ some b → Answers first b ⊎ Answers second b)
      → ((with_token lib run token >>= empty_result lib run) s).0 ≡ ok result
      → IsRegisteredEmpty lib run first second s
          ((with_token lib run token >>= empty_result lib run) s).1
  after_token-IsRegisteredEmpty token s there e =
      let (handle, returns, runs) =
        continue-ok (empty_result lib run) (with_token lib run token s) result e in
      subst (IsRegisteredEmpty lib run first second s) (sym (ap (λ p. p.1) runs))
        (with_token-IsRegisteredEmpty lib run keyed first second handle token s there returns)

  after_first-IsRegisteredEmpty :
      (slot : Option Json) (answer : Option Bytes) (s : Session)
      → ((b : Bytes) → answer ≡ some b → Answers first b)
      → ((post_again lib run second slot answer >>= λ token.
            with_token lib run token >>= empty_result lib run)
          s).0
        ≡ ok result
      → IsRegisteredEmpty lib run first second s
          ((post_again lib run second slot answer >>= λ token.
              with_token lib run token >>= empty_result lib run)
            s).1
  after_first-IsRegisteredEmpty slot answer s h e =
      let r = post_again lib run second slot answer s in
      let (log, there) = post_again-Posted lib run first second slot answer s h in
      let (token, returns, runs) =
        continue-ok (λ token. with_token lib run token >>= empty_result lib run) r result e in
      subst (IsRegisteredEmpty lib run first second s) (sym (ap (λ p. p.1) runs)) (
        registered-from lib run first second s r.1 _ log (
          after_token-IsRegisteredEmpty token r.1 (λ b same. there b (returns ∙ ap ok same))
            (sym (ap (λ p. p.0) runs) ∙ e)))

-- For a key and a master key of 16 and a nonce of 8 bytes and a cipher: an upload of an empty file
-- that returns has sent one registration, whose token is not empty and was answered with 200 to one
-- of its two posts, and whose key the master key opens to the key and the nonce of the run and to a
-- MAC that an empty file is verified against.
pub upload_empty_file-IsRegisteredEmpty :
    (lib : Primitives) (run : Run)
    → IsKeyed lib run
    → (first second : Attempt) (slot : Option Json) (s : Session) (result : UploadResult)
    → (upload_empty_file lib run first slot second s).0 ≡ ok result
    → IsRegisteredEmpty lib run first second s (upload_empty_file lib run first slot second s).1
unfolding upload_empty_file
upload_empty_file-IsRegisteredEmpty lib run keyed first second slot s result e =
    let r = post_at lib run true first (request_upload_url run.slot) s in
    let (log, there) = post_at-Posted lib run true first (request_upload_url run.slot) s in
    let (answer, returns, runs) =
      continue-ok
        (λ answer. post_again lib run second slot answer >>= λ token.
          with_token lib run token >>= empty_result lib run)
        r result e in
    subst (IsRegisteredEmpty lib run first second s) (sym (ap (λ p. p.1) runs)) (
      registered-from lib run first second s r.1 _ log (
        after_first-IsRegisteredEmpty lib run keyed first second result slot answer r.1
          (λ b same. there b (returns ∙ ap ok same)) (sym (ap (λ p. p.0) runs) ∙ e)))
