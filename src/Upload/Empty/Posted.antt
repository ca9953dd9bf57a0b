-- ===== src/Upload/Empty/Posted.antt =====
-- The posts of the upload of an empty file (src/megabasterd_cli/core/uploader.py).
use mathlib.Core.Option.{some-injective}
use mathlib.Core.Path.{◌∙◌}
use mega_basterd_cli.Prelude.{
  ℕ, String, Bool, true, false, ◌&&◌, Option, none, some, List, [], ◌∷◌, ◌≡◌, refl, ap, inl, inr,
  ◌⊎◌, length, ◌==◌, Bool-cases, Result, ok, err, ok-injective, ==→≡,
}
use mega_basterd_cli.Json.{Json}
use mega_basterd_cli.State.Hex.{Bytes, AreBytes}
use mega_basterd_cli.Crypto.Primitives.{Primitives, IsCipher}
use mega_basterd_cli.Integrity.{verify_file_on_disk}
use mega_basterd_cli.Proxy.{Selected, select}
use mega_basterd_cli.Upload.Session.{Fault, Reply, lost, answered, Attempt, Session, Request}
use mega_basterd_cli.Upload.Post.{
  is_retired, is_empty, max_upload_response_bytes, read_bounded_bytes,
}
use mega_basterd_cli.Upload.Register.{Failure}
use mega_basterd_cli.Upload.Run.{Run, request_upload_url}
use mega_basterd_cli.Upload.Sealed.{Opens}
use mega_basterd_cli.Upload.Empty.{
  empty_body, empty_reply, empty_proxy, post_empty, post_at, post_again,
}

-- The attempt was answered with 200 and these bytes.
abbrev pub Answers : Attempt → Bytes → Type 0
Answers env token =
    (blocks : List Bytes) × (whole : Bool) × (env.reply ≡ answered 200 blocks whole)
    × (read_bounded_bytes max_upload_response_bytes [] blocks whole ≡ ok token)

-- One request was sent for the new node, with a token that the endpoint has answered, and the master key
-- opens its key to a MAC that an empty file has.
pub record IsRegisteredEmpty (lib : Primitives) (run : Run) (first second : Attempt) (s t : Session)
    : Type 0 where
  pub request : Request
  pub log : t.registered ≡ request ∷ s.registered
  pub same_target : request.target_handle ≡ run.target
  pub filled : is_empty request.upload_token ≡ false
  pub token : Answers first request.upload_token ⊎ Answers second request.upload_token
  pub mac_iv : List ℕ
  pub opens : Opens lib run.account.master_key run.aes_key run.nonce mac_iv request.wrapped_key
  pub verified : verify_file_on_disk lib run.aes_key run.nonce mac_iv [] (some []) ≡ some true

-- What the run is given
pub record IsKeyed (lib : Primitives) (run : Run) : Type 0 where
  pub cipher : IsCipher lib
  pub master_fits : length run.account.master_key ≡ 16
  pub key_fits : length run.aes_key ≡ 16
  pub key_bytes : AreBytes run.aes_key
  pub nonce_fits : length run.nonce ≡ 8
  pub nonce_bytes : AreBytes run.nonce

module _ (lib : Primitives) (run : Run) where
  -- A post registers nothing, and its answer is the token.
  abbrev Posted : Attempt → Session → Result Failure (Option Bytes) × Session → Type 0
  Posted env s r =
      (r.1.registered ≡ s.registered)
      × ((token : Bytes) → r.0 ≡ ok (some token) → Answers env token)

  empty_body-Posted :
      (env : Attempt) (picked : Option String) (blocks : List Bytes) (whole : Bool)
      (r : Result Fault Bytes) (s : Session)
      → env.reply ≡ answered 200 blocks whole
      → read_bounded_bytes max_upload_response_bytes [] blocks whole ≡ r
      → Posted env s (empty_body lib run env picked r s)
  unfolding empty_body
  empty_body-Posted env picked blocks whole (err e) s h read = (refl, λ token e. absurd (cc))
  empty_body-Posted env picked blocks whole (ok body) s h read = (
    refl,
    λ token e.
        let same : body ≡ token = some-injective body token (ok-injective e) in
        (blocks, whole, h, read ∙ ap ok same),
  )

  empty_reply-Posted :
      (first : Bool) (env : Attempt) (picked : Option String) (reply : Reply) (s : Session)
      → env.reply ≡ reply
      → Posted env s (empty_reply lib run first env picked reply s)
  unfolding empty_reply
  empty_reply-Posted first env picked lost s h = (refl, λ token e. absurd (cc))
  empty_reply-Posted first env picked (answered status blocks whole) s h =
      elim (Bool-cases (is_retired status && first)) [
        | inl again ↦ simp again (refl, λ token e. absurd (cc))
        | inr here ↦ elim (Bool-cases (status == 200)) [
          | inl good ↦
              simp (here, good)
                (empty_body-Posted env picked blocks whole _ s
                  (h ∙ ap (λ (n : ℕ). answered n blocks whole) (==→≡ status 200 good)) refl)
          | inr bad ↦ simp (here, bad) (refl, λ token e. absurd (cc))
        ]
      ]

  empty_proxy-Posted :
      (first : Bool) (env : Attempt) (chosen : Selected) (s : Session)
      → Posted env s (empty_proxy lib run first env chosen s)
  unfolding empty_proxy
  empty_proxy-Posted first env (err e) s = (refl, λ token e. absurd (cc))
  empty_proxy-Posted first env (ok (proxies, picked)) s =
      empty_reply-Posted first env picked env.reply s refl

  pub post_at-Posted :
      (first : Bool) (env : Attempt) (url : Option String) (s : Session)
      → Posted env s (post_at lib run first env url s)
  unfolding post_at post_empty
  post_at-Posted first env none s = (refl, λ token e. absurd (cc))
  post_at-Posted first env (some url) s =
      empty_proxy-Posted first env (select env.moment s.selector).0
        (record s { upload_url = url; selector = (select env.moment s.selector).1 })

  pub post_again-Posted :
      (first second : Attempt) (slot : Option Json) (answer : Option Bytes) (s : Session)
      → ((token : Bytes) → answer ≡ some token → Answers first token)
      → ((post_again lib run second slot answer s).1.registered ≡ s.registered)
        × ((token : Bytes)
            → (post_again lib run second slot answer s).0 ≡ ok (some token)
            → Answers first token ⊎ Answers second token)
  unfolding post_again
  post_again-Posted first second slot (some body) s h =
      (refl, λ token e. inl (h token (ok-injective e)))
  post_again-Posted first second slot none s h =
      let (log, there) = post_at-Posted false second (request_upload_url slot) s in
      (log, λ token e. inr (there token e))
