-- ===== src/Exchange/Served.antt =====
-- A file that was uploaded (src/megabasterd_cli/core/uploader.py) is downloaded
-- (src/megabasterd_cli/core/downloader.py) with the key of its node.
use mathlib.Core.Option.{some-injective}
use mathlib.Core.Path.{subst, ◌∙◌}
use mega_basterd_cli.Prelude.Slices.{take-all}
use mega_basterd_cli.Prelude.{
  ℕ, true, false, some, List, [], ◌∷◌, ◌++◌, ◌≡◌, refl, sym, ap, All, ◌==◌, ok, String, none, ◌⊎◌,
  inl, inr, Bool-cases, arith,
}
use mega_basterd_cli.Chunks.{Chunk, iter_chunks}
use mega_basterd_cli.Chunks.Apart.{In}
use mega_basterd_cli.State.Hex.{Bytes}
use mega_basterd_cli.State.Store.{File, load_state}
use mega_basterd_cli.Crypto.Primitives.{Primitives, IsStream, IsCounter}
use mega_basterd_cli.Crypto.Base64.{Text}
use mega_basterd_cli.Integrity.{piece, verify_file_on_disk}
use mega_basterd_cli.Transfer.Session.{Attempt, Session as DownloadSession}
use mega_basterd_cli.Transfer.Answered.{Accepted}
use mega_basterd_cli.Transfer.Copied.{IsHonest, ctr_offset_to_counter-some}
use mega_basterd_cli.Transfer.Round.{Round, Round-map}
use mega_basterd_cli.Transfer.Run.{
  Run as DownloadRun, finish as finish_download, prepare, save_snapshot, discard_state,
}
use mega_basterd_cli.Transfer.Run.Fresh.{StartsFresh}
use mega_basterd_cli.Transfer.Run.Whole.{all_returned, fresh_download-returns}
use mega_basterd_cli.Upload.Session.{Session as UploadSession, Delivery, Request}
use mega_basterd_cli.Upload.Run.{
  Run as UploadRun, Material, UploadResult, start_fresh, start, start_loaded, resume_or_fresh,
}
use mega_basterd_cli.Upload.Finish.{finish as finish_upload}
use mega_basterd_cli.Upload.Recorded.{Sent, IsAt}
use mega_basterd_cli.Upload.Delivered.{Uploads}
use mega_basterd_cli.Upload.Sealed.{Opens}
use mega_basterd_cli.Upload.Registered.{IsReady}
use mega_basterd_cli.Upload.Fresh.{fresh_upload-IsRegistered}
use mega_basterd_cli.Exchange.{after_colon, decrypt_node_key, file_keys, node_file_keys}

-- What the endpoint answers is what the slot was sent for the chunk's place.
abbrev pub Serves : String → List Delivery → ℕ → Attempt → Chunk → Type 0
Serves url log size env c =
    (encrypted : Bytes) (d : Delivery)
    → Accepted env c size encrypted
    → Sent d log
    → d.url ≡ url
    → d.offset ≡ c.offset
    → encrypted ≡ d.encrypted

after_colon-owner :
    (owner wrapped : Text)
    → All (λ (c : ℕ). (c == b':') ≡ false) owner
    → after_colon (owner ++ b':' ∷ wrapped) ≡ some wrapped
unfolding after_colon
after_colon-owner [] wrapped h = refl
after_colon-owner (c ∷ owner) wrapped (other, h) =
    rw (other, after_colon-owner owner wrapped h) refl

node_file_keys-Opens :
    (lib : Primitives) (master_key key nonce : Bytes) (mac_iv : List ℕ) (owner wrapped : Text)
    → All (λ (c : ℕ). (c == b':') ≡ false) owner
    → Opens lib master_key key nonce mac_iv wrapped
    → node_file_keys lib (owner ++ b':' ∷ wrapped) master_key ≡ some (key, nonce, mac_iv)
unfolding node_file_keys decrypt_node_key file_keys
node_file_keys-Opens lib master_key key nonce mac_iv owner wrapped h o =
    rw
      (
        after_colon-owner owner wrapped h,
        o.decoded,
        o.unwrapped,
        o.sized,
        take-all 32 o.file_key o.sized,
        o.unpacked,
      )
      refl

-- What was sent for every chunk is what an honest endpoint has.
Serves-IsHonest :
    (lib : Primitives) (key nonce source : Bytes) (url : String) (log : List Delivery) (size : ℕ)
    → ((c : Chunk)
        → In c (iter_chunks size)
        → (answer : Bytes) × IsAt lib key nonce source url log c answer)
    → (env : Attempt) (c : Chunk) → In c (iter_chunks size)
    → Serves url log size env c
    → IsHonest lib key nonce source env c size
Serves-IsHonest lib key nonce source url log size posted env c i serves encrypted accepted =
    let (answer, at) = posted c i in
    serves encrypted _ accepted at.sent refl refl
    ∙ ap (λ (n : ℕ). lib.ctr_encrypt key nonce n (piece source c))
        (ctr_offset_to_counter-some lib key nonce source c.offset at.counter at.counted)

abbrev Keys : Type 0
Keys = Bytes × Bytes × List ℕ

-- The slot was sent every chunk under these keys, and the source is verified against them.
abbrev Holds : Primitives → Bytes → String → List Delivery → Keys → ℕ → Type 0
Holds lib source url log (key, nonce, mac_iv) size =
    ((c : Chunk)
      → In c (iter_chunks size)
      → (answer : Bytes) × IsAt lib key nonce source url log c answer)
    × (verify_file_on_disk lib key nonce mac_iv (iter_chunks size) (some source) ≡ some true)

first_of : {A : Type 0} (a b : A) (xs ys : List A) → ◌≡◌ {A = List A} (a ∷ xs) (b ∷ ys) → a ≡ b
first_of a b xs ys e = cc

-- Resuming is off, or there is no state that a load answers.
abbrev pub UploadsFresh : UploadRun → File → Type 0
UploadsFresh up f = (up.auto_resume ≡ false) ⊎ ((load_state up.loading f).0 ≡ ok none)

UploadsFresh-start :
    (up : UploadRun) (f : File) (x : Material × UploadSession)
    → UploadsFresh up f
    → (start up f).0 ≡ ok x
    → (g : File) × ((start_fresh up g).0 ≡ ok x)
unfolding start start_loaded resume_or_fresh
UploadsFresh-start up f x (inl off) e = (f, ground (arith, off, e))
UploadsFresh-start up f x (inr nothing) e = elim (Bool-cases up.auto_resume) [
  | inl on ↦ ((load_state up.loading f).1, ground (arith, on, nothing, e))
  | inr off ↦ (f, ground (arith, off, e))
]

-- An upload starts with resuming off, or without a resume state that the load answers, with a plan of the file's size, a source of as many bytes, a
-- key and a master key of 16 and a nonce of 8 bytes, and a cipher with its counter mode. It attempts
-- chunks and renews its slot in any order, and returns with one registration sent. A download has the
-- keys that `decrypt_node` reads of the registered key behind the owner's handle, which has no colon. It
-- starts so too, with the uploaded size and its plan, from an endpoint whose accepted
-- answers are what the slot was sent, and each chunk of the plan has an attempt that is not stopped and
-- returns, among others. Where the state file can be saved and removed, the download returns, also with
-- the check of integrity on, and the destination is the source of the upload.
pub uploaded_file-downloads :
    (lib : Primitives) (source : Bytes) (up : UploadRun) (m : Material) (begun : UploadSession)
    (f : File)
    → UploadsFresh up f
    → (start up f).0 ≡ ok (m, begun)
    → IsReady lib up m source
    → (posted : UploadSession) → Uploads lib m.key m.nonce source up.file_size begun posted
    → (result : UploadResult) → (finish_upload up lib m posted).0 ≡ ok result
    → (request : Request)
    → (finish_upload up lib m posted).1.registered ≡ request ∷ posted.registered
    → IsStream lib
    → IsCounter lib
    → (owner : Text) → All (λ (c : ℕ). (c == b':') ≡ false) owner
    → (down : DownloadRun)
    → node_file_keys lib (owner ++ b':' ∷ request.wrapped_key) up.account.master_key
      ≡ some (down.target.aes_key, down.target.nonce, down.mac_iv)
    → down.target.file_size ≡ up.file_size
    → down.target.all_chunks ≡ iter_chunks down.target.file_size
    → (g : File) (s t : DownloadSession) (cs : List Chunk) → StartsFresh down g
    → prepare down g ≡ ok s
    → Round lib down.target.aes_key down.target.nonce
        (Serves posted.upload_url posted.delivered down.target.file_size)
        down.target.file_size
        cs
        s
        t
    → ((c : Chunk) → In c (iter_chunks down.target.file_size) → In c cs)
    → (save_snapshot down t).0 ≡ ok tt
    → (discard_state down (save_snapshot down t).1).0 ≡ ok tt
    → ((finish_download down lib (all_returned cs) t).0
        ≡ ok (record { size = down.target.file_size; integrity_ok = true }))
      × (t.file ≡ source)
uploaded_file-downloads lib source up m begun f new started ready posted us result returned request
      log stream undone owner named down keys sized plan g s t cs off prepared round all saves
      clears =
    let (f', started_fresh) = UploadsFresh-start up f (m, begun) new started in
    let right =
      fresh_upload-IsRegistered lib up source m begun f' started_fresh ready posted us result
        returned in
    let same_request : right.request ≡ request = first_of _ _ _ _ (sym right.log ∙ log) in
    let opens =
      subst
        (λ (r : Request). Opens lib up.account.master_key m.key m.nonce right.mac_iv r.wrapped_key)
        same_request right.opens in
    let same_keys : (m.key, m.nonce, right.mac_iv)
        ≡ (down.target.aes_key, down.target.nonce, down.mac_iv) =
      some-injective _ _ (
        sym (
          node_file_keys-Opens lib up.account.master_key m.key m.nonce right.mac_iv owner
            request.wrapped_key named opens)
        ∙ keys) in
    let size = down.target.file_size in
    let key = down.target.aes_key in
    let nonce = down.target.nonce in
    let url = posted.upload_url in
    let (there, verified) =
      subst (Holds lib source url posted.delivered (key, nonce, down.mac_iv)) (sym sized) (
        subst (λ (k : Keys). Holds lib source url posted.delivered k up.file_size) same_keys
          (right.posted, right.verified)) in
    fresh_download-returns down lib source ready.cipher stream undone ready.source_bytes
      (ready.source_fits ∙ sym sized) g s t cs off plan prepared
      (Round-map lib key nonce (Serves url posted.delivered size)
        (λ env c. IsHonest lib key nonce source env c size) size cs s t
        (Serves-IsHonest lib key nonce source url posted.delivered size there) round)
      all
      (λ on.
        ap (λ (ds : List Chunk). verify_file_on_disk lib key nonce down.mac_iv ds (some source))
          plan
        ∙ verified)
      saves clears
