-- ===== src/Upload/Refines.antt =====
-- The workers of src/megabasterd_cli/core/uploader.py and upload_transport.py do what Slot promises.
use mathlib.Core.Path.{subst, ap₂, fun_ext, ◌∙◌}
use mega_basterd_cli.Prelude.{
  ℕ, Bool, true, false, not, Option, none, some, ◌≡◌, refl, sym, arith, Bool-cases, inl, inr,
  String, Result,
}
use mega_basterd_cli.Json.{Json}
use mega_basterd_cli.Chunks.{Chunk, iter_chunks}
use mega_basterd_cli.Chunks.Apart.{In}
use mega_basterd_cli.State.Hex.{Bytes, AreBytes}
use mega_basterd_cli.State.Model.{TransferState, is_chunk_done}
use mega_basterd_cli.State.Marks.{Marked}
use mega_basterd_cli.Crypto.Primitives.{Primitives, IsCipher}
use mega_basterd_cli.Transfer.Alike.{Alike}
use mega_basterd_cli.Upload.Session.{Session, Fault}
use mega_basterd_cli.Upload.Post.{is_final_chunk, is_empty, upload_chunk}
use mega_basterd_cli.Upload.Committed.{Same, Stepped, untouched, posted, token_after}
use mega_basterd_cli.Upload.Register.{expired_again}
use mega_basterd_cli.Upload.Run.{Run, request_upload_url}
use mega_basterd_cli.Upload.Finish.{on_expiry, renewed, renew_slot, save_snapshot}
use mega_basterd_cli.Upload.Recorded.{IsRecorded}
use mega_basterd_cli.Upload.Delivered.{
  Uploads, here, post, renew, Uploads-IsRecorded, attempt-Stepped, save_snapshot-Same, raised-Same,
  next-Same,
}
use mega_basterd_cli.Upload.Slot.{Slot, also, Moves, accept, answer}

abbrev pub view : Session → Slot
view s = record { done = λ j. is_chunk_done s.state j; token = s.completion_token }

abbrev slot_of : (ℕ → Bool) → Option Bytes → Slot
slot_of d t = record { done = d; token = t }

Same-view : (s t : Session) → Same s t → view s ≡ view t
Same-view s t a = ap₂ slot_of (fun_ext (λ j. sym (a.alike.same_done j))) (sym a.same_token)

posted-view :
    (s t : Session) (c : Chunk) (mac : Bytes) (x : TransferState) (token : Option Bytes)
    → Marked s.state c.index mac x
    → Alike x t.state
    → t.completion_token ≡ token
    → slot_of (also c.index (view s).done) token ≡ view t
posted-view s t c mac x token marked a e =
    ap₂ slot_of (fun_ext (λ j. sym (a.same_done j ∙ marked.done_there j))) (sym e)

module _ (size : ℕ) (a : Slot) where
  posted-Moves :
      (s t : Session) (c : Chunk) (body mac : Bytes) (x : TransferState)
      → In c (iter_chunks size)
      → is_empty body ≡ not (is_final_chunk c size)
      → Marked s.state c.index mac x
      → Alike x t.state
      → t.completion_token ≡ token_after body s.completion_token
      → Moves size a (view s)
      → Moves size a (view t)
  posted-Moves s t c body mac x i fits marked alike e m =
      elim (Bool-cases (is_final_chunk c size)) [
        | inl final ↦
            let filled : is_empty body ≡ false = ground (arith, fits, final) in
            subst (Moves size a) (posted-view s t c mac x _ marked alike (e ∙ simp filled refl))
              (answer c body i final filled m)
        | inr inner ↦
            let empty : is_empty body ≡ true = ground (arith, fits, inner) in
            subst (Moves size a)
              (posted-view s t c mac x s.completion_token marked alike (e ∙ simp empty refl))
              (accept c i inner m)
      ]

  Stepped-Moves :
      (lib : Primitives) (key nonce source : Bytes) (stop : Bool) (c : Chunk) (s : Session)
      (r : Result Fault (Unit {0}) × Session)
      → In c (iter_chunks size)
      → s.state.total_size ≡ size
      → Stepped lib key nonce source stop c s r
      → Moves size a (view s)
      → Moves size a (view r.1)
  Stepped-Moves lib key nonce source stop c s r i e (untouched n h) m =
      subst (Moves size a) (Same-view s r.1 h) m
  Stepped-Moves lib key nonce source stop c s r i e
        (posted counter body mac x counted fits made marked alike url token log) m =
      posted-Moves s r.1 c body mac x i
        (subst (λ (n : ℕ). is_empty body ≡ not (is_final_chunk c n)) e fits) marked alike token m

  renew_slot-Moves :
      (run : Run) (url : Option String) (s : Session)
      → Moves size a (view s)
      → Moves size a (view (renew_slot run url s).1)
  unfolding renew_slot is_chunk_done
  renew_slot-Moves run none s m = m
  renew_slot-Moves run (some url) s m =
      subst (Moves size a)
        (Same-view (renewed run url s) _ (
          next-Same run (renewed run url s) (save_snapshot run (renewed run url s))
            (save_snapshot-Same run (renewed run url s))))
        (Moves.renew m)

  on_expiry-Moves :
      (run : Run) (slot : Option Json) (s : Session)
      → Moves size a (view s)
      → Moves size a (view (on_expiry run slot s).1)
  unfolding on_expiry
  on_expiry-Moves run slot s m = elim (Bool-cases s.refreshed_upload_url) [
    | inl e ↦ simp e (
        subst (Moves size a)
          (Same-view s _
            (raised-Same expired_again s (save_snapshot run s) (save_snapshot-Same run s)))
          m)
    | inr e ↦ simp e (renew_slot-Moves run (request_upload_url slot) s m)
  ]

-- For a cipher and a source of bytes: every sequence of attempts at chunks of the plan, which all
-- read this source, and of renewals of the slot, from a session whose records are right, is a
-- sequence of moves that a slot promises, seen as what is done and as the token.
pub Uploads-Moves :
    (lib : Primitives) (key nonce source : Bytes)
    → IsCipher lib
    → AreBytes source
    → (size : ℕ) (s t : Session) → IsRecorded lib key nonce source size s
    → Uploads lib key nonce source size s t
    → Moves size (view s) (view t)
Uploads-Moves lib key nonce source cipher b size s t r here = Moves.here
Uploads-Moves lib key nonce source cipher b size s t r (post {t = u} c env same i us) =
    Stepped-Moves size (view s) lib key nonce source env.stopped c u
      (upload_chunk lib env c key nonce u) i
      (Uploads-IsRecorded lib key nonce source cipher b size s u us r).sized
      (attempt-Stepped lib key nonce source cipher b c env u same)
      (Uploads-Moves lib key nonce source cipher b size s u r us)
Uploads-Moves lib key nonce source cipher b size s t r (renew {t = u} run slot us) =
    on_expiry-Moves size (view s) run slot u
      (Uploads-Moves lib key nonce source cipher b size s u r us)
