-- ===== src/Upload/Delivered.antt =====
-- What an upload of src/megabasterd_cli/core/upload_transport.py and uploader.py keeps at every moment, with
-- the renewals of its slot.
use mathlib.Core.Path.{subst}
use mega_basterd_cli.Upload.Register.{Failure, expired_again}
use mega_basterd_cli.State.Store.{File, save_state}
use mega_basterd_cli.Prelude.Slices.{slice}
use mega_basterd_cli.Prelude.{
  ℕ, String, Option, none, some, ◌≡◌, refl, sym, inl, inr, Bool-cases, Result, All-take, continue,
  err, ok, drop, All-drop,
}
use mega_basterd_cli.Json.{Json}
use mega_basterd_cli.Chunks.{Chunk, iter_chunks}
use mega_basterd_cli.Chunks.Apart.{In}
use mega_basterd_cli.State.Hex.{Bytes, AreBytes}
use mega_basterd_cli.State.Model.{Error, is_chunk_done, get_chunk_mac, snapshot_state, mac_at}
use mega_basterd_cli.Crypto.Primitives.{Primitives, IsCipher}
use mega_basterd_cli.Integrity.{piece}
use mega_basterd_cli.Upload.Session.{Attempt, Session}
use mega_basterd_cli.Upload.Post.{upload_chunk}
use mega_basterd_cli.Upload.Stepped.{upload_chunk-Stepped}
use mega_basterd_cli.Upload.Committed.{Same, Stepped}
use mega_basterd_cli.Upload.Run.{Run, request_upload_url, begin_round}
use mega_basterd_cli.Upload.Finish.{on_expiry, renew_slot, save_snapshot, renewed, stored}
use mega_basterd_cli.Upload.Recorded.{IsRecorded, Same-IsRecorded, Stepped-IsRecorded}

stored-Same :
    (r : Result Error (Unit {0}) × File) (s t : Session) → Same s t → Same s (stored r t).1
stored-Same (ok u, f) s t a = record {
  same_url = a.same_url;
  same_token = a.same_token;
  same_log = a.same_log;
  alike = a.alike;
}
stored-Same (err e, f) s t a = record {
  same_url = a.same_url;
  same_token = a.same_token;
  same_log = a.same_log;
  alike = a.alike;
}

pub save_snapshot-Same : (run : Run) (s : Session) → Same s (save_snapshot run s).1
unfolding save_snapshot snapshot_state is_chunk_done get_chunk_mac
save_snapshot-Same run s =
    stored-Same (save_state run.saving (snapshot_state s.state).0 s.saved) s
      (record s { state = (snapshot_state s.state).1 })
      (record {
        same_url = refl;
        same_token = refl;
        same_log = refl;
        alike = record { same_done = λ j. refl; same_macs = λ j. refl; same_size = refl };
      })

-- What follows a saved state: it raises, or the next round begins.
pub raised-Same :
    (e : Failure) (s : Session) (r : Result Failure (Unit {0}) × Session)
    → Same s r.1
    → Same s
        (continue {E = Failure} {B = Unit {0}}
          (λ (u : Unit {0}) (t : Session). (err e, t))
          r.0
          r.1).1
raised-Same e s (ok u, t) a = a
raised-Same e s (err f, t) a = a

pub next-Same :
    (run : Run) (s : Session) (r : Result Failure (Unit {0}) × Session)
    → Same s r.1
    → Same s
        (continue {E = Failure}
          (λ (u : Unit {0}) (t : Session). (ok tt, begin_round run t))
          r.0
          r.1).1
next-Same run s (ok u, t) a = record {
  same_url = a.same_url;
  same_token = a.same_token;
  same_log = a.same_log;
  alike = a.alike;
}
next-Same run s (err f, t) a = a

pub slice-AreBytes : (offset size : ℕ) (bs : Bytes) → AreBytes bs → AreBytes (slice offset size bs)
slice-AreBytes offset size bs h = All-take _ size (drop offset bs) (All-drop _ offset bs h)

module _ (lib : Primitives) (key nonce source : Bytes) where
  renewed-IsRecorded :
      (run : Run) (url : String) (size : ℕ) (s : Session)
      → IsRecorded lib key nonce source size s
      → IsRecorded lib key nonce source size (renewed run url s)
  unfolding get_chunk_mac mac_at
  renewed-IsRecorded run url size s r = record {
    sized = r.sized;
    held = λ c mac i e. absurd (cc);
    answered = λ token e. absurd (cc);
  }

  renew_slot-IsRecorded :
      (run : Run) (slot : Option String) (size : ℕ) (s : Session)
      → IsRecorded lib key nonce source size s
      → IsRecorded lib key nonce source size (renew_slot run slot s).1
  unfolding renew_slot
  renew_slot-IsRecorded run none size s r = record {
    sized = r.sized;
    held = λ c mac i e.
        let was = r.held c mac i e in
        record { made = was.made; answer = was.answer; there = was.there };
    answered = λ token e.
        let was = r.answered token e in
        record {
          chunk = was.chunk;
          planned = was.planned;
          final = was.final;
          filled = was.filled;
          there = was.there;
        };
  }
  renew_slot-IsRecorded run (some url) size s r =
      Same-IsRecorded lib key nonce source size (renewed run url s) _
        (next-Same run (renewed run url s) (save_snapshot run (renewed run url s))
          (save_snapshot-Same run (renewed run url s)))
        (renewed-IsRecorded run url size s r)

  on_expiry-IsRecorded :
      (run : Run) (slot : Option Json) (size : ℕ) (s : Session)
      → IsRecorded lib key nonce source size s
      → IsRecorded lib key nonce source size (on_expiry run slot s).1
  unfolding on_expiry
  on_expiry-IsRecorded run slot size s r = elim (Bool-cases s.refreshed_upload_url) [
    | inl e ↦ simp e (
        Same-IsRecorded lib key nonce source size s _
          (raised-Same expired_again s (save_snapshot run s) (save_snapshot-Same run s)) r)
    | inr e ↦ simp e (renew_slot-IsRecorded run (request_upload_url slot) size s r)
  ]

  -- Attempts at chunks of the plan, by any of the workers and in any order, and renewals of the slot
  pub data Uploads (size : ℕ) : Session → Session → Type 0 where
    here : {s : Session} → Uploads size s s
    post :
        {s t : Session} (c : Chunk) (env : Attempt)
        → env.source ≡ source
        → In c (iter_chunks size)
        → Uploads size s t
        → Uploads size s (upload_chunk lib env c key nonce t).1
    renew :
        {s t : Session} (run : Run) (slot : Option Json)
        → Uploads size s t
        → Uploads size s (on_expiry run slot t).1

-- An attempt that reads this source
pub attempt-Stepped :
    (lib : Primitives) (key nonce source : Bytes)
    → IsCipher lib
    → AreBytes source
    → (c : Chunk) (env : Attempt) (s : Session) → env.source ≡ source
    → Stepped lib key nonce source env.stopped c s (upload_chunk lib env c key nonce s)
attempt-Stepped lib key nonce source cipher b c env s same =
    subst
      (λ (x : Bytes). Stepped lib key nonce x env.stopped c s (upload_chunk lib env c key nonce s))
      same
      (upload_chunk-Stepped lib cipher key nonce env c
        (subst (λ (x : Bytes). AreBytes (piece x c)) (sym same)
          (slice-AreBytes c.offset c.size source b))
        s)

-- For a cipher and a source of bytes: a session keeps this through every sequence of attempts at
-- chunks of its plan, which all read this source, and of renewals of the slot: a chunk whose MAC is
-- recorded has that MAC and was posted encrypted to the current slot, and the completion token is
-- not empty and is the answer of the current slot to a final chunk.
pub Uploads-IsRecorded :
    (lib : Primitives) (key nonce source : Bytes)
    → IsCipher lib
    → AreBytes source
    → (size : ℕ) (s t : Session) → Uploads lib key nonce source size s t
    → IsRecorded lib key nonce source size s
    → IsRecorded lib key nonce source size t
Uploads-IsRecorded lib key nonce source cipher b size s t here r = r
Uploads-IsRecorded lib key nonce source cipher b size s t (post {t = u} c env same i us) r =
    Stepped-IsRecorded lib key nonce source size env.stopped c u
      (upload_chunk lib env c key nonce u) i
      (attempt-Stepped lib key nonce source cipher b c env u same)
      (Uploads-IsRecorded lib key nonce source cipher b size s u us r)
Uploads-IsRecorded lib key nonce source cipher b size s t (renew {t = u} run slot us) r =
    on_expiry-IsRecorded lib key nonce source run slot size u
      (Uploads-IsRecorded lib key nonce source cipher b size s u us r)
