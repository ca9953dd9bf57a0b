-- ===== src/Upload/Committed.antt =====
-- What a chunk that was posted (src/megabasterd_cli/core/upload_transport.py) does to the state and the token.
use mathlib.Core.Path.{◌∙◌}
use mega_basterd_cli.Prelude.{
  true, ℕ, ◌+◌, ◌%◌, Bool, not, ◌||◌, ◌&&◌, Option, some, ◌∷◌, ◌≡◌, refl, sym, ap, arith, ◌==◌,
  if◌then◌else◌, Result, ok, err, Bool-cases, inl, inr,
}
use mega_basterd_cli.Chunks.{Chunk}
use mega_basterd_cli.State.Hex.{Bytes}
use mega_basterd_cli.State.Model.{
  TransferState, Error, is_chunk_done, get_chunk_mac, mark_chunk_done, snapshot_state,
}
use mega_basterd_cli.State.Store.{File, save_state}
use mega_basterd_cli.State.Marks.{Marked}
use mega_basterd_cli.Crypto.Primitives.{Primitives}
use mega_basterd_cli.Crypto.Mac.{chunk_mac}
use mega_basterd_cli.Integrity.{piece}
use mega_basterd_cli.Proxy.{ProxySelector}
use mega_basterd_cli.Transfer.Fetch.{ctr_offset_to_counter}
use mega_basterd_cli.Transfer.Alike.{Alike, Alike-refl}
use mega_basterd_cli.Upload.Session.{Fault, Attempt, Delivery, Session}
use mega_basterd_cli.Upload.Post.{
  is_final_chunk, is_empty, check_body, lacks_token, record_token, saved_session, save_periodically,
  commit_chunk,
}

-- The token after an answer with this body
abbrev pub token_after : Bytes → Option Bytes → Option Bytes
token_after body token = if not (is_empty body) && lacks_token token then some body else token

-- What the endpoint is sent for a chunk, with its answer
abbrev pub delivery : Session → Chunk → Bytes → Bytes → Delivery
delivery s c encrypted token = record {
  url = s.upload_url;
  offset = c.offset;
  encrypted = encrypted;
  token = token;
}

-- The same slot, token and chunks
pub record Same (s t : Session) : Type 0 where
  pub same_url : t.upload_url ≡ s.upload_url
  pub same_token : t.completion_token ≡ s.completion_token
  pub same_log : t.delivered ≡ s.delivered
  pub alike : Alike s.state t.state

pub Same-refl : (s : Session) → Same s s
Same-refl s = record {
  same_url = refl;
  same_token = refl;
  same_log = refl;
  alike = Alike-refl s.state;
}

-- Nothing happened to the slot, because the worker was stopped or has raised, or the endpoint has
-- accepted the chunk: then it is marked with the MAC of the bytes that were encrypted, and a token is
-- kept exactly of the final chunk.
pub data Stepped (lib : Primitives) (key nonce source : Bytes) (stop : Bool) (c : Chunk)
    (s : Session) (r : Result Fault (Unit {0}) × Session) : Type 0 where
  untouched : (r.0 ≡ ok tt → stop ≡ true) → Same s r.1 → Stepped lib key nonce source stop c s r
  posted :
      (counter : ℕ) (body mac : Bytes) (x : TransferState)
      → ctr_offset_to_counter c.offset ≡ some counter
      → is_empty body ≡ not (is_final_chunk c s.state.total_size)
      → chunk_mac lib (piece source c) key nonce ≡ some mac
      → Marked s.state c.index mac x
      → Alike x r.1.state
      → r.1.upload_url ≡ s.upload_url
      → r.1.completion_token ≡ token_after body s.completion_token
      → r.1.delivered
        ≡ delivery s c (lib.ctr_encrypt key nonce counter (piece source c)) body ∷ s.delivered
      → Stepped lib key nonce source stop c s r

pub Stepped-from :
    (lib : Primitives) (key nonce source : Bytes) (stop : Bool) (c : Chunk) (s : Session)
    (selector : ProxySelector) (r : Result Fault (Unit {0}) × Session)
    → Stepped lib key nonce source stop c (record s { selector = selector }) r
    → Stepped lib key nonce source stop c s r
Stepped-from lib key nonce source stop c s selector r (untouched h a) = untouched h (record {
  same_url = a.same_url;
  same_token = a.same_token;
  same_log = a.same_log;
  alike = a.alike;
})
Stepped-from lib key nonce source stop c s selector r
      (posted counter body mac x counted fits made marked alike url token log) =
    posted counter body mac x counted fits made marked alike url token log

pub check_body-ok :
    (final : Bool) (r : Result Fault Bytes) (body : Bytes)
    → check_body final r ≡ ok body
    → (r ≡ ok body) × (is_empty body ≡ not final)
unfolding check_body
check_body-ok final (err e) body h = absurd (ground arith)
check_body-ok final (ok b) body h =
    elim (Bool-cases ((not (is_empty b) && not final) || (final && is_empty b))) [
      | inl bad ↦ absurd (ground (arith, bad, h))
      | inr fine ↦
          let same : b ≡ body = ground (arith, fine, h) in
          let fits : is_empty b ≡ not final = ground (arith, fine) in
          (ap ok same, ap is_empty (sym same) ∙ fits)
    ]

record_token-Same :
    (body : Bytes) (s : Session)
    → ((record_token body s).completion_token ≡ token_after body s.completion_token)
      × ((record_token body s).delivered ≡ s.delivered)
      × ((record_token body s).upload_url ≡ s.upload_url)
      × Alike s.state (record_token body s).state
unfolding is_chunk_done get_chunk_mac
record_token-Same body s =
    elim (Bool-cases (not (is_empty body) && lacks_token s.completion_token)) [
      | inl e ↦ simp e (
        refl,
        refl,
        refl,
        record { same_done = λ j. refl; same_macs = λ j. refl; same_size = refl },
      )
      | inr e ↦ simp e (refl, refl, refl, Alike-refl s.state)
    ]

module _ (lib : Primitives) (env : Attempt) where
  saved_session-Same :
      (live : TransferState) (r : Result Error (Unit {0}) × File) (s : Session)
      → Alike s.state live
      → Same s (saved_session lib env live r s).1
  saved_session-Same live (ok u, f) s a = record {
    same_url = refl;
    same_token = refl;
    same_log = refl;
    alike = a;
  }
  saved_session-Same live (err e, f) s a = record {
    same_url = refl;
    same_token = refl;
    same_log = refl;
    alike = a;
  }

  save_periodically-Same :
      (body : Bytes) (s : Session) → Same s (save_periodically lib env body s).1
  unfolding save_periodically snapshot_state is_chunk_done get_chunk_mac
  save_periodically-Same body s =
      elim (Bool-cases (s.chunks_done % 8 == 0 || not (is_empty body))) [
        | inl e ↦ simp e (
            saved_session-Same (snapshot_state s.state).1
              (save_state env.disk (snapshot_state s.state).0 s.saved) s
              (record { same_done = λ j. refl; same_macs = λ j. refl; same_size = refl }))
        | inr e ↦ simp e (Same-refl s)
      ]

  -- A chunk that can be marked is, and the token is kept.
  pub record Committed (c : Chunk) (body : Bytes) (x : TransferState) (s t : Session) : Type 0 where
    pub alike : Alike x t.state
    pub same_url : t.upload_url ≡ s.upload_url
    pub kept_token : t.completion_token ≡ token_after body s.completion_token
    pub same_log : t.delivered ≡ s.delivered

  Alike-trans : (a b d : TransferState) → Alike a b → Alike b d → Alike a d
  Alike-trans a b d p q = record {
    same_done = λ j. q.same_done j ∙ p.same_done j;
    same_macs = λ j. q.same_macs j ∙ p.same_macs j;
    same_size = q.same_size ∙ p.same_size;
  }

  pub commit_chunk-Committed :
      (c : Chunk) (mac body : Bytes) (s : Session) (x : TransferState)
      → mark_chunk_done s.state c.index (some mac) ≡ ok x
      → Committed c body x s (commit_chunk lib env c mac body s).1
  unfolding commit_chunk
  commit_chunk-Committed c mac body s x e =
      let marked : Session = record s {
        state = x;
        bytes_done = s.bytes_done + c.size;
        chunks_done = s.chunks_done + 1;
      } in
      let (token, log, url, a) = record_token-Same body marked in
      let saved = save_periodically-Same body (record_token body marked) in
      rw (commit_chunk, e)
        (record {
          alike = Alike-trans x (record_token body marked).state _ a saved.alike;
          same_url = saved.same_url ∙ url;
          kept_token = saved.same_token ∙ token;
          same_log = saved.same_log ∙ log;
        })
