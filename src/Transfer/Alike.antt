-- ===== src/Transfer/Alike.antt =====
-- The saves of src/megabasterd_cli/core/download_transport.py leave the chunks and their MACs.
use mega_basterd_cli.Prelude.{
  ℕ, ◌+◌, ◌%◌, String, Option, some, ◌≡◌, refl, ◌==◌, Result, ok, err, Bool-cases, inl, inr,
}
use mega_basterd_cli.Chunks.{Chunk}
use mega_basterd_cli.State.Hex.{Bytes}
use mega_basterd_cli.State.Model.{
  TransferState, Error, is_chunk_done, get_chunk_mac, mark_chunk_done, snapshot_state,
}
use mega_basterd_cli.State.Store.{File}
use mega_basterd_cli.Crypto.Primitives.{Primitives}
use mega_basterd_cli.Transfer.Session.{Attempt, Session}
use mega_basterd_cli.Transfer.Fetch.{saved_session, save_periodically, commit_chunk}

-- The same chunks are done, with the same MACs.
pub record Alike (a b : TransferState) : Type 0 where
  pub same_done : (j : ℕ) → is_chunk_done b j ≡ is_chunk_done a j
  pub same_macs : (j : ℕ) → get_chunk_mac b j ≡ get_chunk_mac a j
  pub same_size : b.total_size ≡ a.total_size

pub Alike-refl : (a : TransferState) → Alike a a
Alike-refl a = record { same_done = λ j. refl; same_macs = λ j. refl; same_size = refl }

module _ (lib : Primitives) (env : Attempt) where
  saved_session-Alike :
      (picked : Option String) (live : TransferState) (r : Result Error (Unit {0}) × File)
      (s : Session)
      → Alike s.state live
      → ((saved_session lib env picked live r s).1.file ≡ s.file)
        × Alike s.state (saved_session lib env picked live r s).1.state
  unfolding saved_session
  saved_session-Alike picked live (ok u, f) s a = (refl, a)
  saved_session-Alike picked live (err e, f) s a = (refl, a)

  save_periodically-Alike :
      (picked : Option String) (s : Session)
      → ((save_periodically lib env picked s).1.file ≡ s.file)
        × Alike s.state (save_periodically lib env picked s).1.state
  unfolding save_periodically snapshot_state is_chunk_done get_chunk_mac
  save_periodically-Alike picked s = elim (Bool-cases (s.chunks_done % 16 == 0)) [
    | inl e ↦ rw e (
        saved_session-Alike picked _ _ s
          (record { same_done = λ j. refl; same_macs = λ j. refl; same_size = refl }))
    | inr e ↦ rw e (refl, Alike-refl s.state)
  ]

  pub commit_chunk-Alike :
      (c : Chunk) (mac : Bytes) (picked : Option String) (s : Session) (t : TransferState)
      → mark_chunk_done s.state c.index (some mac) ≡ ok t
      → ((commit_chunk lib env c mac picked s).1.file ≡ s.file)
        × Alike t (commit_chunk lib env c mac picked s).1.state
  unfolding commit_chunk
  commit_chunk-Alike c mac picked s t e =
      rw (commit_chunk, e)
        (save_periodically-Alike picked (record s {
          state = t;
          bytes_done = s.bytes_done + c.size;
          chunks_done = s.chunks_done + 1;
        }))
