-- ===== src/Upload/Started.antt =====
-- What an upload of src/megabasterd_cli/core/uploader.py starts from.
use mega_basterd_cli.Prelude.{true, false, Option, none, some, ◌≡◌, Result, ok}
use mega_basterd_cli.State.Model.{TransferState, Error}
use mega_basterd_cli.Upload.Session.{Session}
use mega_basterd_cli.Upload.Begun.{IsNew, IsSlot}
use mega_basterd_cli.Upload.Resumes.{IsSameUpload}
use mega_basterd_cli.Upload.Kept.{Keeps}
use mega_basterd_cli.Upload.Run.{Run, Material}

-- The session of a state and what it records of the slot
pub record IsOpen (state : TransferState) (m : Material) (s : Session) : Type 0 where
  pub same_state : s.state ≡ state
  pub same_url : s.upload_url ≡ m.url
  pub same_token : s.completion_token ≡ m.token

-- Why nothing is resumed
pub data NothingToResume (run : Run) (loaded : Result Error (Option TransferState)) : Type 0 where
  off : run.auto_resume ≡ false → NothingToResume run loaded
  no_state : loaded ≡ ok none → NothingToResume run loaded
  other_upload :
      (state : TransferState)
      → loaded ≡ ok (some state)
      → ¬ IsSameUpload run state
      → NothingToResume run loaded
  not_kept :
      (state : TransferState)
      → loaded ≡ ok (some state)
      → ((m : Material) → ¬ Keeps state.metadata m)
      → NothingToResume run loaded

pub data Started (run : Run) (loaded : Result Error (Option TransferState)) (m : Material)
    (s : Session) : Type 0 where
  fresh :
      (state : TransferState)
      → NothingToResume run loaded
      → IsSlot run.slot m.url
      → IsNew run state m
      → IsOpen state m s
      → Started run loaded m s
  resumed :
      (state : TransferState)
      → run.auto_resume ≡ true
      → loaded ≡ ok (some state)
      → IsSameUpload run state
      → Keeps state.metadata m
      → IsOpen state m s
      → Started run loaded m s
