-- ===== src/Upload/Whole.antt =====
-- A whole upload of src/megabasterd_cli/core/uploader.py: it returns, and with the right registration.
use mega_basterd_cli.Prelude.{◌<◌, String, some, List, ◌≡◌, ok}
use mega_basterd_cli.Json.{Dict}
use mega_basterd_cli.Chunks.{Chunk, iter_chunks}
use mega_basterd_cli.Chunks.Apart.{In}
use mega_basterd_cli.State.Hex.{Bytes}
use mega_basterd_cli.State.Store.{File}
use mega_basterd_cli.Crypto.Primitives.{Primitives}
use mega_basterd_cli.Upload.Session.{Session}
use mega_basterd_cli.Upload.Run.{Run, UploadResult, Material, start_fresh}
use mega_basterd_cli.Upload.Finish.{finish}
use mega_basterd_cli.Upload.Delivered.{Uploads, Uploads-IsRecorded}
use mega_basterd_cli.Upload.Registered.{IsReady, IsRegistered}
use mega_basterd_cli.Upload.Fresh.{fresh_upload-IsRegistered, start_fresh-IsRecorded}
use mega_basterd_cli.Upload.Returned.{IsEnding, finish-returns}
use mega_basterd_cli.Upload.Round.{Round, Round-Uploads, Round-IsReached, iter_chunks-final}

-- For a plan of the file's size, which is positive, a source of as many bytes, a key and a master key of
-- 16 and a nonce of 8 bytes, and a cipher: an upload starts without a resume state, attempts chunks of
-- its plan and renews its slot in any order. Then comes a round in which a worker that is not stopped
-- returns for every chunk of the plan, whatever was raised before. Where the token is ASCII, the source
-- is the same as before, the attributes print as bytes, the API answers with a handle and the state file
-- can be removed, the upload returns this handle, and it has registered what it has posted.
pub fresh_upload-returns :
    (lib : Primitives) (run : Run) (source : Bytes) (m : Material) (s : Session) (f : File)
    → (start_fresh run f).0 ≡ ok (m, s)
    → IsReady lib run m source
    → 0 < run.file_size
    → (t u : Session) (cs : List Chunk) → Uploads lib m.key m.nonce source run.file_size s t
    → Round lib m.key m.nonce source run.file_size cs t u
    → ((c : Chunk) → In c (iter_chunks run.file_size) → In c cs)
    → (current : Dict) (handle : String)
    → ((token : Bytes) → u.completion_token ≡ some token → IsEnding run u token current handle)
    → ((finish run lib m u).0
        ≡ ok (record { file_handle = handle; name = run.upload_name; size = run.file_size }))
      × IsRegistered lib run m source u (finish run lib m u).1
fresh_upload-returns lib run source m s f h ready filled t u cs us round all current handle ending =
    let result : UploadResult = record {
      file_handle = handle;
      name = run.upload_name;
      size = run.file_size;
    } in
    let right = start_fresh-IsRecorded lib run source m s f h in
    let worked = Round-Uploads lib m.key m.nonce source run.file_size cs s t u us round in
    let kept =
      Uploads-IsRecorded lib m.key m.nonce source ready.cipher ready.source_bytes run.file_size s in
    let reached =
      Round-IsReached lib m.key m.nonce source ready.cipher ready.source_bytes run.file_size cs t u
        (kept t us right) round in
    let (last, planned, final) = iter_chunks-final run.file_size filled in
    let (token, there, _) = reached.token last (all last planned) final in
    let returned =
      finish-returns lib run m source ready u (kept u worked right) token current handle there
        (λ c i. reached.macs c (all c i)) (ending token there) in
    (returned, fresh_upload-IsRegistered lib run source m s f h ready u worked result returned)
