-- ===== src/Upload/Fresh.antt =====
-- A whole upload of src/megabasterd_cli/core/uploader.py without a resume state: the start, the work and the end.
use mathlib.Core.Path.{subst}
use mega_basterd_cli.Prelude.{
  String, Option, none, some, ◌≡◌, refl, arith, Result, ok, err, ok-injective,
}
use mega_basterd_cli.Json.{ℤ}
use mega_basterd_cli.State.Hex.{Bytes}
use mega_basterd_cli.State.Model.{Error, get_chunk_mac, mac_at}
use mega_basterd_cli.State.Store.{File, clear_state, unrecognized_state_version}
use mega_basterd_cli.Crypto.Primitives.{Primitives}
use mega_basterd_cli.Upload.Session.{Session}
use mega_basterd_cli.Upload.Run.{
  Run, UploadResult, Material, request_upload_url, fresh_state, fresh_material, open_session,
  with_slot, start_cleared, start_version, start_fresh,
}
use mega_basterd_cli.Upload.Finish.{finish}
use mega_basterd_cli.Upload.Recorded.{IsRecorded}
use mega_basterd_cli.Upload.Delivered.{Uploads, Uploads-IsRecorded}
use mega_basterd_cli.Upload.Registered.{IsReady, IsRegistered, finish-IsRegistered}

module _ (lib : Primitives) (run : Run) (source : Bytes) (m : Material) (s : Session) where
  with_slot-IsRecorded :
      (url : Option String) (f : File)
      → (with_slot run url f).0 ≡ ok (m, s)
      → IsRecorded lib m.key m.nonce source run.file_size s
  unfolding with_slot get_chunk_mac mac_at
  with_slot-IsRecorded none f e = absurd (ground arith)
  with_slot-IsRecorded (some url) f e =
      let begun : Session = open_session run (fresh_state run url) (fresh_material run url) f in
      subst (λ (p : Material × Session). IsRecorded lib p.0.key p.0.nonce source run.file_size p.1)
        {x = (fresh_material run url, begun)} (ok-injective e)
        (record {
          sized = refl;
          held = λ c mac i h. absurd (cc);
          answered = λ token h. absurd (cc);
        })

  start_cleared-IsRecorded :
      (r : Result Error (Unit {0}) × File)
      → (start_cleared run r).0 ≡ ok (m, s)
      → IsRecorded lib m.key m.nonce source run.file_size s
  unfolding start_cleared
  start_cleared-IsRecorded (err e, f) h = absurd (ground arith)
  start_cleared-IsRecorded (ok u, f) h = with_slot-IsRecorded (request_upload_url run.slot) f h

  start_version-IsRecorded :
      (version : Result Error (Option ℤ)) (f : File)
      → (start_version run version f).0 ≡ ok (m, s)
      → IsRecorded lib m.key m.nonce source run.file_size s
  unfolding start_version
  start_version-IsRecorded (err e) f h = absurd (ground arith)
  start_version-IsRecorded (ok (some v)) f h = absurd (ground arith)
  start_version-IsRecorded (ok none) f h = start_cleared-IsRecorded (clear_state run.clearing f) h

  pub start_fresh-IsRecorded :
      (f : File)
      → (start_fresh run f).0 ≡ ok (m, s)
      → IsRecorded lib m.key m.nonce source run.file_size s
  unfolding start_fresh
  start_fresh-IsRecorded f h = start_version-IsRecorded (unrecognized_state_version f) f h

  -- For a plan of the file's size, a source of as many bytes, a key and a master key of 16 and a
  -- nonce of 8 bytes, and a cipher: an upload that starts without a resume state, attempts chunks
  -- of its plan, which all read this source, and renews its slot in any order, and then returns,
  -- has sent one registration. Its token is the answer to a final chunk at the slot that holds
  -- every chunk encrypted, and the master key opens its key to the key and the nonce of the upload
  -- and to a MAC that the source's bytes are verified against.
  pub fresh_upload-IsRegistered :
      (f : File)
      → (start_fresh run f).0 ≡ ok (m, s)
      → IsReady lib run m source
      → (t : Session) → Uploads lib m.key m.nonce source run.file_size s t
      → (result : UploadResult) → (finish run lib m t).0 ≡ ok result
      → IsRegistered lib run m source t (finish run lib m t).1
  fresh_upload-IsRegistered f h ready t us result e =
      finish-IsRegistered lib run m source ready t
        (Uploads-IsRecorded lib m.key m.nonce source ready.cipher ready.source_bytes run.file_size s
          t us (start_fresh-IsRecorded f h))
        result e
