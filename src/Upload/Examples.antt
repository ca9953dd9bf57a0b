-- ===== src/Upload/Examples.antt =====
-- Witnesses for Upload (src/megabasterd_cli/core/uploader.py), with the upload of Sample.
use mega_basterd_cli.Upload.Empty.{upload_empty_file}
use mega_basterd_cli.Upload.Empty.Posted.{IsRegisteredEmpty}
use mega_basterd_cli.Upload.Empty.Registered.{upload_empty_file-IsRegisteredEmpty}
use mega_basterd_cli.Prelude.{[], ◌∷◌, ◌≡◌, arith, ok}
use mega_basterd_cli.State.Store.{absent}
use mega_basterd_cli.Crypto.Plain.{plain, plain-IsCipher}
use mega_basterd_cli.Upload.Finish.{finish}
use mega_basterd_cli.Upload.Recorded.{IsRecorded}
use mega_basterd_cli.Upload.Delivered.{here, Uploads-IsRecorded}
use mega_basterd_cli.Upload.Registered.{IsRegistered}
use mega_basterd_cli.Upload.Started.{Started}
use mega_basterd_cli.Upload.Fresh.{fresh_upload-IsRegistered}
use mega_basterd_cli.Upload.Whole.{fresh_upload-returns}
use mega_basterd_cli.Upload.Slot.{Moves}
use mega_basterd_cli.Upload.Refines.{view, Uploads-Moves}
use mega_basterd_cli.Upload.Sample.{
  source, identity, run, material, begun, whole, attempt, ended, ready, worked, begun-IsRecorded,
  started, result, returned, end_of_token, rounded, all_rounded, empty_run, retired, keyed,
  empty_uploaded,
}

fresh_upload-IsRegistered_example :
    IsRegistered plain run material source ended (finish run plain material ended).1
fresh_upload-IsRegistered_example =
    fresh_upload-IsRegistered plain run source material begun absent started ready ended worked
      result returned

fresh_upload-returns_example :
    ((finish run plain material ended).0 ≡ ok result)
    × IsRegistered plain run material source ended (finish run plain material ended).1
fresh_upload-returns_example =
    fresh_upload-returns plain run source material begun absent started ready (omega arith) begun
      ended (whole ∷ []) here rounded all_rounded identity "handle" end_of_token

Uploads-Moves_example : Moves 2 (view begun) (view ended)
Uploads-Moves_example =
    Uploads-Moves plain material.key material.nonce source plain-IsCipher (omega arith) 2 begun
      ended begun-IsRecorded worked

Uploads-IsRecorded_example : IsRecorded plain material.key material.nonce source 2 ended
Uploads-IsRecorded_example =
    Uploads-IsRecorded plain material.key material.nonce source plain-IsCipher (omega arith) 2 begun
      ended worked begun-IsRecorded

upload_empty_file-IsRegisteredEmpty_example :
    IsRegisteredEmpty plain empty_run retired attempt begun
      (upload_empty_file plain empty_run retired empty_run.slot attempt begun).1
upload_empty_file-IsRegisteredEmpty_example =
    upload_empty_file-IsRegisteredEmpty plain empty_run keyed retired attempt empty_run.slot begun
      (record { file_handle = "handle"; name = "a.bin"; size = 0 }) empty_uploaded
