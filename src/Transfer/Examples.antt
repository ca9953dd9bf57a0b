-- ===== src/Transfer/Examples.antt =====
-- Witnesses for Transfer (src/megabasterd_cli/core/download_transport.py, downloader.py), with the
-- download of Sample.
use mega_basterd_cli.Crypto.Plain.{plain-IsCounter}
use mega_basterd_cli.Transfer.Run.Whole.{all_returned, fresh_download-returns}
use mega_basterd_cli.Prelude.{[], ◌∷◌, ◌≡◌, refl, length, ok}
use mega_basterd_cli.Transfer.Run.Gate.{Finished, finish-Finished}
use mega_basterd_cli.Transfer.Run.Fresh.{StartsFresh, fresh_download}
use mega_basterd_cli.Prelude.{arith, inr}
use mega_basterd_cli.Chunks.{Chunk, iter_chunks}
use mega_basterd_cli.Chunks.Apart.{In}
use mega_basterd_cli.State.Store.{absent, load_state}
use mega_basterd_cli.Crypto.Plain.{plain, plain-IsCipher, plain-IsStream}
use mega_basterd_cli.Transfer.Vouched.{HasMac, IsVouched, Attempts-IsVouched}
use mega_basterd_cli.Transfer.Run.{finish}
use mega_basterd_cli.Transfer.Sample.{
  key, nonce, run, begun, only, ended, started, result, checked, saved_once, returned,
  begun-IsVouched, worked, source, every_chunk, round, discarded,
}

Attempts-IsVouched_example : IsVouched plain key nonce 2 ended
Attempts-IsVouched_example =
    Attempts-IsVouched plain key nonce plain-IsCipher plain-IsStream 2 begun ended worked
      begun-IsVouched

-- Resuming is on, and there is no state file.
nothing : StartsFresh run absent
unfolding load_state
nothing = inr refl

fresh_download_example :
    (length ended.file ≡ 2)
    × ((c : Chunk) → In c (iter_chunks 2) → HasMac plain key nonce ended.file ended.state c)
    × Finished run plain ended result
fresh_download_example =
    fresh_download run plain plain-IsCipher plain-IsStream absent begun ended (ok tt ∷ []) result
      nothing refl started worked returned

finish-Finished_example : Finished run plain ended result
finish-Finished_example = finish-Finished run plain (ok tt ∷ []) ended result returned

fresh_download-returns_example :
    ((finish run plain (all_returned (only ∷ [])) ended).0 ≡ ok result) × (ended.file ≡ source)
fresh_download-returns_example =
    fresh_download-returns run plain source plain-IsCipher plain-IsStream plain-IsCounter
      (omega arith) refl absent begun ended (only ∷ []) nothing refl started round every_chunk
      (λ on. checked) saved_once discarded
