-- ===== src/Resuming/Examples.antt =====
-- Witnesses for the checks of src/megabasterd_cli/core/download_verify.py.
use mega_basterd_cli.Prelude.{
  ◌≤◌, true, some, [], ◌∷◌, ◌≡◌, ◌↔◌, refl, arith, length, ok, str_eq, eq_iff,
}
use mega_basterd_cli.Json.{pos, Json}
use mega_basterd_cli.Chunks.{iter_chunks, max_chunks}
use mega_basterd_cli.State.Hex.{Bytes, AreBytes, hex}
use mega_basterd_cli.State.Model.{TransferState, download, get_chunk_mac, mac_at}
use mega_basterd_cli.State.Sound.{decoded-hex}
use mega_basterd_cli.Resuming.{
  Download, validate_declared_size, is_usable_download_state, have_macs, are_usable, are_planned,
}
use mega_basterd_cli.Resuming.Usable.{
  validate_declared_size-iter_chunks, Resumes, is_usable-Resumes,
}

validate_declared_size-iter_chunks_example :
    (validate_declared_size (Json.int (pos 200000)) ≡ ok 200000)
    ↔ ((Json.int (pos 200000) ≡ Json.int (pos 200000)) × (length (iter_chunks 200000) ≤ max_chunks))
validate_declared_size-iter_chunks_example =
    validate_declared_size-iter_chunks (Json.int (pos 200000)) 200000

abbrev mac : Bytes
mac = 0 ∷ 1 ∷ 2 ∷ 3 ∷ 4 ∷ 5 ∷ 6 ∷ 7 ∷ 8 ∷ 9 ∷ 10 ∷ 11 ∷ 12 ∷ 13 ∷ 14 ∷ 15 ∷ []

abbrev nonce : Bytes
nonce = 0 ∷ 1 ∷ 2 ∷ 3 ∷ 4 ∷ 5 ∷ 6 ∷ 7 ∷ []

abbrev half_done : TransferState
half_done = record {
  transfer_type = download;
  source = "https://mega.nz/file/a#b";
  destination = "a.bin";
  total_size = 200000;
  format_version = pos 1;
  completed_chunks = 0 ∷ [];
  chunk_macs = (0, hex mac) ∷ [];
  metadata = ("aes_key", Json.str (hex mac)) ∷ ("nonce", Json.str (hex nonce)) ∷ [];
  revision = 1;
}

abbrev second_run : Download
second_run = record {
  auto_resume = true;
  destination = "a.bin";
  source = "https://mega.nz/file/a#b";
  file_size = 200000;
  aes_key = mac;
  nonce = nonce;
  all_chunks =
      record { index = 0; offset = 0; size = 131072 }
      ∷ record { index = 1; offset = 131072; size = 68928 }
      ∷ [];
  same_path = str_eq;
  size_on_disk = some 200000;
}

mac-AreBytes : AreBytes mac
mac-AreBytes = omega arith

mac_recorded : get_chunk_mac half_done 0 ≡ some (some mac)
unfolding get_chunk_mac mac_at
mac_recorded = decoded-hex mac mac-AreBytes refl

completed_has_macs : have_macs half_done (0 ∷ []) ≡ some true
unfolding have_macs
completed_has_macs = ground (arith, mac_recorded)

completed_usable : are_usable second_run half_done (0 ∷ []) ≡ some true
unfolding are_usable are_planned
completed_usable = completed_has_macs

half_done-usable : is_usable_download_state second_run (some half_done) ≡ some true
unfolding is_usable_download_state
half_done-usable = ground (
  arith,
  (eq_iff (hex mac) (hex mac)).1 refl,
  (eq_iff (hex nonce) (hex nonce)).1 refl,
  completed_usable,
)

is_usable-Resumes_example : Resumes second_run half_done
is_usable-Resumes_example = is_usable-Resumes second_run half_done half_done-usable
