-- ===== src/State/Examples.antt =====
-- Runs and witnesses for the resume state (src/megabasterd_cli/core/state.py).
use mega_basterd_cli.Prelude.{
  ℕ, zero, suc, String, true, false, none, some, [], ◌∷◌, ◌≡◌, refl, ap, inl, inr, arith, length,
  codes, ok, ltb, if◌then◌else◌, ◌⊎◌,
}
use mega_basterd_cli.Json.{pos, negsuc, Json, of_dict}
use mega_basterd_cli.State.Hex.{Bytes, fromhex-hex, hex, fromhex, AreBytes}
use mega_basterd_cli.State.Model.{TransferState, download, mark_chunk_done, put_mac}
use mega_basterd_cli.State.Validate.{Texts, validate_metadata}
use mega_basterd_cli.State.Store.{
  garbage, document, Disk, opened, replaced, permission_denied, load_state, save_state, clear_state,
  payload, unrecognized_state_version, disk_guard, other_version,
}
use mega_basterd_cli.State.Sound.{IsSound, mark_chunk_done-IsSound, are_fresh}
use mega_basterd_cli.State.Saving.{
  Committed, save_state-Committed, save_state-saves, IsFlushed, IsReplacedAt,
}
use mega_basterd_cli.State.Loading.{newer-kept}
use mega_basterd_cli.State.Resume.{save_state-load_state}

-- Numbers in unary.
ones : ℕ → String
ones zero = ""
ones (suc n) = String.◌∷◌ "1" (ones n)

length-ones : (n : ℕ) → length (codes (ones n)) ≡ n
unfolding ones
length-ones zero = refl
length-ones (suc n) = ap suc (length-ones n)

abbrev texts : Texts
texts = record {
  parse_int = λ s. some (pos (length (codes s)));
  print_int = ones;
  is_safe_target = λ s. true;
  hostname = λ s. s;
  endswith = λ s t. false;
}

-- The third attempt to replace the file succeeds.
abbrev disk : Disk
disk = record {
  texts = texts;
  parent_made = true;
  opens = opened;
  fsync_succeeds = true;
  lock_free = true;
  staged = true;
  replace = λ k. if ltb k 2 then permission_denied else replaced;
  unlink_succeeds = true;
  preserved = true;
}

abbrev broken_disk : Disk
broken_disk = record disk { fsync_succeeds = false }

abbrev mac : Bytes
mac = 0 ∷ 1 ∷ 2 ∷ 3 ∷ 4 ∷ 5 ∷ 6 ∷ 7 ∷ 8 ∷ 9 ∷ 10 ∷ 11 ∷ 12 ∷ 250 ∷ 254 ∷ 255 ∷ []

abbrev fresh : TransferState
fresh = record {
  transfer_type = download;
  source = "https://mega.nz/file/a#b";
  destination = "a.bin";
  total_size = 300000;
  format_version = pos 1;
  completed_chunks = [];
  chunk_macs = [];
  metadata = [];
  revision = 1;
}

abbrev partial : TransferState
partial = record fresh { completed_chunks = 0 ∷ []; chunk_macs = (0, hex mac) ∷ [] }

abbrev newer : Json
newer = Json.obj (of_dict (("format_version", Json.int (pos 2)) ∷ []))

fresh-IsSound : IsSound texts fresh
unfolding are_fresh validate_metadata
fresh-IsSound = record {
  current = refl;
  chunks_fresh = refl;
  keys_fresh = refl;
  macs_hex = refl;
  no_orphans = refl;
  metadata_valid = refl;
}

mac-AreBytes : AreBytes mac
mac-AreBytes = omega arith

fromhex-hex_example : fromhex (hex mac) ≡ some mac
fromhex-hex_example = fromhex-hex mac mac-AreBytes

marked_partial : mark_chunk_done fresh 0 (some mac) ≡ ok partial
unfolding mark_chunk_done put_mac
marked_partial = refl

mark_chunk_done-IsSound_example : IsSound texts partial
mark_chunk_done-IsSound_example =
    mark_chunk_done-IsSound texts fresh partial 0 (some mac) fresh-IsSound mac-AreBytes
      marked_partial

partial-IsSound : IsSound texts partial
partial-IsSound =
    mark_chunk_done-IsSound texts fresh partial 0 (some mac) fresh-IsSound mac-AreBytes
      marked_partial

save_state-Committed_example :
    ((save_state disk partial garbage).1 ≡ garbage)
    ⊎ Committed disk partial garbage (save_state disk partial garbage).1
save_state-Committed_example = save_state-Committed disk partial garbage

partial-IsFlushed : IsFlushed disk partial
partial-IsFlushed = inr (inl (refl, refl))

IsReplacedAt-two : IsReplacedAt disk 2
IsReplacedAt-two = (λ i h. ground arith, refl)

garbage-guarded : disk_guard disk garbage ≡ ok (pos 1, negsuc 0)
unfolding disk_guard
garbage-guarded = refl

save_state-saves_example :
    save_state disk partial garbage ≡ (ok tt, document (payload texts partial))
save_state-saves_example =
    save_state-saves disk partial garbage 2 refl partial-IsFlushed refl (pos 1, negsuc 0)
      garbage-guarded refl refl (omega arith) IsReplacedAt-two

partial-Committed : Committed disk partial garbage (save_state disk partial garbage).1
unfolding disk_guard
partial-Committed = record {
  flushed = partial-IsFlushed;
  locked = refl;
  version = pos 1;
  revision = negsuc 0;
  guarded = refl;
  not_newer = refl;
  not_stale = tt;
  written =
      ap (λ r. r.1)
        (save_state-saves disk partial garbage 2 refl partial-IsFlushed refl (pos 1, negsuc 0)
          garbage-guarded refl refl (omega arith) IsReplacedAt-two);
}

save_state-load_state_example :
    load_state disk (save_state disk partial garbage).1
    ≡ (ok (some partial), (save_state disk partial garbage).1)
save_state-load_state_example =
    save_state-load_state disk (λ n. ap (λ k. some (pos k)) (length-ones n)) partial garbage
      partial-IsSound partial-Committed

broken_disk-not_flushed : ¬ IsFlushed broken_disk partial
broken_disk-not_flushed = ground arith

newer-unrecognized : unrecognized_state_version (document newer) ≡ ok (some (pos 2))
unfolding unrecognized_state_version other_version
newer-unrecognized = refl

newer-kept_example :
    (load_state disk (document newer) ≡ (ok none, document newer))
    × ((save_state disk partial (document newer)).1 ≡ document newer)
    × (clear_state disk (document newer) ≡ (ok tt, document newer))
newer-kept_example = newer-kept disk newer (pos 2) partial newer-unrecognized refl
