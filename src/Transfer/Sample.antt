-- ===== src/Transfer/Sample.antt =====
-- A download of two bytes, from its start to its result.
use mega_basterd_cli.Transfer.Session.{Reply, lost}
use mega_basterd_cli.Prelude.{List, sym, join, ◌∙◌}
use mega_basterd_cli.Transfer.Copied.{IsHonest}
use mega_basterd_cli.Transfer.Round.{Round, begins, returns}
use mega_basterd_cli.Proxy.{selector_report_success, select}
use mega_basterd_cli.Prelude.{
  true, false, none, some, [], ◌∷◌, ◌≡◌, refl, inl, replicate, Result, ok,
}
use mathlib.Core.Path.{subst}
use mega_basterd_cli.Transfer.Session.{Fault}
use mega_basterd_cli.Prelude.{ap, arith}
use mega_basterd_cli.Json.{pos}
use mega_basterd_cli.Chunks.{Chunk, iter_chunks, first_chunks}
use mega_basterd_cli.Chunks.Apart.{In}
use mega_basterd_cli.State.Hex.{Bytes, hex}
use mega_basterd_cli.State.Model.{mark_chunk_done, put_mac, is_chunk_done, snapshot_state}
use mega_basterd_cli.State.Validate.{Texts}
use mega_basterd_cli.State.Store.{
  commit_against, load_state, flush_transferred_data, disk_guard, unrecognized_state_version, Disk,
  absent, opened, replaced, save_state, clear_state,
}
use mega_basterd_cli.RangeReply.{
  check_total, check_length, content_range, strip_end, skip, digits, number, total, check_range,
  check_header, validate_range_response,
}
use mega_basterd_cli.Resuming.{Download}
use mega_basterd_cli.Crypto.Plain.{plain}
use mega_basterd_cli.Crypto.Mac.{
  combine_chunk_macs, combine_from, condense_mac, xor_bytes, fold_words, chunk_mac,
}
use mega_basterd_cli.Crypto.Words.{bytes_to_a32}
use mega_basterd_cli.State.Validate.{read_chunks, read_macs, validate_metadata, validate_state_dict}
use mega_basterd_cli.State.Store.{
  flush_transferred_data, commit, disk_guard, replace_file, guard_of,
}
use mega_basterd_cli.Integrity.{macs_on_disk, compare_macs, same_mac, verify_file_on_disk}
use mega_basterd_cli.Transfer.Session.{write_at, Attempt, answered, Session}
use mega_basterd_cli.Transfer.Fetch.{
  save_periodically, commit_chunk, write_chunk, write_mac, ctr_offset_to_counter, decrypt_chunk,
  read_blocks, take_body, take_status, take_reply, with_proxy, fetch_chunk,
}
use mega_basterd_cli.Transfer.Vouched.{IsVouched, Attempts, here, attempt}
use mega_basterd_cli.Transfer.Run.{
  resume_or_fresh, gather, save_snapshot, check_coverage, by_missing, check_integrity, by_verdict,
  conclude, discard_state, save_snapshot, gather, preallocate, open_session, start_cleared,
  start_version, start_fresh, load_or_fresh, prepare_with, Run, DownloadResult, fresh_state,
  prepare, finish,
}

abbrev pub key : Bytes
key = replicate 16 5

abbrev pub nonce : Bytes
nonce = replicate 8 6

abbrev pub texts : Texts
texts = record {
  parse_int = λ s. some (pos 2);
  print_int = λ n. "0";
  is_safe_target = λ s. true;
  hostname = λ s. s;
  endswith = λ s t. false;
}

abbrev pub disk : Disk
disk = record {
  texts = texts;
  parent_made = true;
  opens = opened;
  fsync_succeeds = true;
  lock_free = true;
  staged = true;
  replace = λ k. replaced;
  unlink_succeeds = true;
  preserved = true;
}

abbrev pub target : Download
target = record {
  auto_resume = true;
  destination = "a.bin";
  source = "https://mega.nz/file/a#b";
  file_size = 2;
  aes_key = key;
  nonce = nonce;
  all_chunks = iter_chunks 2;
  same_path = λ s t. true;
  size_on_disk = none;
}

abbrev pub run : Run
run = record {
  target = target;
  mac_iv = 1094844416 ∷ 0 ∷ [];
  existing = none;
  free = 100;
  cdn_url = "https://cdn";
  has_resolver = true;
  selector = record { pool = none; static = none; force = false };
  verify_integrity = true;
  keep_state_files_on_error = true;
  loading = disk;
  clearing = record disk { lock_free = false };
  saving = disk;
  stopped = false;
}

abbrev pub answer : Attempt
answer = record {
  moment = record { now = 1; choose = λ l. 0 };
  disk = disk;
  stopped = false;
  stopped_at = λ k. false;
  reply =
      answered 206
        (record { content_range_header = some "bytes 0-1/2"; content_length_header = some "2" })
        ((65 ∷ []) ∷ (66 ∷ []) ∷ []) none;
  fresh_url = none;
  write_succeeds = true;
}

abbrev pub renewed : Attempt
renewed = record answer { fresh_url = some "b" }

abbrev pub begun : Session
begun = record {
  state = fresh_state target;
  file = 0 ∷ 0 ∷ [];
  saved = absent;
  bytes_done = 0;
  chunks_done = 0;
  selector = record { pool = none; static = none; force = false };
  cdn_url = "https://cdn";
  generation = 0;
  has_resolver = true;
}

abbrev pub only : Chunk
only = record { index = 0; offset = 0; size = 2 }

pub planned : In only (iter_chunks 2)
unfolding iter_chunks first_chunks
planned = inl refl

abbrev pub ended : Session
ended = record {
  state = record (fresh_state target) {
    completed_chunks = 0 ∷ [];
    chunk_macs = (0, hex (65 ∷ 66 ∷ replicate 14 0)) ∷ [];
  };
  file = 65 ∷ 66 ∷ [];
  saved = absent;
  bytes_done = 2;
  chunks_done = 1;
  selector = record { pool = none; static = none; force = false };
  cdn_url = "https://cdn";
  generation = 0;
  has_resolver = true;
}

accepted :
    validate_range_response texts.parse_int 206
      (record { content_range_header = some "bytes 0-1/2"; content_length_header = some "2" })
      0
      1
      2
    ≡ ok tt
unfolding validate_range_response check_header check_range check_total check_length content_range
    strip_end skip digits number total
accepted = refl

pub fetched : fetch_chunk plain answer only key nonce begun ≡ (ok tt, ended)
unfolding fetch_chunk with_proxy select take_reply take_status validate_range_response check_header
    check_range content_range strip_end skip number digits total check_total check_length take_body
    read_blocks decrypt_chunk ctr_offset_to_counter write_mac chunk_mac write_chunk commit_chunk
    mark_chunk_done save_periodically put_mac write_at selector_report_success
fetched = refl

pub started : prepare run absent ≡ ok begun
unfolding prepare prepare_with load_or_fresh start_fresh start_version unrecognized_state_version
    start_cleared clear_state disk_guard open_session preallocate iter_chunks first_chunks
    is_chunk_done load_state resume_or_fresh
started = refl

abbrev pub result : DownloadResult
result = record { size = 2; integrity_ok = true }

pub checked :
    verify_file_on_disk plain key nonce (1094844416 ∷ 0 ∷ []) (iter_chunks 2) (some (65 ∷ 66 ∷ []))
    ≡ some true
unfolding verify_file_on_disk macs_on_disk iter_chunks first_chunks chunk_mac combine_chunk_macs
    combine_from condense_mac fold_words xor_bytes bytes_to_a32 compare_macs same_mac
checked = refl

pub saved_once : (save_snapshot run ended).0 ≡ ok tt
unfolding save_snapshot save_state flush_transferred_data snapshot_state commit disk_guard
    replace_file commit_against
saved_once = refl

pub returned : (finish run plain (ok tt ∷ []) ended).0 ≡ ok result
unfolding finish gather save_snapshot save_state flush_transferred_data snapshot_state commit
    disk_guard replace_file check_coverage by_missing iter_chunks first_chunks is_chunk_done
    check_integrity by_verdict conclude discard_state clear_state guard_of read_chunks read_macs
    validate_metadata validate_state_dict commit_against
returned = rw checked refl

pub begun-IsVouched : IsVouched plain key nonce 2 begun
unfolding is_chunk_done
begun-IsVouched = record {
  full = refl;
  sized = refl;
  vouched = λ c i e. absurd (ground (arith, e));
}

pub worked : Attempts plain key nonce 2 begun ended
worked =
    subst (Attempts plain key nonce 2 begun)
      (ap (λ (x : Result Fault (Unit {0}) × Session). x.1) fetched)
      (attempt only answer planned here)

abbrev pub source : Bytes
source = 65 ∷ 66 ∷ []

abbrev pub blocks_of : Reply → List Bytes
blocks_of (lost b) = []
blocks_of (answered status headers blocks end) = blocks

pub answer-IsHonest : IsHonest plain key nonce source answer only 2
answer-IsHonest encrypted accepted =
    accepted.read ∙ ap (λ (r : Reply). join (blocks_of r)) (sym accepted.answer)

pub every_chunk : (c : Chunk) → In c (iter_chunks 2) → In c (only ∷ [])
unfolding iter_chunks first_chunks
every_chunk c i = i

pub round :
    Round plain key nonce
      (λ env c. IsHonest plain key nonce source env c 2)
      2
      (only ∷ [])
      begun
      ended
round =
    subst
      (Round plain key nonce (λ env c. IsHonest plain key nonce source env c 2) 2 (only ∷ []) begun)
      (ap (λ (x : Result Fault (Unit {0}) × Session). x.1) fetched)
      (returns only answer answer-IsHonest planned (record { starts = refl; goes_on = λ i. refl })
        (ap (λ (x : Result Fault (Unit {0}) × Session). x.0) fetched) begins)

pub discarded : (discard_state run (save_snapshot run ended).1).0 ≡ ok tt
unfolding save_snapshot save_state flush_transferred_data snapshot_state commit disk_guard
    replace_file discard_state clear_state guard_of
discarded = refl
