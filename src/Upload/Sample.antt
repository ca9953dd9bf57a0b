-- ===== src/Upload/Sample.antt =====
-- An upload of two bytes, from its start to its result.
use mega_basterd_cli.Upload.Empty.{
  post_at, post_empty, empty_proxy, empty_reply, post_again, empty_body, with_token, check_empty,
  register_empty,
}
use mega_basterd_cli.Crypto.Mac.{combine_chunk_macs, combine_from, condense_mac, fold_words}
use mega_basterd_cli.Crypto.Base64.{b64_url_encode}
use mega_basterd_cli.Crypto.Keys.{pack_file_key, pack_words}
use mega_basterd_cli.Crypto.Words.{a32_to_bytes, bytes_to_a32}
use mega_basterd_cli.Crypto.Wrap.{aes_cbc_encrypt, aes_key_wrap_encrypt, each_block}
use mega_basterd_cli.Upload.Register.{
  register_node, register_with, send_request, take_result, wrap_file_key,
}
use mega_basterd_cli.Crypto.Attributes.{encrypt_attributes}
use mega_basterd_cli.Upload.Empty.{upload_empty_file}
use mega_basterd_cli.Upload.Empty.Posted.{IsKeyed}
use mathlib.Core.Path.{subst}
use mega_basterd_cli.Crypto.Mac.{chunk_mac}
use mega_basterd_cli.Transfer.Fetch.{ctr_offset_to_counter}
use mega_basterd_cli.Proxy.{select, selector_report_success}
use mega_basterd_cli.Upload.Post.{
  encrypt_chunk, post_chunk, with_proxy, take_reply, take_body, check_body, read_bounded_bytes,
  commit_chunk, save_periodically,
}
use mega_basterd_cli.State.Model.{mark_chunk_done, is_chunk_done, put_mac, snapshot_state, mac_at}
use mega_basterd_cli.State.Store.{load_state, clear_against, save_state}
use mega_basterd_cli.State.Validate.{read_chunks, read_macs, validate_metadata, validate_state_dict}
use mega_basterd_cli.Upload.Run.{
  resume_or_fresh, start_loaded, start, start_version, start_cleared, with_slot,
}
use mega_basterd_cli.Upload.Session.{set_item, Fault}
use mega_basterd_cli.State.Hex.{hex}
use mega_basterd_cli.State.Sound.{decoded-hex}
use mega_basterd_cli.Prelude.{
  sym, Result, ap, true, false, none, some, [], ◌∷◌, ◌≡◌, refl, inl, inr, arith, replicate, ok,
}
use mega_basterd_cli.Json.{Json, pos, Dict, of_dict, of_list}
use mega_basterd_cli.Chunks.{Chunk, iter_chunks, first_chunks}
use mega_basterd_cli.Chunks.Apart.{In}
use mega_basterd_cli.State.Hex.{Bytes, hex}
use mega_basterd_cli.State.Model.{get_chunk_mac, TransferState}
use mega_basterd_cli.State.Validate.{Texts}
use mega_basterd_cli.State.Store.{
  Disk, absent, opened, replaced, clear_state, unrecognized_state_version, disk_guard,
  flush_transferred_data,
}
use mega_basterd_cli.Crypto.Plain.{plain, plain-IsCipher}
use mega_basterd_cli.Upload.Session.{Attempt, Session, answered, set_item}
use mega_basterd_cli.Upload.Post.{upload_chunk}
use mega_basterd_cli.Upload.Identity.{identities_match, same_fields}
use mega_basterd_cli.Upload.Register.{Account}
use mega_basterd_cli.Upload.Run.{
  Run, UploadResult, Material, fresh_state, fresh_material, open_session, start_fresh,
}
use mega_basterd_cli.Upload.Finish.{finish}
use mega_basterd_cli.Upload.Recorded.{IsRecorded}
use mega_basterd_cli.Upload.Delivered.{Uploads, here, post, Uploads-IsRecorded}
use mega_basterd_cli.Upload.Registered.{IsReady}
use mega_basterd_cli.Upload.Returned.{IsEnding, finish-returns}
use mega_basterd_cli.Upload.Round.{Round}
use mathlib.Core.Option.{some-injective}

abbrev pub texts : Texts
texts = record {
  parse_int = λ s. some (pos 2);
  print_int = λ n. "0";
  is_safe_target = λ s. true;
  hostname = λ s. s;
  endswith = λ s t. false;
}

abbrev pub disk : Disk
disk = record {
  texts = texts;
  parent_made = true;
  opens = opened;
  fsync_succeeds = true;
  lock_free = true;
  staged = true;
  replace = λ k. replaced;
  unlink_succeeds = true;
  preserved = true;
}

abbrev pub account : Account
account = record {
  master_key = replicate 16 3;
  dumps = λ name. 123 ∷ 125 ∷ [];
  complete_upload = λ request. some (
      Json.obj (
        of_dict (
          ("f", Json.arr (of_list (Json.obj (of_dict (("h", Json.str "handle") ∷ [])) ∷ [])))
          ∷ [])));
}

abbrev pub source : Bytes
source = 65 ∷ 66 ∷ []

abbrev pub identity : Dict
identity = ("v", Json.int (pos 2)) ∷ []

abbrev pub run : Run
run = record {
  values = record { equals = λ a b. true; is_true = λ a. false };
  account = account;
  source = "a.bin";
  state_path = "a.mbstate";
  upload_name = "a.bin";
  target = "folder";
  file_size = 2;
  all_chunks = iter_chunks 2;
  aes_key = replicate 16 5;
  nonce = replicate 8 6;
  source_identity = identity;
  current_identity = some identity;
  slot = some (Json.obj (of_dict (("p", Json.str "https://slot") ∷ [])));
  auto_resume = true;
  loading = disk;
  clearing = disk;
  saving = disk;
  selector = record { pool = none; static = none; force = false };
}

abbrev pub material : Material
material = fresh_material run "https://slot"

abbrev pub begun : Session
begun = open_session run (fresh_state run "https://slot") material absent

abbrev pub whole : Chunk
whole = record { index = 0; offset = 0; size = 2 }

abbrev pub attempt : Attempt
attempt = record {
  moment = record { now = 1; choose = λ l. 0 };
  disk = record disk { lock_free = false };
  stopped = false;
  source = source;
  reply = answered 200 ((116 ∷ []) ∷ []) true;
}

abbrev pub mac : Bytes
mac = 65 ∷ 66 ∷ replicate 14 0

abbrev pub recorded : TransferState
recorded = record begun.state {
  completed_chunks = 0 ∷ [];
  chunk_macs = (0, hex mac) ∷ [];
  metadata = set_item "completion_token" (Json.str (hex (116 ∷ []))) begun.state.metadata;
  revision = 1;
}

abbrev pub ended : Session
ended = record begun {
  state = recorded;
  bytes_done = 2;
  chunks_done = 1;
  completion_token = some (116 ∷ []);
  delivered =
      record { url = "https://slot"; offset = 0; encrypted = source; token = 116 ∷ [] } ∷ [];
}

posted : upload_chunk plain attempt whole material.key material.nonce begun ≡ (ok tt, ended)
unfolding upload_chunk encrypt_chunk chunk_mac ctr_offset_to_counter post_chunk with_proxy select
    take_reply take_body check_body read_bounded_bytes commit_chunk mark_chunk_done
    save_periodically iter_chunks first_chunks is_chunk_done save_state selector_report_success
    put_mac snapshot_state flush_transferred_data read_chunks read_macs validate_metadata
    validate_state_dict
posted = refl

pub ready : IsReady plain run material source
ready = record {
  cipher = plain-IsCipher;
  master_fits = refl;
  key_fits = refl;
  key_bytes = omega arith;
  nonce_fits = refl;
  nonce_bytes = omega arith;
  source_bytes = omega arith;
  source_fits = refl;
  planned = refl;
}

pub worked : Uploads plain material.key material.nonce source 2 begun ended
unfolding iter_chunks first_chunks
worked =
    subst (Uploads plain material.key material.nonce source 2 begun)
      (ap (λ (p : Result Fault (Unit {0}) × Session). p.1) posted)
      (post whole attempt refl (inl refl) here)

pub begun-IsRecorded : IsRecorded plain material.key material.nonce source 2 begun
unfolding get_chunk_mac mac_at
begun-IsRecorded = record {
  sized = refl;
  held = λ c mac i e. absurd (cc);
  answered = λ token e. absurd (cc);
}

pub started : (start_fresh run absent).0 ≡ ok (material, begun)
unfolding start_fresh start_version unrecognized_state_version start_cleared clear_state disk_guard
    with_slot clear_against
started = refl

pub begins : (start run absent).0 ≡ ok (material, begun)
unfolding start start_loaded start_fresh load_state start_version resume_or_fresh
    unrecognized_state_version
begins = started

abbrev pub result : UploadResult
result = record { file_handle = "handle"; name = "a.bin"; size = 2 }

ended-IsRecorded : IsRecorded plain material.key material.nonce source 2 ended
ended-IsRecorded =
    Uploads-IsRecorded plain material.key material.nonce source plain-IsCipher (omega arith) 2 begun
      ended worked begun-IsRecorded

recorded_all :
    (c : Chunk)
    → In c (iter_chunks 2)
    → (m : Bytes) × (get_chunk_mac ended.state c.index ≡ some (some m))
unfolding iter_chunks first_chunks get_chunk_mac mac_at
recorded_all c (inl e) = (
  mac,
  subst (λ (d : Chunk). get_chunk_mac ended.state d.index ≡ some (some mac)) (sym e)
      (decoded-hex mac (omega arith) refl),
)
recorded_all c (inr i) = absurd i

matching : identities_match run.values (some (Json.obj (of_dict identity))) identity ≡ true
unfolding identities_match same_fields
matching = refl

cleared : (clear_state disk absent).0 ≡ ok tt
unfolding clear_state disk_guard clear_against
cleared = refl

ending : IsEnding run ended (116 ∷ []) identity "handle"
ending = record {
  ascii = refl;
  unchanged = refl;
  matching = matching;
  dumped = omega arith;
  answers = λ request. refl;
  cleared = cleared;
}

pub returned : (finish run plain material ended).0 ≡ ok result
returned =
    finish-returns plain run material source ready ended ended-IsRecorded (116 ∷ []) identity
      "handle" refl recorded_all ending

pub end_of_token :
    (token : Bytes)
    → ended.completion_token ≡ some token
    → IsEnding run ended token identity "handle"
end_of_token token e =
    subst (λ (t : Bytes). IsEnding run ended t identity "handle")
      (some-injective (116 ∷ []) token e) ending

pub rounded : Round plain material.key material.nonce source 2 (whole ∷ []) begun ended
unfolding iter_chunks first_chunks
rounded =
    subst (Round plain material.key material.nonce source 2 (whole ∷ []) begun)
      (ap (λ (p : Result Fault (Unit {0}) × Session). p.1) posted)
      (Round.returns whole attempt refl (inl refl) refl
        (ap (λ (p : Result Fault (Unit {0}) × Session). p.0) posted) Round.begins)

pub all_rounded : (c : Chunk) → In c (iter_chunks 2) → In c (whole ∷ [])
unfolding iter_chunks first_chunks
all_rounded c i = i

abbrev pub empty_run : Run
empty_run = record run { file_size = 0; all_chunks = [] }

-- The first slot is retired, the second answers with a token.
abbrev pub retired : Attempt
retired = record attempt { reply = answered 404 [] true }

pub keyed : IsKeyed plain empty_run
keyed = record {
  cipher = plain-IsCipher;
  master_fits = refl;
  key_fits = refl;
  key_bytes = omega arith;
  nonce_fits = refl;
  nonce_bytes = omega arith;
}

pub empty_uploaded :
    (upload_empty_file plain empty_run retired empty_run.slot attempt begun).0
    ≡ ok (record { file_handle = "handle"; name = "a.bin"; size = 0 })
unfolding upload_empty_file post_at post_empty empty_proxy select empty_reply post_again empty_body
    read_bounded_bytes with_token check_empty identities_match same_fields register_empty
    combine_chunk_macs combine_from condense_mac fold_words b64_url_encode pack_file_key
    a32_to_bytes bytes_to_a32 aes_cbc_encrypt selector_report_success encrypt_attributes
    register_node register_with send_request take_result wrap_file_key aes_key_wrap_encrypt
    each_block pack_words
empty_uploaded = refl
