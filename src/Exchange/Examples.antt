-- ===== src/Exchange/Examples.antt =====
-- A file of two bytes that is uploaded and downloaded.
use mathlib.Core.Path.{subst, ◌∙◌}
use mega_basterd_cli.Prelude.{
  true, some, [], ◌∷◌, ◌++◌, ◌≡◌, refl, sym, ap, arith, inl, inr, replicate, Result, ok,
}
use mega_basterd_cli.Chunks.{iter_chunks, first_chunks}
use mega_basterd_cli.State.Hex.{Bytes}
use mega_basterd_cli.State.Model.{get_chunk_mac, mac_at}
use mega_basterd_cli.State.Sound.{decoded-hex}
use mega_basterd_cli.State.Store.{absent, load_state, clear_against}
use mega_basterd_cli.Crypto.Base64.{b64_url_decode-encode, b64_url_encode}
use mega_basterd_cli.Crypto.Plain.{plain, plain-IsStream, plain-IsCounter}
use mega_basterd_cli.Transfer.Session.{Fault, Session}
use mega_basterd_cli.Transfer.Round.{Round, begins, returns}
use mega_basterd_cli.Transfer.Run.{finish}
use mega_basterd_cli.Transfer.Run.Fresh.{StartsFresh}
use mega_basterd_cli.Transfer.Run.Whole.{all_returned}
use mega_basterd_cli.Transfer.Sample as Downloads
use mega_basterd_cli.Upload.Session.{Delivery, Request}
use mega_basterd_cli.Upload.Finish.{
  recorded_macs, finish_with, check_source, with_macs, finalize, finalize_with, after_register,
  conclude, discard_state, finish as finish_upload,
}
use mega_basterd_cli.Upload.Sample as Uploads
use mega_basterd_cli.Crypto.Wrap.{
  aes_cbc_encrypt, aes_cbc_decrypt, aes_key_wrap_encrypt, aes_key_wrap_decrypt, each_block,
}
use mega_basterd_cli.Crypto.Keys.{pack_file_key, pack_words, unpack_file_key}
use mega_basterd_cli.Crypto.Words.{a32_to_bytes, bytes_to_a32}
use mega_basterd_cli.Crypto.Mac.{
  combine_chunk_macs, combine_from, xor_bytes, condense_mac, fold_words,
}
use mega_basterd_cli.Crypto.Attributes.{encrypt_attributes}
use mega_basterd_cli.Upload.Identity.{identities_match, same_fields}
use mega_basterd_cli.Upload.Register.{
  register_node, register_with, send_request, take_result, wrap_file_key,
}
use mega_basterd_cli.State.Store.{clear_state, disk_guard}
use mega_basterd_cli.Exchange.{node_file_keys, decrypt_node_key, after_colon, file_keys}
use mega_basterd_cli.Exchange.Served.{Serves, UploadsFresh, uploaded_file-downloads}

-- The file key, which the plain cipher leaves as it is
abbrev file_key : Bytes
file_key = replicate 8 3 ++ 68 ∷ 71 ∷ replicate 6 5 ++ replicate 8 6 ++ 65 ∷ 66 ∷ replicate 6 0

abbrev request : Request
request = record {
  target_handle = "folder";
  upload_token = 116 ∷ [];
  encrypted_attrs = b64_url_encode (77 ∷ 69 ∷ 71 ∷ 65 ∷ 123 ∷ 125 ∷ replicate 10 0);
  wrapped_key = b64_url_encode file_key;
}

macs :
    recorded_macs Uploads.ended.state (iter_chunks 2)
    ≡ some (some ((65 ∷ 66 ∷ replicate 14 0) ∷ []))
unfolding recorded_macs iter_chunks first_chunks get_chunk_mac mac_at
macs = rw (decoded-hex (65 ∷ 66 ∷ replicate 14 0) (omega arith) refl) refl

registered :
    (finish_upload Uploads.run plain Uploads.material Uploads.ended).1.registered
    ≡ request ∷ Uploads.ended.registered
unfolding finish_upload finish_with check_source identities_match same_fields with_macs finalize
    finalize_with combine_chunk_macs combine_from xor_bytes condense_mac fold_words bytes_to_a32
    after_register register_node register_with encrypt_attributes pack_file_key pack_words
    a32_to_bytes aes_cbc_encrypt aes_key_wrap_encrypt each_block send_request take_result
    wrap_file_key conclude discard_state clear_state disk_guard clear_against
registered = rw macs refl

served : Serves "https://slot" Uploads.ended.delivered 2 Downloads.answer Downloads.only
served encrypted d accepted (inl same) u o =
    Downloads.answer-IsHonest encrypted accepted ∙ sym (ap (λ (x : Delivery). x.encrypted) same)
served encrypted d accepted (inr none) u o = absurd none

keys :
    node_file_keys plain (117 ∷ 58 ∷ request.wrapped_key) (replicate 16 3)
    ≡ some (replicate 16 5, replicate 8 6, 1094844416 ∷ 0 ∷ [])
unfolding node_file_keys decrypt_node_key after_colon aes_key_wrap_decrypt each_block
    aes_cbc_decrypt file_keys unpack_file_key bytes_to_a32 a32_to_bytes
keys = rw (b64_url_decode-encode file_key (omega arith)) refl

round :
    Round plain
      (replicate 16 5)
      (replicate 8 6)
      (Serves "https://slot" Uploads.ended.delivered 2)
      2
      (Downloads.only ∷ [])
      Downloads.begun
      Downloads.ended
round =
    subst
      (Round plain (replicate 16 5) (replicate 8 6)
        (Serves "https://slot" Uploads.ended.delivered 2) 2 (Downloads.only ∷ []) Downloads.begun)
      (ap (λ (x : Result Fault (Unit {0}) × Session). x.1) Downloads.fetched)
      (returns Downloads.only Downloads.answer served Downloads.planned
        (record { starts = refl; goes_on = λ i. refl })
        (ap (λ (x : Result Fault (Unit {0}) × Session). x.0) Downloads.fetched) begins)

-- Resuming is on, and there is no state file.
no_upload : UploadsFresh Uploads.run absent
unfolding load_state
no_upload = inr refl

no_download : StartsFresh Downloads.run absent
unfolding load_state
no_download = inr refl

uploaded_file-downloads_example :
    ((finish Downloads.run plain (all_returned (Downloads.only ∷ [])) Downloads.ended).0
      ≡ ok (record { size = 2; integrity_ok = true }))
    × (Downloads.ended.file ≡ 65 ∷ 66 ∷ [])
uploaded_file-downloads_example =
    uploaded_file-downloads plain Uploads.source Uploads.run Uploads.material Uploads.begun absent
      no_upload Uploads.begins Uploads.ready Uploads.ended Uploads.worked Uploads.result
      Uploads.returned request registered plain-IsStream plain-IsCounter (117 ∷ []) (refl, tt)
      Downloads.run keys refl refl absent Downloads.begun Downloads.ended (Downloads.only ∷ [])
      no_download Downloads.started round Downloads.every_chunk Downloads.saved_once
      Downloads.discarded
