-- ===== src/Upload/Registered.antt =====
-- What a finished upload of src/megabasterd_cli/core/uploader.py has registered: the token of the slot that
-- holds every chunk, and a key that verifies the file.
use mathlib.Core.Option.{some-injective}
use mathlib.Core.Path.{subst, ◌∙◌}
use mega_basterd_cli.Prelude.Options.{◌>>=◌}
use mega_basterd_cli.Prelude.{
  ℕ, true, Option, none, some, List, [], ◌∷◌, ◌≡◌, refl, sym, ap, arith, length, Bool-cases, inl,
  inr, Result, ok, err, continue, ◌≤◌, drop, length-drop, length-take,
}
use mega_basterd_cli.Json.{Json, Dict, of_dict}
use mega_basterd_cli.Chunks.{Chunk, iter_chunks}
use mega_basterd_cli.Chunks.Tiling.{iter_chunks-Tiles}
use mega_basterd_cli.Chunks.Apart.{In, Tiles-Within}
use mega_basterd_cli.State.Hex.{Bytes, AreBytes}
use mega_basterd_cli.Crypto.Primitives.{Primitives, IsCipher}
use mega_basterd_cli.Crypto.Base64.{b64_url_encode}
use mega_basterd_cli.Crypto.Mac.{
  combine_chunk_macs, condense_mac, condense_mac-combine_chunk_macs, chunk_mac-IsBlock, IsBlock,
}
use mega_basterd_cli.Integrity.{piece, macs_on_disk, compare_macs, same_mac, verify_file_on_disk}
use mega_basterd_cli.Upload.Session.{Request, Session}
use mega_basterd_cli.Upload.Register.{
  Failure, source_changed, source_gone, wrap_file_key, register_node,
}
use mega_basterd_cli.Crypto.Attributes.{encrypt_attributes}
use mega_basterd_cli.Upload.Run.{Run, UploadResult, Material}
use mega_basterd_cli.Upload.Finish.{
  recorded_macs, discard_state, after_register, finalize, finalize_with, with_macs, check_source,
  finish_with, finish,
}
use mega_basterd_cli.Upload.Identity.{identities_match}
use mega_basterd_cli.Upload.Recorded.{IsRecorded, IsAnswer, IsAt}
use mega_basterd_cli.Upload.Delivered.{slice-AreBytes}
use mega_basterd_cli.Upload.Sealed.{Opens, IsMade, macs_on_disk-recorded_macs, wrap_file_key-Opens}
use mega_basterd_cli.Upload.Sent.{register_with-Sends, after_register-ok}

-- One request was sent for the new node. Its token is the answer to a final chunk at the current slot,
-- which holds every chunk of the file, and the master key opens its key: the key and the nonce of the
-- upload, with a MAC that the source's bytes have.
pub record IsRegistered (lib : Primitives) (run : Run) (m : Material) (source : Bytes)
    (s t : Session) : Type 0 where
  pub request : Request
  pub log : t.registered ≡ request ∷ s.registered
  pub same_target : request.target_handle ≡ run.target
  pub token : IsAnswer lib m.key m.nonce source run.file_size s request.upload_token
  pub posted :
      (c : Chunk)
      → In c (iter_chunks run.file_size)
      → (answer : Bytes) × IsAt lib m.key m.nonce source s.upload_url s.delivered c answer
  pub mac_iv : List ℕ
  pub opens : Opens lib run.account.master_key m.key m.nonce mac_iv request.wrapped_key
  pub verified :
      verify_file_on_disk lib m.key m.nonce mac_iv (iter_chunks run.file_size) (some source)
      ≡ some true

-- What the run is given
pub record IsReady (lib : Primitives) (run : Run) (m : Material) (source : Bytes) : Type 0 where
  pub cipher : IsCipher lib
  pub master_fits : length run.account.master_key ≡ 16
  pub key_fits : length m.key ≡ 16
  pub key_bytes : AreBytes m.key
  pub nonce_fits : length m.nonce ≡ 8
  pub nonce_bytes : AreBytes m.nonce
  pub source_bytes : AreBytes source
  pub source_fits : length source ≡ run.file_size
  pub planned : run.all_chunks ≡ iter_chunks run.file_size

-- What only raises afterwards does not return.
raises :
    (f : Failure) (r : Result Failure (Unit {0}) × Session) (result : UploadResult)
    → (continue {E = Failure} {B = UploadResult}
        (λ (u : Unit {0}) (t : Session). (err f, t))
        r.0
        r.1).0
      ≡ ok result
    → ⊥
raises f (ok u, t) result e = ground arith
raises f (err g, t) result e = ground arith

module _ (lib : Primitives) (run : Run) (m : Material) (source : Bytes)
    (ready : IsReady lib run m source) (s : Session)
    (r : IsRecorded lib m.key m.nonce source run.file_size s) (result : UploadResult) where
  pub made :
      (c : Chunk) → In c (iter_chunks run.file_size) → IsMade lib m.key m.nonce source s.state c
  made c i =
      let w =
        Tiles-Within 0 0 run.file_size (iter_chunks run.file_size) c
          (iter_chunks-Tiles run.file_size) i in
      let rest : c.size ≤ length (drop c.offset source) =
        omega (arith, length-drop c.offset source, w.inside, ready.source_fits) in
      (
        length-take c.size (drop c.offset source) rest,
        λ mac e.
            let held = r.held c mac i e in
            let (other, other_made, block) =
              chunk_mac-IsBlock lib ready.cipher m.key ready.key_fits (piece source c) m.nonce
                (slice-AreBytes c.offset c.size source ready.source_bytes) ready.nonce_fits in
            (
              held.made,
              subst IsBlock (some-injective other mac (sym other_made ∙ held.made)) block,
            ),
      )

  -- The run of the last step, from the MACs
  pub finalize-runs :
      (token mac : Bytes) (macs : List Bytes) (mac_iv : List ℕ)
      → combine_chunk_macs lib macs m.key ≡ some mac
      → condense_mac mac ≡ some mac_iv
      → finalize run lib m token macs s
        ≡ after_register run
            (register_node lib run.account run.upload_name run.target m.key m.nonce mac_iv token s)
  unfolding finalize finalize_with
  finalize-runs token mac macs mac_iv c d =
      ap (λ (o : Option (List ℕ)). finalize_with run lib m token o s)
        (ap (λ (o : Option Bytes). o >>= condense_mac) c ∙ d)

  verified :
      (macs : List Bytes) (mac : Bytes) (low high : ℕ)
      → macs_on_disk lib m.key m.nonce source (iter_chunks run.file_size) ≡ some (some macs)
      → combine_chunk_macs lib macs m.key ≡ some mac
      → condense_mac mac ≡ some (low ∷ high ∷ [])
      → verify_file_on_disk lib m.key m.nonce
          (low ∷ high ∷ [])
          (iter_chunks run.file_size)
          (some source)
        ≡ some true
  unfolding verify_file_on_disk compare_macs same_mac
  verified macs mac low high d c e = rw (d, c, e) (ground arith)

  finalize-IsRegistered :
      (token : Bytes) (macs : List Bytes)
      → s.completion_token ≡ some token
      → recorded_macs s.state (iter_chunks run.file_size) ≡ some (some macs)
      → (finalize run lib m token macs s).0 ≡ ok result
      → IsRegistered lib run m source s (finalize run lib m token macs s).1
  unfolding register_node
  finalize-IsRegistered token macs t h e =
      let (disk, blocks, there) =
        macs_on_disk-recorded_macs lib m.key m.nonce source s.state (iter_chunks run.file_size) macs
          h made in
      let (mac, low, high, combined, condensed, words) =
        condense_mac-combine_chunk_macs lib ready.cipher m.key ready.key_fits macs blocks in
      let (wrapped, wraps, opens) =
        wrap_file_key-Opens lib run.account m.key m.nonce low high ready.cipher ready.master_fits
          ready.key_fits ready.key_bytes ready.nonce_fits ready.nonce_bytes words in
      let runs = finalize-runs token mac macs (low ∷ high ∷ []) combined condensed in
      let (handle, registered, log) =
        after_register-ok run
          (register_node lib run.account run.upload_name run.target m.key m.nonce (low ∷ high ∷ [])
            token s)
          result (sym (ap (λ p. p.0) runs) ∙ e) in
      let sends =
        register_with-Sends lib run.account run.target token m.key m.nonce (low ∷ high ∷ [])
          (encrypt_attributes lib run.account.dumps run.upload_name m.key)
          (wrap_file_key lib run.account m.key m.nonce (low ∷ high ∷ [])) handle s refl
          registered in
      record {
        request = sends.request;
        log = ap (λ p. p.1.registered) runs ∙ log ∙ sends.log;
        same_target = sends.same_target;
        token =
            subst (IsAnswer lib m.key m.nonce source run.file_size s) (sym sends.same_token)
              (r.answered token t);
        posted = λ c i.
            let (mac, e) = there c i in let held = r.held c mac i e in (held.answer, held.there);
        mac_iv = low ∷ high ∷ [];
        opens =
            subst (Opens lib run.account.master_key m.key m.nonce (low ∷ high ∷ []))
              (sym (
                sends.same_key
                ∙ ap b64_url_encode
                    (some-injective sends.wrapped wrapped (sym sends.wraps ∙ wraps))))
              opens;
        verified = verified macs mac low high disk combined condensed;
      }

  with_macs-IsRegistered :
      (token : Bytes) (macs : Option (Option (List Bytes)))
      → s.completion_token ≡ some token
      → recorded_macs s.state (iter_chunks run.file_size) ≡ macs
      → (with_macs run lib m token macs s).0 ≡ ok result
      → IsRegistered lib run m source s (with_macs run lib m token macs s).1
  unfolding with_macs
  with_macs-IsRegistered token none t h e = absurd (ground arith)
  with_macs-IsRegistered token (some none) t h e = absurd (ground arith)
  with_macs-IsRegistered token (some (some macs)) t h e = finalize-IsRegistered token macs t h e

  check_source-IsRegistered :
      (token : Bytes) (current : Option Dict)
      → s.completion_token ≡ some token
      → (check_source run lib m token current s).0 ≡ ok result
      → IsRegistered lib run m source s (check_source run lib m token current s).1
  unfolding check_source
  check_source-IsRegistered token none t e =
      absurd (raises source_gone (discard_state run s) result e)
  check_source-IsRegistered token (some current) t e =
      elim (Bool-cases
        (identities_match run.values (some (Json.obj (of_dict run.source_identity))) current)) [
          | inl same ↦ simp same (
              with_macs-IsRegistered token (recorded_macs s.state run.all_chunks) t
                (ap (recorded_macs s.state) (sym ready.planned)) (cc))
          | inr other ↦ absurd (raises source_changed (discard_state run s) result (cc))
        ]

  finish_with-IsRegistered :
      (token : Option Bytes)
      → s.completion_token ≡ token
      → (finish_with run lib m token s).0 ≡ ok result
      → IsRegistered lib run m source s (finish_with run lib m token s).1
  unfolding finish_with
  finish_with-IsRegistered none t e = absurd (ground arith)
  finish_with-IsRegistered (some token) t e =
      check_source-IsRegistered token run.current_identity t e

  -- An upload that returns has registered what it has posted.
  pub finish-IsRegistered :
      (finish run lib m s).0 ≡ ok result → IsRegistered lib run m source s (finish run lib m s).1
  unfolding finish
  finish-IsRegistered e = finish_with-IsRegistered s.completion_token refl e
