-- ===== src/Upload/Stepped.antt =====
-- What one attempt of src/megabasterd_cli/core/upload_transport.py does to the state, the token and the
-- endpoint.
use mathlib.Core.Option.{some-injective}
use mathlib.Core.Path.{subst, ◌∙◌}
use mega_basterd_cli.Prelude.{
  ℕ, String, ◌&&◌, Option, none, some, [], ◌≡◌, refl, sym, ap, arith, length, ◌==◌, Result, ok, err,
  Bool-cases, inl, inr, Bool,
}
use mega_basterd_cli.Chunks.{Chunk}
use mega_basterd_cli.State.Hex.{Bytes, AreBytes}
use mega_basterd_cli.State.Marks.{mark_chunk_done-Marked}
use mega_basterd_cli.Crypto.Primitives.{Primitives, IsCipher}
use mega_basterd_cli.Crypto.Mac.{chunk_mac, chunk_mac-IsBlock}
use mega_basterd_cli.Integrity.{piece}
use mega_basterd_cli.Proxy.{Selected, select}
use mega_basterd_cli.Transfer.Fetch.{ctr_offset_to_counter}
use mega_basterd_cli.Transfer.Alike.{Alike-refl}
use mega_basterd_cli.Upload.Session.{Fault, Reply, lost, answered, Attempt, Session}
use mega_basterd_cli.Upload.Post.{
  is_final_chunk, check_body, deliver, take_body, take_reply, with_proxy, post_chunk, encrypt_chunk,
  upload_chunk, read_bounded_bytes, max_upload_response_bytes, is_retired, report_success,
}
use mega_basterd_cli.Upload.Committed.{
  Same-refl, Stepped, Stepped-from, check_body-ok, commit_chunk-Committed, untouched, posted,
}

module _ (lib : Primitives) (cipher : IsCipher lib) (key nonce : Bytes) (env : Attempt) (c : Chunk)
    (bytes : AreBytes (piece env.source c)) where
  module _ (counter : ℕ) (mac : Bytes) (counted : ctr_offset_to_counter c.offset ≡ some counter)
      (made : chunk_mac lib (piece env.source c) key nonce ≡ some mac) (small : AreBytes mac)
      (fits : length mac ≡ 16) where
    abbrev encrypted : Bytes
    encrypted = lib.ctr_encrypt key nonce counter (piece env.source c)

    take_checked-Stepped :
        (picked : Option String) (o r : Result Fault Bytes) (s : Session)
        → check_body (is_final_chunk c s.state.total_size) r ≡ o
        → Stepped lib key nonce env.source env.stopped c s
            (take_body lib env c mac encrypted picked o s)
    unfolding take_body
    take_checked-Stepped picked (err e) r s h =
        untouched (λ e. absurd (cc))
          (record {
            same_url = refl;
            same_token = refl;
            same_log = refl;
            alike = Alike-refl s.state;
          })
    take_checked-Stepped picked (ok body) r s h =
        let (x, marked) = mark_chunk_done-Marked s.state c.index mac small fits in
        let after =
          commit_chunk-Committed lib env c mac body
            (report_success lib env picked (deliver lib env c encrypted body s)) x marked.runs in
        posted counter body mac x counted
          (check_body-ok (is_final_chunk c s.state.total_size) r body h).1 made marked after.alike
          after.same_url after.kept_token after.same_log

    take_reply-Stepped :
        (picked : Option String) (reply : Reply) (s : Session)
        → Stepped lib key nonce env.source env.stopped c s
            (take_reply lib env c mac encrypted picked reply s)
    unfolding take_reply
    take_reply-Stepped picked lost s =
        untouched (λ e. absurd (cc))
          (record {
            same_url = refl;
            same_token = refl;
            same_log = refl;
            alike = Alike-refl s.state;
          })
    take_reply-Stepped picked (answered status blocks whole) s =
        elim (Bool-cases (is_retired status)) [
          | inl e ↦ simp e (untouched (λ e. absurd (cc)) (Same-refl s))
          | inr e ↦ elim (Bool-cases (status == 200)) [
            | inl ok_status ↦
                simp (e, ok_status)
                  (take_checked-Stepped picked _
                    (read_bounded_bytes max_upload_response_bytes [] blocks whole) s refl)
            | inr bad ↦
                simp (e, bad)
                  (untouched (λ e. absurd (cc))
                    (record {
                      same_url = refl;
                      same_token = refl;
                      same_log = refl;
                      alike = Alike-refl s.state;
                    }))
          ]
        ]

    with_proxy-Stepped :
        (chosen : Selected) (s : Session)
        → Stepped lib key nonce env.source env.stopped c s
            (with_proxy lib env c mac encrypted chosen s)
    unfolding with_proxy
    with_proxy-Stepped (err e) s = untouched (λ e. absurd (cc)) (Same-refl s)
    with_proxy-Stepped (ok (proxies, picked)) s = take_reply-Stepped picked env.reply s

    -- The choice of the proxy changes the selector only.
    post_chunk-Stepped :
        (s : Session)
        → Stepped lib key nonce env.source env.stopped c s (post_chunk lib env c mac encrypted s)
    unfolding post_chunk
    post_chunk-Stepped s =
        Stepped-from lib key nonce env.source env.stopped c s (select env.moment s.selector).1 _ (
          with_proxy-Stepped (select env.moment s.selector).0
            (record s { selector = (select env.moment s.selector).1 }))

  encrypt_chunk-Stepped :
      (counter : Option ℕ) (mac : Option Bytes) (s : Session)
      → ctr_offset_to_counter c.offset ≡ counter
      → chunk_mac lib (piece env.source c) key nonce ≡ mac
      → Stepped lib key nonce env.source env.stopped c s
          (encrypt_chunk lib env c key nonce (piece env.source c) mac counter s)
  unfolding encrypt_chunk
  encrypt_chunk-Stepped counter none s h m = untouched (λ e. absurd (cc)) (Same-refl s)
  encrypt_chunk-Stepped none (some mac) s h m = untouched (λ e. absurd (cc)) (Same-refl s)
  encrypt_chunk-Stepped (some counter) (some mac) s h m =
      elim (Bool-cases (length key == 16 && length nonce == 8)) [
        | inr e ↦ simp e (untouched (λ e. absurd (cc)) (Same-refl s))
        | inl e ↦
            let (made_mac, made, (fits, small)) =
              chunk_mac-IsBlock lib cipher key (ground (arith, e)) (piece env.source c) nonce bytes
                (ground (arith, e)) in
            let same : made_mac ≡ mac = some-injective made_mac mac (sym made ∙ m) in
            simp e (
              post_chunk-Stepped counter mac h m (subst AreBytes same small)
                (sym (ap length same) ∙ fits) s)
      ]

  -- Whatever the answer is, an attempt leaves the slot and the chunks alone, or has posted the chunk.
  pub upload_chunk-Stepped :
      (s : Session)
      → Stepped lib key nonce env.source env.stopped c s (upload_chunk lib env c key nonce s)
  unfolding upload_chunk
  upload_chunk-Stepped s = elim (Bool-cases env.stopped) [
    | inl e ↦ simp e (untouched (λ r. refl) (Same-refl s))
    | inr e ↦ elim (Bool-cases (length (piece env.source c) == c.size)) [
      | inr bad ↦ simp (e, bad) (untouched (λ e. absurd (cc)) (Same-refl s))
      | inl fits ↦
          simp (e, fits)
            (subst
              (λ (b : Bool). Stepped lib key nonce env.source b c s (
                encrypt_chunk lib env c key nonce (piece env.source c)
                  (chunk_mac lib (piece env.source c) key nonce) (ctr_offset_to_counter c.offset)
                  s))
              e
              (encrypt_chunk-Stepped (ctr_offset_to_counter c.offset)
                (chunk_mac lib (piece env.source c) key nonce) s refl refl))
    ]
  ]
