-- ===== src/Transfer/Stepped.antt =====
-- What one attempt of src/megabasterd_cli/core/download_transport.py does to the file and the state.
use mega_basterd_cli.Prelude.{
  ◌≢◌, ℕ, String, Option, none, some, [], ◌≡◌, refl, ap, arith, continue, length, ◌==◌, Result, ok,
  err, Bool-cases, inl, inr, ==→≡, ◌&&◌, continue, ◌∙◌,
}
use mega_basterd_cli.Chunks.{Chunk}
use mega_basterd_cli.State.Hex.{Bytes, AreBytes}
use mega_basterd_cli.State.Model.{TransferState}
use mega_basterd_cli.State.Marks.{Marked, mark_chunk_done-Marked}
use mega_basterd_cli.Crypto.Primitives.{Primitives, IsCipher, IsStream}
use mega_basterd_cli.Crypto.Mac.{chunk_mac, chunk_mac-IsBlock}
use mathlib.Core.Path.{subst, ◌∙◌}
use mega_basterd_cli.Proxy.{Selected, select}
use mega_basterd_cli.Transfer.Session.{
  Attempt, Session, Fault, Method, Reply, Break, dropped, other, lost, answered, write_at,
}
use mega_basterd_cli.Transfer.Alike.{Alike, Alike-refl, commit_chunk-Alike}
use mega_basterd_cli.Transfer.Answered.{
  IsRunning, Accepted, read_blocks-full, read_blocks-stopped, take_status-ok, take_status-same,
}
use mega_basterd_cli.Transfer.Fetch.{
  breaks, Body, write_chunk, write_mac, decrypt_chunk, ctr_offset_to_counter, take_body,
  read_blocks, take_status, take_reply, with_proxy, fetch_chunk,
}

abbrev Outcome : Type 0
Outcome = Result Fault (Unit {0}) × Session

module _ (lib : Primitives) (key nonce : Bytes) where
  -- Either nothing happened to the file and to the chunks, because the worker was stopped or has raised,
  -- or the chunk of an accepted answer was written and marked with the MAC of what was written.
  pub data Stepped (env : Attempt) (c : Chunk) (s : Session) (r : Outcome) : Type 0 where
    untouched :
        (IsRunning env → r.0 ≢ ok tt)
        → r.1.file ≡ s.file
        → Alike s.state r.1.state
        → Stepped env c s r
    written :
        (counter : ℕ) (encrypted plaintext mac : Bytes) (t : TransferState)
        → Accepted env c s.state.total_size encrypted
        → ctr_offset_to_counter c.offset ≡ some counter
        → plaintext ≡ lib.ctr_decrypt key nonce counter encrypted
        → length plaintext ≡ c.size
        → chunk_mac lib plaintext key nonce ≡ some mac
        → r.1.file ≡ write_at c.offset plaintext s.file
        → Marked s.state c.index mac t
        → Alike t r.1.state
        → Stepped env c s r

module _ (lib : Primitives) (cipher : IsCipher lib) (stream : IsStream lib) (key nonce : Bytes)
    (env : Attempt) (c : Chunk) where
  write_chunk-Stepped :
      (counter : ℕ) (encrypted plaintext mac : Bytes) (picked : Option String) (s : Session)
      → Accepted env c s.state.total_size encrypted
      → ctr_offset_to_counter c.offset ≡ some counter
      → plaintext ≡ lib.ctr_decrypt key nonce counter encrypted
      → length plaintext ≡ c.size
      → chunk_mac lib plaintext key nonce ≡ some mac
      → AreBytes mac
      → length mac ≡ 16
      → Stepped lib key nonce env c s (write_chunk lib env c plaintext mac picked s)
  unfolding write_chunk
  write_chunk-Stepped counter encrypted plaintext mac picked s accepted counted opened l m b size =
      elim (Bool-cases env.write_succeeds) [
        | inr e ↦ rw e (untouched (λ running h. absurd (ground arith)) refl (Alike-refl s.state))
        | inl e ↦
            let (t, marked) = mark_chunk_done-Marked s.state c.index mac b size in
            let after =
              commit_chunk-Alike lib env c mac picked
                (record s { file = write_at c.offset plaintext s.file }) t marked.runs in
            simp e (
              written counter encrypted plaintext mac t accepted counted opened l m after.0 marked
                after.1)
      ]

  decrypt_chunk-Stepped :
      (encrypted : Bytes) (picked : Option String) (counter : Option ℕ) (s : Session)
      → Accepted env c s.state.total_size encrypted
      → ctr_offset_to_counter c.offset ≡ counter
      → length encrypted ≡ c.size
      → Stepped lib key nonce env c s (decrypt_chunk lib env c key nonce encrypted picked counter s)
  unfolding decrypt_chunk write_mac
  decrypt_chunk-Stepped encrypted picked none s accepted counted l =
      untouched (λ running h. absurd (ground arith)) refl (Alike-refl s.state)
  decrypt_chunk-Stepped encrypted picked (some counter) s accepted counted l =
      elim (Bool-cases (length key == 16 && length nonce == 8)) [
        | inr e ↦ rw e (untouched (λ running h. absurd (ground arith)) refl (Alike-refl s.state))
        | inl e ↦
            let plaintext = lib.ctr_decrypt key nonce counter encrypted in
            let (size, bytes) = stream key nonce encrypted counter in
            let (mac, made, (fits, small)) =
              chunk_mac-IsBlock lib cipher key (ground (arith, e)) plaintext nonce bytes
                (ground (arith, e)) in
            rw (e, made)
              (write_chunk-Stepped counter encrypted plaintext mac picked s accepted counted refl
                (omega (arith, size)) made small fits)
      ]

  breaks-Stepped :
      (picked : Option String) (b : Break) (s : Session)
      → Stepped lib key nonce env c s (breaks lib env picked b s)
  breaks-Stepped picked dropped s =
      untouched (λ running h. absurd (ground arith)) refl (Alike-refl s.state)
  breaks-Stepped picked other s =
      untouched (λ running h. absurd (ground arith)) refl (Alike-refl s.state)

  take_body-Stepped :
      (picked : Option String) (body : Body) (s : Session)
      → ((encrypted : Bytes)
          → body ≡ Body.full encrypted
          → Accepted env c s.state.total_size encrypted)
      → (IsRunning env → body ≢ Body.stopped)
      → Stepped lib key nonce env c s (take_body lib env c key nonce picked body s)
  unfolding take_body
  take_body-Stepped picked Body.stopped s accepted goes_on =
      untouched (λ running h. goes_on running refl) refl (Alike-refl s.state)
  take_body-Stepped picked Body.too_long s accepted goes_on =
      untouched (λ running h. absurd (ground arith)) refl (Alike-refl s.state)
  take_body-Stepped picked (Body.broken b) s accepted goes_on = breaks-Stepped picked b s
  take_body-Stepped picked (Body.full encrypted) s accepted goes_on =
      elim (Bool-cases (length encrypted == c.size)) [
        | inl e ↦ rw e (
            decrypt_chunk-Stepped encrypted picked (ctr_offset_to_counter c.offset) s
              (accepted encrypted refl) refl (==→≡ (length encrypted) c.size e))
        | inr e ↦ rw e (untouched (λ running h. absurd (ground arith)) refl (Alike-refl s.state))
      ]

  Stepped-from :
      (s t : Session) (r : Outcome)
      → t.file ≡ s.file
      → t.state ≡ s.state
      → Stepped lib key nonce env c t r
      → Stepped lib key nonce env c s r
  Stepped-from s t r f e (untouched n g a) =
      untouched n (g ∙ f) (subst (λ (x : TransferState). Alike x r.1.state) e a)
  Stepped-from s t r f e (written counter encrypted plaintext mac x accepted counted p l m g d a) =
      written counter encrypted plaintext mac x
        (subst (λ (y : TransferState). Accepted env c y.total_size encrypted) e accepted) counted p
        l m (g ∙ ap (write_at c.offset plaintext) f)
        (subst (λ (y : TransferState). Marked y c.index mac x) e d) a

  -- What follows a step that leaves the file and the state, or that raises
  continue-Stepped :
      (k : Method (Unit {0})) (s : Session) (r : Outcome)
      → r.1.file ≡ s.file
      → r.1.state ≡ s.state
      → ((t : Session) → r.0 ≡ ok tt → t.state ≡ s.state → Stepped lib key nonce env c t (k t))
      → Stepped lib key nonce env c s (continue (λ u. k) r.0 r.1)
  continue-Stepped k s (err e, t) f g rest =
      Stepped-from s t (err e, t) f g
        (untouched (λ running h. absurd (ground arith)) refl (Alike-refl t.state))
  continue-Stepped k s (ok u, t) f g rest = Stepped-from s t (k t) f g (rest t refl g)

  take_reply-Stepped :
      (seen : ℕ) (picked : Option String) (reply : Reply) (s : Session)
      → env.reply ≡ reply
      → Stepped lib key nonce env c s (take_reply lib env c key nonce seen picked reply s)
  unfolding take_reply
  take_reply-Stepped seen picked (lost b) s same = breaks-Stepped picked b s
  take_reply-Stepped seen picked (answered status headers blocks end) s same =
      let (f, e) = take_status-same lib env c status headers seen picked s in
      let body = read_blocks lib env c.size 0 [] blocks end in
      continue-Stepped (take_body lib env c key nonce picked body) s
        (take_status lib env c status headers seen picked s) f e
        (λ t passed at.
          take_body-Stepped picked body t
            (λ encrypted full.
              let (complete, read) =
                read_blocks-full lib env c.size 0 [] blocks end encrypted full in
              record {
                status = status;
                headers = headers;
                blocks = blocks;
                answer = same ∙ ap (answered status headers blocks) complete;
                ranged = rw at (take_status-ok lib env c status headers seen picked s passed);
                read = read;
              })
            (read_blocks-stopped lib env c.size 0 [] blocks end))

  with_proxy-Stepped :
      (seen : ℕ) (chosen : Selected) (s : Session)
      → Stepped lib key nonce env c s (with_proxy lib env c key nonce seen chosen s)
  unfolding with_proxy
  with_proxy-Stepped seen (err e) s =
      untouched (λ running h. absurd (ground arith)) refl (Alike-refl s.state)
  with_proxy-Stepped seen (ok (proxies, picked)) s = take_reply-Stepped seen picked env.reply s refl

  -- Whatever the answer is, an attempt leaves the file and the chunks alone, and then was stopped or
  -- raises, or has written the chunk's bytes at its place and marked it with their MAC.
  pub fetch_chunk-Stepped :
      (s : Session) → Stepped lib key nonce env c s (fetch_chunk lib env c key nonce s)
  unfolding fetch_chunk
  fetch_chunk-Stepped s = elim (Bool-cases env.stopped) [
    | inl e ↦ rw e (
        untouched (λ running h. absurd (ground (arith, running.starts, e))) refl
          (Alike-refl s.state))
    | inr e ↦ simp e (
        Stepped-from s (record s { selector = (select env.moment s.selector).1 }) _ refl refl
          (with_proxy-Stepped s.generation (select env.moment s.selector).0
            (record s { selector = (select env.moment s.selector).1 })))
  ]
