-- ===== src/Transfer/Run/Fresh.antt =====
-- A download that starts without a resume state, from the claimed destination to the result
-- (`_run_claimed_download` of src/megabasterd_cli/core/downloader.py).
use mathlib.Core.Path.{subst}
use mega_basterd_cli.Prelude.{
  ℕ, true, false, Option, none, some, List, ◌≡◌, sym, ap, arith, inl, inr, length, length-replicate,
  Result, ok, err, Bool-cases, ltb, replicate, ◌-◌, ==→≡, ◌⊎◌,
}
use mega_basterd_cli.Chunks.{Chunk, iter_chunks}
use mega_basterd_cli.Chunks.Apart.{In}
use mega_basterd_cli.State.Hex.{Bytes}
use mega_basterd_cli.State.Model.{TransferState, Error, is_chunk_done}
use mega_basterd_cli.State.Store.{File, load_state, clear_state, unrecognized_state_version}
use mega_basterd_cli.Json.{ℤ}
use mega_basterd_cli.Crypto.Primitives.{Primitives, IsCipher, IsStream}
use mega_basterd_cli.Resuming.{is_of_size}
use mega_basterd_cli.Transfer.Session.{Session, Fault}
use mega_basterd_cli.Transfer.Vouched.{HasMac, IsVouched, Attempts, Attempts-IsVouched}
use mega_basterd_cli.Transfer.Run.{
  Run, Failure, start_cleared, start_version, prepare_with, DownloadResult, fresh_state,
  start_fresh, resume_or_fresh, load_or_fresh, preallocate, open_session, prepare, finish, size_of,
  already, contents,
}
use mega_basterd_cli.Transfer.Run.Gate.{Finished, finish-Finished}

ok-eq : {A : Type 0} (a b : A) → ◌≡◌ {A = Result Failure A} (ok a) (ok b) → a ≡ b
ok-eq a b e = cc

module _ (run : Run) where
  contents-length :
      (existing : Option Bytes) (n : ℕ)
      → is_of_size (size_of run existing) n ≡ true
      → length (contents run existing) ≡ n
  contents-length none n e = absurd (ground arith)
  contents-length (some file) n e = ==→≡ (length file) n e

  start_cleared-ok :
      (o : Result Error (Unit {0}) × File) (state : TransferState)
      → (start_cleared run o).0 ≡ ok state
      → state ≡ fresh_state run.target
  unfolding start_cleared
  start_cleared-ok (ok u, f) state e = cc
  start_cleared-ok (err x, f) state e = absurd (ground arith)

  start_version-ok :
      (v : Result Error (Option ℤ)) (f : File) (state : TransferState)
      → (start_version run v f).0 ≡ ok state
      → state ≡ fresh_state run.target
  unfolding start_version
  start_version-ok (err x) f state e = absurd (ground arith)
  start_version-ok (ok (some v)) f state e = absurd (ground arith)
  start_version-ok (ok none) f state e = start_cleared-ok (clear_state run.clearing f) state e

  start_fresh-ok :
      (f : File) (state : TransferState)
      → (start_fresh run f).0 ≡ ok state
      → state ≡ fresh_state run.target
  unfolding start_fresh
  start_fresh-ok f state e = start_version-ok (unrecognized_state_version f) f state e

  -- Resuming is off, or there is no state that a load answers.
  abbrev pub StartsFresh : File → Type 0
  StartsFresh f = (run.target.auto_resume ≡ false) ⊎ ((load_state run.loading f).0 ≡ ok none)

  load_or_fresh-ok :
      (f : File) (state : TransferState)
      → StartsFresh f
      → (load_or_fresh run f).0 ≡ ok state
      → state ≡ fresh_state run.target
  unfolding load_or_fresh resume_or_fresh
  load_or_fresh-ok f state (inl off) e = start_fresh-ok f state (ground (arith, off, e))
  load_or_fresh-ok f state (inr nothing) e = elim (Bool-cases run.target.auto_resume) [
    | inl on ↦ start_fresh-ok (load_state run.loading f).1 state (ground (arith, on, nothing, e))
    | inr off ↦ start_fresh-ok f state (ground (arith, off, e))
  ]

  preallocate-length :
      (existing : Option Bytes) (file : Bytes)
      → preallocate run existing ≡ ok file
      → length file ≡ run.target.file_size
  unfolding preallocate
  preallocate-length existing file e =
      elim (Bool-cases (is_of_size (size_of run existing) run.target.file_size)) [
        | inl h ↦
            let same : file ≡ contents run existing = ground (arith, h, e) in
            rw same (contents-length existing run.target.file_size h)
        | inr h ↦ elim (Bool-cases (ltb run.free (run.target.file_size - already run existing))) [
          | inl k ↦ absurd (ground (arith, h, k, e))
          | inr k ↦
              let same : file ≡ replicate run.target.file_size 0 = ground (arith, h, k, e) in
              rw same (length-replicate run.target.file_size 0)
        ]
      ]

  open_session-ok :
      (state : TransferState) (f : File) (o : Result Failure Bytes) (s : Session)
      → open_session run state f o ≡ ok s
      → (s.state ≡ state) × (o ≡ ok s.file)
  unfolding open_session
  open_session-ok state f (err x) s e = absurd (ground arith)
  open_session-ok state f (ok file) s e =
      let same = ok-eq _ s e in
      (sym (ap (λ (x : Session). x.state) same), ap (λ (x : Session). ok x.file) same)

  prepare_with-ok :
      (o : Result Failure TransferState × File) (s : Session)
      → prepare_with run o ≡ ok s
      → (o.0 ≡ ok s.state) × (length s.file ≡ run.target.file_size)
  unfolding prepare_with
  prepare_with-ok (err x, f) s e = absurd (ground arith)
  prepare_with-ok (ok state, f) s e =
      let (same, file) = open_session-ok state f (preallocate run run.existing) s e in
      (ap ok (sym same), preallocate-length run.existing s.file file)

  -- A download without resumption starts with nothing done.
  pub prepare-nothing-done :
      (f : File) (s : Session)
      → StartsFresh f
      → prepare run f ≡ ok s
      → (length s.file ≡ run.target.file_size)
        × (s.state.total_size ≡ run.target.file_size)
        × ((j : ℕ) → is_chunk_done s.state j ≡ false)
  unfolding prepare is_chunk_done
  prepare-nothing-done f s off e =
      let (started, size) = prepare_with-ok (load_or_fresh run f) s e in
      let same = load_or_fresh-ok f s.state off started in
      (
        size,
        ap (λ (x : TransferState). x.total_size) same,
        λ j. ap (λ (x : TransferState). is_chunk_done x j) same,
      )

  prepare-IsVouched :
      (lib : Primitives) (key nonce : Bytes) (f : File) (s : Session)
      → StartsFresh f
      → prepare run f ≡ ok s
      → IsVouched lib key nonce run.target.file_size s
  prepare-IsVouched lib key nonce f s off e =
      let (size, sized, never) = prepare-nothing-done f s off e in
      record {
        full = size;
        sized = sized;
        vouched = λ c i h. absurd (ground (arith, never c.index, h));
      }

-- A download that starts with resuming off, or without a resume state that the load answers, and with
-- the plan of the file's size, and that returns has, after any attempts of its workers, a
-- file of the declared size on which every chunk of the plan has the MAC that the state records, and
-- which has passed the check of integrity where that is on.
pub fresh_download :
    (run : Run) (lib : Primitives)
    → IsCipher lib
    → IsStream lib
    → (f : File) (s t : Session) (results : List (Result Fault (Unit {0}))) (r : DownloadResult)
    → StartsFresh run f
    → run.target.all_chunks ≡ iter_chunks run.target.file_size
    → prepare run f ≡ ok s
    → Attempts lib run.target.aes_key run.target.nonce run.target.file_size s t
    → (finish run lib results t).0 ≡ ok r
    → (length t.file ≡ run.target.file_size)
      × ((c : Chunk)
          → In c (iter_chunks run.target.file_size)
          → HasMac lib run.target.aes_key run.target.nonce t.file t.state c)
      × Finished run lib t r
fresh_download run lib cipher stream f s t results r off plan started work returned =
    let key = run.target.aes_key in
    let nonce = run.target.nonce in
    let end =
      Attempts-IsVouched lib key nonce cipher stream run.target.file_size s t work
        (prepare-IsVouched run lib key nonce f s off started) in
    let done = finish-Finished run lib results t r returned in
    (end.full, λ c i. end.vouched c i (done.covered c (subst (In c) (sym plan) i)), done)
