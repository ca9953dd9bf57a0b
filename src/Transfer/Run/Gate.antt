-- ===== src/Transfer/Run/Gate.antt =====
-- What `_run_claimed_download` of src/megabasterd_cli/core/downloader.py promises of a success.
use mega_basterd_cli.Prelude.{
  Bool, true, false, not, Option, none, some, List, [], ◌∷◌, ◌≡◌, refl, sym, ap, arith, inl, inr,
  keep_if, ◌∙◌, if◌then◌else◌, Result, ok, err, continue, ◌>>◌, Bool-cases,
}
use mega_basterd_cli.Chunks.{Chunk}
use mega_basterd_cli.Chunks.Apart.{In}
use mega_basterd_cli.State.Model.{TransferState, is_chunk_done, snapshot_state, Error}
use mega_basterd_cli.State.Store.{File, save_state}
use mega_basterd_cli.Crypto.Primitives.{Primitives}
use mega_basterd_cli.Integrity.{verify_file_on_disk}
use mega_basterd_cli.Transfer.Session.{Session, Fault}
use mega_basterd_cli.Transfer.Run.{
  Run, Failure, integrity_failed, cancelled, incomplete, chunk_failed, DownloadResult, Method,
  stored, pending, gather, save_snapshot, save_again, discard_state, check_integrity, conclude,
  by_verdict, by_missing, check_coverage, finish,
}

-- A sequence that succeeds succeeds in both steps.
continue-ok :
    {A B : Type 0} (k : Method B) (o : Result Failure A) (t : Session) (r : B)
    → (continue (λ u. k) o t).0 ≡ ok r
    → (u : A) × (o ≡ ok u) × (continue (λ u. k) o t ≡ k t) × ((k t).0 ≡ ok r)
continue-ok k (ok u) t r e = (u, refl, refl, e)
continue-ok k (err f) t r e = absurd (ground arith)

-- The branch that a condition takes
then-ok :
    {A : Type 0} (b : Bool) (x y : Result Failure A × Session) (o : Result Failure A)
    → b ≡ true
    → (if b then x else y).0 ≡ o
    → x.0 ≡ o
then-ok true x y o h e = e
then-ok false x y o h e = absurd (ground arith)

else-ok :
    {A : Type 0} (b : Bool) (x y : Result Failure A × Session) (o : Result Failure A)
    → b ≡ false
    → (if b then x else y).0 ≡ o
    → y.0 ≡ o
else-ok true x y o h e = absurd (ground arith)
else-ok false x y o h e = e

raise-ok :
    {A B : Type 0} (m : Method A) (f : Failure) (s : Session) (r : B)
    → ((m >> λ t. (err f, t)) s).0 ≡ ok r
    → ⊥
raise-ok m f s r e =
    let (u, first, whole, second) = continue-ok (λ t. (err f, t)) (m s).0 (m s).1 r e in
    ground arith

-- Nothing that a test selects is left: the test fails everywhere.
keep_if-nil :
    (p : Chunk → Bool) (cs : List Chunk) (c : Chunk) → keep_if p cs ≡ [] → In c cs → p c ≡ false
keep_if-nil p [] c e i = absurd i
keep_if-nil p (d ∷ cs) c e i = elim (Bool-cases (p d)) [
  | inl h ↦ absurd (ground (arith, e, h))
  | inr h ↦
      let rest : keep_if p cs ≡ [] = ground (arith, e, h) in
      elim i [ inl same ↦ ap p same ∙ h | inr j ↦ keep_if-nil p cs c rest j ]
]

module _ (run : Run) where
  -- What a download that returns has shown
  pub record Finished (lib : Primitives) (s : Session) (r : DownloadResult) : Type 0 where
    pub covered : (c : Chunk) → In c run.target.all_chunks → is_chunk_done s.state c.index ≡ true
    pub verified :
        run.verify_integrity ≡ true
        → verify_file_on_disk lib run.target.aes_key run.target.nonce run.mac_iv
            run.target.all_chunks
            (some s.file)
          ≡ some true
    pub size : r.size ≡ run.target.file_size

  conclude-ok :
      (s : Session) (r : DownloadResult) → (conclude run s).0 ≡ ok r → r.size ≡ run.target.file_size
  unfolding conclude
  conclude-ok s r e =
      let (u, first, whole, same) =
        continue-ok (λ t. (ok (record { size = run.target.file_size; integrity_ok = true }), t))
          (discard_state run s).0 (discard_state run s).1 r e in
      cc

  by_verdict-ok :
      (v : Option Bool) (s : Session) (r : DownloadResult)
      → (by_verdict run v s).0 ≡ ok r
      → (v ≡ some true) × (r.size ≡ run.target.file_size)
  unfolding by_verdict
  by_verdict-ok none s r e = absurd (ground arith)
  by_verdict-ok (some true) s r e = (refl, conclude-ok s r e)
  by_verdict-ok (some false) s r e = elim (Bool-cases run.keep_state_files_on_error) [
    | inl h ↦ absurd (ground (arith, e, h))
    | inr h ↦ absurd (
        raise-ok (discard_state run) integrity_failed s r
          (else-ok run.keep_state_files_on_error _ _ (ok r) h e))
  ]

  check_integrity-ok :
      (lib : Primitives) (s : Session) (r : DownloadResult)
      → (check_integrity run lib s).0 ≡ ok r
      → (run.verify_integrity ≡ true
          → verify_file_on_disk lib run.target.aes_key run.target.nonce run.mac_iv
              run.target.all_chunks
              (some s.file)
            ≡ some true)
        × (r.size ≡ run.target.file_size)
  unfolding check_integrity
  check_integrity-ok lib s r e = elim (Bool-cases run.verify_integrity) [
    | inl h ↦
        let (passed, size) =
          by_verdict-ok
            (verify_file_on_disk lib run.target.aes_key run.target.nonce run.mac_iv
              run.target.all_chunks (some s.file))
            s r (then-ok run.verify_integrity _ _ (ok r) h e) in
        (λ on. passed, size)
    | inr h ↦ (
      λ on. absurd (ground (arith, h, on)),
      conclude-ok s r (else-ok run.verify_integrity _ _ (ok r) h e),
    )
  ]

  by_missing-ok :
      (lib : Primitives) (cs : List Chunk) (s : Session) (r : DownloadResult)
      → (by_missing run lib cs s).0 ≡ ok r
      → (cs ≡ []) × ((check_integrity run lib s).0 ≡ ok r)
  unfolding by_missing
  by_missing-ok lib [] s r e = (refl, e)
  by_missing-ok lib (c ∷ cs) s r e = absurd (
      raise-ok (if run.keep_state_files_on_error then save_again run else discard_state run)
        (if run.stopped then cancelled else incomplete) s r e)

  gather-ok :
      (results : List (Result Fault (Unit {0}))) (s : Session) (u : Unit {0})
      → (gather run results s).0 ≡ ok u
      → (gather run results s).1 ≡ s
  unfolding gather
  gather-ok [] s u e = refl
  gather-ok (ok w ∷ results) s u e = gather-ok results s u e
  gather-ok (err f ∷ results) s u e = absurd (
      raise-ok (if run.keep_state_files_on_error then save_snapshot run else discard_state run)
        chunk_failed s u e)

  stored-same :
      (o : Result Error (Unit {0}) × File) (s : Session)
      → ((stored o s).1.file ≡ s.file) × ((stored o s).1.state ≡ s.state)
  stored-same (ok u, f) s = (refl, refl)
  stored-same (err e, f) s = (refl, refl)

  pub save_snapshot-same :
      (s : Session)
      → ((save_snapshot run s).1.file ≡ s.file)
        × ((save_snapshot run s).1.state ≡ (snapshot_state s.state).1)
  unfolding save_snapshot
  save_snapshot-same s =
      stored-same (save_state run.saving (snapshot_state s.state).0 s.saved)
        (record s { state = (snapshot_state s.state).1 })

  check_coverage-ok :
      (lib : Primitives) (s t : Session) (r : DownloadResult)
      → t.file ≡ s.file
      → t.state ≡ (snapshot_state s.state).1
      → (check_coverage run lib t).0 ≡ ok r
      → Finished lib s r
  unfolding check_coverage snapshot_state is_chunk_done
  check_coverage-ok lib s t r f g e =
      let (complete, checked) = by_missing-ok lib (pending t.state run.target.all_chunks) t r e in
      let (passed, size) = check_integrity-ok lib t r checked in
      record {
        covered = λ c i.
            let undone =
              keep_if-nil (λ c. not (is_chunk_done t.state c.index)) run.target.all_chunks c
                complete i in
            let done : is_chunk_done t.state c.index ≡ true = ground (arith, undone) in
            ap (λ (x : TransferState). is_chunk_done x c.index) (sym g) ∙ done;
        verified = λ on. rw (← f) (passed on);
        size = size;
      }

  -- A download that returns has every chunk of its plan done in the state that the workers left, and,
  -- where the check of integrity is on, has passed it on the file that the workers left.
  pub finish-Finished :
      (lib : Primitives) (results : List (Result Fault (Unit {0}))) (s : Session)
      (r : DownloadResult)
      → (finish run lib results s).0 ≡ ok r
      → Finished lib s r
  unfolding finish
  finish-Finished lib results s r e =
      let (u, saved, whole, checked) =
        continue-ok (check_coverage run lib) ((gather run results >> save_snapshot run) s).0
          ((gather run results >> save_snapshot run) s).1 r e in
      let (w, gathered, both, wrote) =
        continue-ok (save_snapshot run) (gather run results s).0 (gather run results s).1 u saved in
      let idle = gather-ok results s w gathered in
      let same = save_snapshot-same s in
      let after : (gather run results >> save_snapshot run) s ≡ save_snapshot run s =
        both ∙ ap (save_snapshot run) idle in
      let at : ((gather run results >> save_snapshot run) s).1 ≡ (save_snapshot run s).1 =
        ap (λ (x : Result Failure (Unit {0}) × Session). x.1) after in
      check_coverage-ok lib s (save_snapshot run s).1 r same.0 same.1
        (ap (λ (x : Session). (check_coverage run lib x).0) (sym at) ∙ checked)
