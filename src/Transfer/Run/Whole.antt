-- ===== src/Transfer/Run/Whole.antt =====
-- A whole download of src/megabasterd_cli/core/downloader.py from an endpoint that serves the file: it
-- returns, and the destination has the file.
use mathlib.Core.Path.{subst, ◌∙◌}
use mega_basterd_cli.Prelude.{
  Bool, true, false, not, some, List, [], ◌∷◌, ◌≡◌, refl, ap, arith, inl, inr, length, map, Result,
  ok, keep_if, ◌>>◌, continue, Bool-cases,
}
use mega_basterd_cli.Chunks.{Chunk, iter_chunks}
use mega_basterd_cli.Chunks.Apart.{In}
use mega_basterd_cli.State.Hex.{Bytes, AreBytes}
use mega_basterd_cli.State.Model.{TransferState, is_chunk_done, snapshot_state}
use mega_basterd_cli.State.Store.{File}
use mega_basterd_cli.Crypto.Primitives.{Primitives, IsCipher, IsStream, IsCounter}
use mega_basterd_cli.Integrity.{verify_file_on_disk}
use mega_basterd_cli.Transfer.Session.{Session, Fault}
use mega_basterd_cli.Transfer.Copied.{IsHonest, IsCopied, IsCopied-whole}
use mega_basterd_cli.Transfer.Round.{Round, Round-IsCopied, Round-done}
use mega_basterd_cli.Transfer.Run.{
  Run, Failure, DownloadResult, Method, gather, save_snapshot, discard_state, check_integrity,
  conclude, by_verdict, by_missing, check_coverage, prepare, finish,
}
use mega_basterd_cli.Transfer.Run.Gate.{save_snapshot-same}
use mega_basterd_cli.Transfer.Run.Fresh.{StartsFresh, prepare-nothing-done}

-- What the workers return that are neither stopped nor raise
abbrev pub all_returned : List Chunk → List (Result Fault (Unit {0}))
all_returned cs = map (λ c. ok tt) cs

keep_if-none :
    (p : Chunk → Bool) (cs : List Chunk) → ((c : Chunk) → In c cs → p c ≡ false) → keep_if p cs ≡ []
keep_if-none p [] h = refl
keep_if-none p (c ∷ cs) h = ground (arith, h c (inl refl), keep_if-none p cs (λ d i. h d (inr i)))

-- A step that succeeds goes on with the next.
sequence :
    {A B : Type 0} (m : Method A) (k : Method B) (s t : Session) (u : A)
    → m s ≡ (ok u, t)
    → (m >> k) s ≡ k t
sequence m k s t u e = ap (λ (x : Result Failure _ × Session). continue (λ v. k) x.0 x.1) e

module _ (run : Run) (lib : Primitives) where
  -- The check of integrity that is on passes, and the state file can be saved and removed.
  pub record IsEnding (s : Session) : Type 0 where
    pub passes :
        run.verify_integrity ≡ true
        → verify_file_on_disk lib run.target.aes_key run.target.nonce run.mac_iv
            run.target.all_chunks
            (some s.file)
          ≡ some true
    pub saves : (save_snapshot run s).0 ≡ ok tt
    pub clears : (discard_state run (save_snapshot run s).1).0 ≡ ok tt

  abbrev pub success : DownloadResult
  success = record { size = run.target.file_size; integrity_ok = true }

  gather-returned : (cs : List Chunk) (s : Session) → gather run (all_returned cs) s ≡ (ok tt, s)
  unfolding gather
  gather-returned [] s = refl
  gather-returned (c ∷ cs) s = gather-returned cs s

  conclude-returns :
      (s : Session) → (discard_state run s).0 ≡ ok tt → (conclude run s).0 ≡ ok success
  unfolding conclude
  conclude-returns s e = rw e refl

  check_integrity-returns :
      (s : Session)
      → (run.verify_integrity ≡ true
          → verify_file_on_disk lib run.target.aes_key run.target.nonce run.mac_iv
              run.target.all_chunks
              (some s.file)
            ≡ some true)
      → (discard_state run s).0 ≡ ok tt
      → (check_integrity run lib s).0 ≡ ok success
  unfolding check_integrity by_verdict conclude discard_state
  check_integrity-returns s passes e = elim (Bool-cases run.verify_integrity) [
    | inl h ↦ rw (h, passes h) (conclude-returns s e)
    | inr h ↦ rw h (conclude-returns s e)
  ]

  check_coverage-returns :
      (s t : Session)
      → t.file ≡ s.file
      → t.state ≡ (snapshot_state s.state).1
      → ((c : Chunk) → In c run.target.all_chunks → is_chunk_done s.state c.index ≡ true)
      → (run.verify_integrity ≡ true
          → verify_file_on_disk lib run.target.aes_key run.target.nonce run.mac_iv
              run.target.all_chunks
              (some s.file)
            ≡ some true)
      → (discard_state run t).0 ≡ ok tt
      → (check_coverage run lib t).0 ≡ ok success
  unfolding check_coverage by_missing snapshot_state is_chunk_done
  check_coverage-returns s t f g done passes clears =
      ap (λ (cs : List Chunk). (by_missing run lib cs t).0)
        (keep_if-none (λ c. not (is_chunk_done t.state c.index)) run.target.all_chunks
          (λ c i. ap (λ (x : TransferState). not (is_chunk_done x c.index)) g ∙ ap not (done c i)))
      ∙ check_integrity-returns t (λ on. rw f (passes on)) clears

  -- With every chunk done, all workers' results without an exception, and this ending, the run returns.
  finish-returns :
      (cs : List Chunk) (s : Session)
      → ((c : Chunk) → In c run.target.all_chunks → is_chunk_done s.state c.index ≡ true)
      → IsEnding s
      → (finish run lib (all_returned cs) s).0 ≡ ok success
  unfolding finish
  finish-returns cs s done ending =
      let saved = save_snapshot run s in
      let ran : (gather run (all_returned cs) >> save_snapshot run) s ≡ (ok tt, saved.1) =
        sequence (gather run (all_returned cs)) (save_snapshot run) s s tt (gather-returned cs s)
        ∙ ap (λ (o : Result Failure (Unit {0})). (o, saved.1)) ending.saves in
      let (file, state) = save_snapshot-same run s in
      ap (λ (x : Result Failure DownloadResult × Session). x.0)
        (sequence (gather run (all_returned cs) >> save_snapshot run) (check_coverage run lib) s
          saved.1 tt ran)
      ∙ check_coverage-returns s saved.1 file state done ending.passes ending.clears

-- For a download that starts with resuming off, or without a resume state that the load answers, with a
-- plan of the file's size, from an endpoint
-- whose accepted answers are chunks of the encrypted source, and a cipher with its counter mode: its
-- workers attempt chunks of the plan in any order, and each chunk of the plan has an attempt that is not
-- stopped and returns. Where the check of integrity, if it is on, passes for the source, and the state
-- file can be saved and removed, the download returns the declared size, and the destination is the
-- source.
pub fresh_download-returns :
    (run : Run) (lib : Primitives) (source : Bytes)
    → IsCipher lib
    → IsStream lib
    → IsCounter lib
    → AreBytes source
    → length source ≡ run.target.file_size
    → (f : File) (s t : Session) (cs : List Chunk) → StartsFresh run f
    → run.target.all_chunks ≡ iter_chunks run.target.file_size
    → prepare run f ≡ ok s
    → Round lib run.target.aes_key run.target.nonce
        (λ env c.
          IsHonest lib run.target.aes_key run.target.nonce source env c run.target.file_size)
        run.target.file_size
        cs
        s
        t
    → ((c : Chunk) → In c (iter_chunks run.target.file_size) → In c cs)
    → (run.verify_integrity ≡ true
        → verify_file_on_disk lib run.target.aes_key run.target.nonce run.mac_iv
            run.target.all_chunks
            (some source)
          ≡ some true)
    → (save_snapshot run t).0 ≡ ok tt
    → (discard_state run (save_snapshot run t).1).0 ≡ ok tt
    → ((finish run lib (all_returned cs) t).0
        ≡ ok (record { size = run.target.file_size; integrity_ok = true }))
      × (t.file ≡ source)
fresh_download-returns run lib source cipher stream undone b l f s t cs off plan started round all
      passes saves clears =
    let key = run.target.aes_key in
    let nonce = run.target.nonce in
    let size = run.target.file_size in
    let (full, sized, never) = prepare-nothing-done run f s off started in
    let begun : IsCopied lib key nonce source size s = record {
      full = full;
      sized = sized;
      copied = λ c i e. absurd (ground (arith, never c.index, e));
    } in
    let end = Round-IsCopied lib key nonce source cipher stream undone b size cs s t round begun in
    let done : (c : Chunk) → In c (iter_chunks size) → is_chunk_done t.state c.index ≡ true =
      λ c i. Round-done lib key nonce source cipher stream undone b size cs s t c round (all c i) in
    let copied = IsCopied-whole lib key nonce source size t l end done in
    (
      finish-returns run lib cs t (λ c i. done c (subst (In c) plan i))
          (record { passes = λ on. rw copied (passes on); saves = saves; clears = clears }),
      copied,
    )
