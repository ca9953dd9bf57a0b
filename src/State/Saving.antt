-- ===== src/State/Saving.antt =====
-- What `save_state`, `load_state` and `clear_state` of src/megabasterd_cli/core/state.py may do to the file.
use mathlib.Core.Path.{subst}
use mega_basterd_cli.Prelude.{
  ℕ, zero, suc, ◌≤◌, true, false, [], ◌≡◌, refl, sym, ap, ◌⊎◌, inl, inr, arith, Result, ok, err,
  Bool-cases, ◌<◌, ◌+◌, ◌==◌, ==→≡,
}
use mega_basterd_cli.Json.{ℤ, pos, negsuc, Json}
use mega_basterd_cli.State.Model.{TransferState, upload, Error, durability_error}
use mega_basterd_cli.State.Store.{
  File, document, opened, missing, Disk, replaced, permission_denied, payload, is_newer, disk_guard,
  flush_transferred_data, replace_file, commit, commit_against, save_state, is_stale, flushed,
}

module _ (env : Disk) where
  -- The data of the completed chunks is on the disk, as far as this side can know.
  abbrev pub IsFlushed : TransferState → Type 0
  IsFlushed s =
      (s.transfer_type ≡ upload)
      ⊎ ((env.opens ≡ opened) × (env.fsync_succeeds ≡ true))
      ⊎ ((env.opens ≡ missing) × (s.completed_chunks ≡ []))

  abbrev pub IsAtMost : ℤ → ℕ → Type 0
  IsAtMost (pos r) n = r ≤ n
  IsAtMost (negsuc r) n = Unit {0}

  pub record Committed (s : TransferState) (f g : File) : Type 0 where
    pub flushed : IsFlushed s
    pub locked : env.lock_free ≡ true
    pub version : ℤ
    pub revision : ℤ
    pub guarded : disk_guard env f ≡ ok (version, revision)
    pub not_newer : is_newer version ≡ false
    pub not_stale : IsAtMost revision s.revision
    pub written : g ≡ document (payload env.texts s)

  flush-IsFlushed : (s : TransferState) → flush_transferred_data env s ≡ ok tt → IsFlushed s
  unfolding flush_transferred_data
  flush-IsFlushed s h = ground arith

  replace_file-cases :
      (k n : ℕ) (j : Json) (f : File)
      → ((replace_file env k n j f).1 ≡ f) ⊎ ((replace_file env k n j f).1 ≡ document j)
  unfolding replace_file
  replace_file-cases k zero j f = inl refl
  replace_file-cases k (suc n) j f = ground (arith, replace_file-cases (suc k) n j f)

  is_stale-not_newer :
      (s : TransferState) (g : ℤ × ℤ) → is_stale env s g ≡ false → is_newer g.0 ≡ false
  is_stale-not_newer s (v, pos r) h = ground arith
  is_stale-not_newer s (v, negsuc r) h = h

  is_stale-not_stale :
      (s : TransferState) (g : ℤ × ℤ) → is_stale env s g ≡ false → IsAtMost g.1 s.revision
  is_stale-not_stale s (v, pos r) h = ground arith
  is_stale-not_stale s (v, negsuc r) h = tt

  commit_against-cases :
      (s : TransferState) (guard : ℤ × ℤ) (f : File)
      → ((commit_against env s (ok guard) f).1 ≡ f)
        ⊎ ((is_stale env s guard ≡ false)
            × ((commit_against env s (ok guard) f).1 ≡ document (payload env.texts s)))
  unfolding commit_against
  commit_against-cases s guard f = ground (arith, replace_file-cases 0 5 (payload env.texts s) f)

  commit_against-Committed :
      (s : TransferState) (o : Result Error (ℤ × ℤ)) (f : File)
      → disk_guard env f ≡ o
      → IsFlushed s
      → env.lock_free ≡ true
      → ((commit_against env s o f).1 ≡ f) ⊎ Committed s f (commit_against env s o f).1
  unfolding commit_against
  commit_against-Committed s (err x) f g p l = inl refl
  commit_against-Committed s (ok (v, r)) f g p l = elim (commit_against-cases s (v, r) f) [
    | inl e ↦ inl e
    | inr (e, w) ↦ inr (record {
      flushed = p;
      locked = l;
      version = v;
      revision = r;
      guarded = g;
      not_newer = is_stale-not_newer s (v, r) e;
      not_stale = is_stale-not_stale s (v, r) e;
      written = w;
    })
  ]

  commit-Committed :
      (s : TransferState) (f : File)
      → IsFlushed s
      → env.lock_free ≡ true
      → ((commit env s f).1 ≡ f) ⊎ Committed s f (commit env s f).1
  unfolding commit
  commit-Committed s f p l = commit_against-Committed s (disk_guard env f) f refl p l

  flushed-cases :
      (s : TransferState) (r : Result Error (Unit {0})) (f : File)
      → ((flushed env s r f).1 ≡ f)
        ⊎ ((r ≡ ok tt) × (env.lock_free ≡ true) × ((flushed env s r f).1 ≡ (commit env s f).1))
  flushed-cases s (err e) f = inl refl
  flushed-cases s (ok tt) f = ground arith

  save_state-cases :
      (s : TransferState) (f : File)
      → ((save_state env s f).1 ≡ f)
        ⊎ (IsFlushed s × (env.lock_free ≡ true) × ((save_state env s f).1 ≡ (commit env s f).1))
  unfolding save_state
  save_state-cases s f =
      ground (arith, flushed-cases s (flush_transferred_data env s) f, flush-IsFlushed s)

  -- A save, raised or not, leaves the file as it was, or it has replaced the file by the state, and then it held the
  -- lock, the data of the transfer was flushed before, and the file had no newer format and no later revision.
  pub save_state-Committed :
      (s : TransferState) (f : File)
      → ((save_state env s f).1 ≡ f) ⊎ Committed s f (save_state env s f).1
  save_state-Committed s f = elim (save_state-cases s f) [
    | inl e ↦ inl e
    | inr (p, l, e) ↦
        subst (λ (g : File). (g ≡ f) ⊎ Committed s f g) (sym e) (commit-Committed s f p l)
  ]

  flush-refused :
      (s : TransferState) → ¬ IsFlushed s → flush_transferred_data env s ≡ err durability_error
  unfolding flush_transferred_data
  flush-refused s unflushed = ground arith

  -- A save of a state whose data cannot be flushed raises the durability error where the directory can
  -- be made, and the file stays as it was.
  save_state-unflushed :
      (s : TransferState) (f : File)
      → env.parent_made ≡ true
      → ¬ IsFlushed s
      → save_state env s f ≡ (err durability_error, f)
  unfolding save_state
  save_state-unflushed s f p unflushed = ground (arith, p, flush-refused s unflushed)

  IsFlushed-flush : (s : TransferState) → IsFlushed s → flush_transferred_data env s ≡ ok tt
  unfolding flush_transferred_data
  IsFlushed-flush s h = ground arith

  -- `os.replace` is refused for a permission before the attempt, and succeeds at it.
  abbrev pub IsReplacedAt : ℕ → Type 0
  IsReplacedAt k =
      ((i : ℕ) → i < k → env.replace i ≡ permission_denied) × (env.replace k ≡ replaced)

  replace_file-retries :
      (a n k : ℕ) (j : Json) (f : File)
      → a ≤ k
      → k < a + n
      → IsReplacedAt k
      → replace_file env a n j f ≡ (ok tt, document j)
  unfolding replace_file
  replace_file-retries a zero k j f le lt h = ground arith
  replace_file-retries a (suc n) k j f le lt h = elim (Bool-cases (a == k)) [
    | inl e ↦ ground (arith, h.1, ap env.replace (==→≡ a k e))
    | inr e ↦ ground (
      arith,
      h.0 a (ground arith),
      replace_file-retries (a + 1) n k j f (ground arith) (omega arith) h,
    )
  ]

  -- A snapshot whose data is flushed and that is not stale against the file is saved where the directory
  -- can be made, the lock is free and the temporary file can be written, if one of the five attempts to replace the file succeeds after attempts refused for a permission only.
  pub save_state-saves :
      (s : TransferState) (f : File) (k : ℕ)
      → env.parent_made ≡ true
      → IsFlushed s
      → env.lock_free ≡ true
      → (guard : ℤ × ℤ) → disk_guard env f ≡ ok guard
      → is_stale env s guard ≡ false
      → env.staged ≡ true
      → k < 5
      → IsReplacedAt k
      → save_state env s f ≡ (ok tt, document (payload env.texts s))
  unfolding save_state commit commit_against
  save_state-saves s f k p flush l guard guarded stale st lt r = ground (
    arith,
    p,
    IsFlushed-flush s flush,
    l,
    guarded,
    stale,
    st,
    replace_file-retries 0 5 k (payload env.texts s) f (omega arith) (omega arith) r,
  )
