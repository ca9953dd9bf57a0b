-- ===== src/State/Loading.antt =====
-- What `load_state` and `clear_state` of src/megabasterd_cli/core/state.py leave of a file they do not take.
use mega_basterd_cli.Prelude.{
  true, Option, none, some, ◌≡◌, refl, ◌⊎◌, inl, inr, arith, Result, ok, err, ok-injective, sym, ap,
  ◌∙◌,
}
use mega_basterd_cli.Json.{ℤ, pos, Json, to_dict}
use mega_basterd_cli.State.Model.{TransferState, Error, json_error, state_format_version}
use mega_basterd_cli.State.Validate.{validate_state_dict}
use mega_basterd_cli.State.Store.{
  File, absent, unreadable, garbage, unparsed, document, Disk, is_newer, other_version,
  unrecognized_state_version, load_state, load_document, guard_of, disk_guard, save_state,
  clear_state, clear_against, version_of, int_at, or_default,
}
use mega_basterd_cli.State.Saving.{save_state-Committed}

module _ (env : Disk) where
  -- The file stays as it was, or its bytes are preserved and it is removed.
  abbrev pub IsEvidenceKept : File → File → Type 0
  IsEvidenceKept f g = (g ≡ f) ⊎ ((env.preserved ≡ true) × (g ≡ absent))

  -- What a load answers or raises, and the file it leaves, by what it finds.
  pub data Answers : File → Result Error (Option TransferState) × File → Type 0 where
    raised : Answers unparsed (err json_error, unparsed)
    taken :
        {j : Json} {s : TransferState}
        → other_version j ≡ none
        → validate_state_dict env.texts j ≡ some s
        → Answers (document j) (ok (some s), document j)
    unread : {f : File} → (f ≡ absent) ⊎ (f ≡ unreadable) → Answers f (ok none, f)
    declined :
        {j : Json} {v : ℤ} → other_version j ≡ some v → Answers (document j) (ok none, document j)
    unparsable : {g : File} → IsEvidenceKept garbage g → Answers garbage (ok none, g)
    invalid :
        {j : Json} {g : File}
        → other_version j ≡ none
        → validate_state_dict env.texts j ≡ none
        → IsEvidenceKept (document j) g
        → Answers (document j) (ok none, g)

  newer-at :
      (o : Option ℤ) (v : ℤ) → version_of o ≡ some v → or_default (pos state_format_version) o ≡ v
  newer-at none v e = ground arith
  newer-at (some w) v e = ground arith

  disk_guard-newer :
      (j : Json) (v : ℤ)
      → other_version j ≡ some v
      → is_newer v ≡ true
      → (revision : ℤ) × (disk_guard env (document j) ≡ ok (v, revision))
  unfolding disk_guard guard_of other_version
  disk_guard-newer (Json.obj fs) v e n = (
    or_default (pos 0) (int_at "revision" (to_dict fs)),
    rw (newer-at (int_at "format_version" (to_dict fs)) v e, n) refl,
  )
  disk_guard-newer Json.null v e n = absurd (ground arith)
  disk_guard-newer (Json.bool b) v e n = absurd (ground arith)
  disk_guard-newer (Json.int m) v e n = absurd (ground arith)
  disk_guard-newer (Json.float t) v e n = absurd (ground arith)
  disk_guard-newer (Json.str t) v e n = absurd (ground arith)
  disk_guard-newer (Json.arr js) v e n = absurd (ground arith)

  -- A file of a newer format stays as it is in a load, a save and a clear.
  pub newer-kept :
      (j : Json) (v : ℤ) (s : TransferState)
      → unrecognized_state_version (document j) ≡ ok (some v)
      → is_newer v ≡ true
      → (load_state env (document j) ≡ (ok none, document j))
        × ((save_state env s (document j)).1 ≡ document j)
        × (clear_state env (document j) ≡ (ok tt, document j))
  unfolding load_state load_document unrecognized_state_version clear_state clear_against
  newer-kept j v s e n =
      let other : other_version j ≡ some v = ok-injective e in
      let (revision, guarded) = disk_guard-newer j v other n in
      (
        rw other refl,
        elim (save_state-Committed env s (document j)) [
          | inl k ↦ k
          | inr c ↦
              let same : ◌≡◌ {A = ℤ × ℤ} (v, revision) (c.version, c.revision) =
                ok-injective (sym guarded ∙ c.guarded) in
              absurd (ground (arith, c.not_newer, n, ap (λ (p : ℤ × ℤ). is_newer p.0) same))
        ],
        ground (arith, guarded, n),
      )
