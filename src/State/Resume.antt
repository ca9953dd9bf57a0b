-- ===== src/State/Resume.antt =====
-- A saved state is the state that the next run loads (src/megabasterd_cli/core/state.py).
use mega_basterd_cli.State.Hex.{and-left}
use mega_basterd_cli.State.Saving.{Committed}
use mega_basterd_cli.Prelude.{
  ℕ, Bool, true, ◌||◌, none, some, List, [], ◌∷◌, ◌++◌, ◌≡◌, refl, sym, ap, ◌∙◌, arith, ◌==◌,
  if◌then◌else◌, ok,
}
use mega_basterd_cli.Json.{pos, Json, to_list-of_list, to_dict-of_dict}
use mega_basterd_cli.State.Model.{
  TransferState, TransferType, download, upload, Macs, has, state_format_version,
}
use mega_basterd_cli.State.Validate.{
  Texts, read_chunks, read_macs, validate_state_dict, hex_of_length, read_type,
}
use mega_basterd_cli.State.Store.{
  File, Disk, mac_fields, chunk_numbers, payload, type_name, load_state, load_document,
  load_validated, save_state, other_version, version_of,
}
use mega_basterd_cli.State.Sound.{
  IsSound, are_fresh, keys, are_macs, put_mac-new, keys-append, has-append,
}

read_chunks-chunk_numbers :
    (ks seen : List ℕ) → are_fresh ks seen ≡ true → read_chunks (chunk_numbers ks) seen ≡ some ks
unfolding read_chunks are_fresh
read_chunks-chunk_numbers [] seen h = refl
read_chunks-chunk_numbers (k ∷ ks) seen h = ground (arith, read_chunks-chunk_numbers ks (k ∷ seen))

append_assoc : (a : Macs) (x : ℕ × _) (b : Macs) → (a ++ x ∷ []) ++ b ≡ a ++ x ∷ b
append_assoc [] x b = refl
append_assoc (y ∷ a) x b = ap (λ (l : Macs). y ∷ l) (append_assoc a x b)

append_nil : (a : Macs) → a ++ [] ≡ a
append_nil [] = refl
append_nil (y ∷ a) = ap (λ (l : Macs). y ∷ l) (append_nil a)

-- The keys that were read are those that were seen.
abbrev AreSeen : Macs → List ℕ → Type 0
AreSeen acc seen = (i : ℕ) → has i (keys acc) ≡ has i seen

or-swap : (a b : Bool) → (a || b) ≡ (if b then true else a)
or-swap a b = ground arith

AreSeen-append :
    (k : ℕ) (m : _) (acc : Macs) (seen : List ℕ)
    → AreSeen acc seen
    → AreSeen (acc ++ (k, m) ∷ []) (k ∷ seen)
AreSeen-append k m acc seen h i =
    rw (keys-append k m acc, has-append i k (keys acc), h i) (or-swap (has i seen) (i == k))

read_type-type_name : (t : TransferType) → read_type (type_name t) ≡ some t
read_type-type_name download = refl
read_type-type_name upload = refl

-- Outside this file: `int` reads what `str` prints.
abbrev pub IsPrinting : Texts → Type 0
IsPrinting env = (n : ℕ) → env.parse_int (env.print_int n) ≡ some (pos n)

module _ (env : Texts) (printing : IsPrinting env) where
  read_macs-mac_fields :
      (macs acc : Macs) (seen : List ℕ)
      → AreSeen acc seen
      → are_fresh (keys macs) seen ≡ true
      → are_macs macs ≡ true
      → read_macs env (mac_fields env macs) acc ≡ some (acc ++ macs)
  unfolding read_macs are_fresh
  read_macs-mac_fields [] acc seen a f h = ap some (sym (append_nil acc))
  read_macs-mac_fields ((k, m) ∷ macs) acc seen a f h =
      let rest =
        read_macs-mac_fields macs (acc ++ (k, m) ∷ []) (k ∷ seen) (AreSeen-append k m acc seen a)
          (ground arith) (ground arith) in
      rw
        (
          printing k,
          and-left (hex_of_length 32 (Json.str m)) (are_macs macs) h,
          put_mac-new k m acc (a k ∙ ground arith),
          rest,
          append_assoc acc (k, m) macs,
        )
        refl

  -- A sound state is read back from what a save writes.
  validate_state_dict-payload :
      (s : TransferState) → IsSound env s → validate_state_dict env (payload env s) ≡ some s
  unfolding validate_state_dict
  validate_state_dict-payload s i =
      rw
        (
          read_type-type_name s.transfer_type,
          to_list-of_list (chunk_numbers s.completed_chunks),
          read_chunks-chunk_numbers s.completed_chunks [] i.chunks_fresh,
          to_dict-of_dict (mac_fields env s.chunk_macs),
          read_macs-mac_fields s.chunk_macs [] [] (λ j. refl) i.keys_fresh i.macs_hex,
          to_dict-of_dict s.metadata,
          i.metadata_valid,
          i.no_orphans,
        )
        refl

other_version-payload :
    (env : Texts) (s : TransferState)
    → s.format_version ≡ pos state_format_version
    → other_version (payload env s) ≡ none
unfolding other_version
other_version-payload env s e = ap (λ v. version_of (some v)) e

module _ (env : Disk) (printing : IsPrinting env.texts) where
  -- A sound state that a save has written is the state that the next load answers, and the load leaves
  -- the file, where `int` reads what `str` prints.
  pub save_state-load_state :
      (s : TransferState) (f : File)
      → IsSound env.texts s
      → Committed env s f (save_state env s f).1
      → load_state env (save_state env s f).1 ≡ (ok (some s), (save_state env s f).1)
  unfolding load_state load_document load_validated
  save_state-load_state s f i c =
      rw
        (
          c.written,
          other_version-payload env.texts s i.current,
          validate_state_dict-payload env.texts printing s i,
        )
        refl
