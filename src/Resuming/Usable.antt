-- ===== src/Resuming/Usable.antt =====
-- What the checks of src/megabasterd_cli/core/download_verify.py let through.
use mathlib.Core.Path.{subst, sym, ap}
use mega_basterd_cli.Prelude.{
  ℕ, ◌≤◌, true, false, ◌||◌, Option, none, some, List, [], ◌∷◌, ◌≡◌, refl, ◌↔◌, arith, All, length,
  ltb, ok, Bool-cases, inl, inr, Result,
}
use mega_basterd_cli.Json.{pos, negsuc, Json}
use mega_basterd_cli.Chunks.{Chunk, iter_chunks, chunk_count, max_chunks, max_file_size}
use mega_basterd_cli.Chunks.Count.{chunk_count-length, chunk_count-le-max}
use mega_basterd_cli.State.Hex.{Bytes, hex}
use mega_basterd_cli.State.Model.{TransferState, get_chunk_mac, download}
use mega_basterd_cli.Resuming.{
  validate_declared_size, Download, is_recorded, is_planned, are_planned, have_macs, are_usable,
  is_usable_download_state, DeclaredSize,
}

ok-eq : (m n : ℕ) → ◌≡◌ {A = Result DeclaredSize ℕ} (ok m) (ok n) → m ≡ n
ok-eq m n h = ground arith

declared :
    (j : Json) (n : ℕ)
    → validate_declared_size j ≡ ok n
    → (j ≡ Json.int (pos n)) × (chunk_count n ≤ max_chunks)
unfolding validate_declared_size
declared (Json.int (pos m)) n h =
    elim (Bool-cases (ltb max_file_size m || ltb max_chunks (chunk_count m))) [
      | inl e ↦ ground (arith, h, e)
      | inr e ↦
          let same = ok-eq m n (ground (arith, h, e)) in
          (
            ap (λ k. Json.int (pos k)) same,
            subst (λ k. chunk_count k ≤ max_chunks) same (ground (arith, e)),
          )
    ]
declared (Json.int (negsuc m)) n h = ground arith
declared Json.null n h = ground arith
declared (Json.bool b) n h = ground arith
declared (Json.float t) n h = ground arith
declared (Json.str t) n h = ground arith
declared (Json.arr js) n h = ground arith
declared (Json.obj fs) n h = ground arith

accepted : (n : ℕ) → chunk_count n ≤ max_chunks → validate_declared_size (Json.int (pos n)) ≡ ok n
unfolding validate_declared_size
accepted n h = ground (arith, (chunk_count-le-max n).0 h)

-- A declared size is accepted exactly if it is an integer from 0 up for which the plan has at most
-- 200,000 chunks.
pub validate_declared_size-iter_chunks :
    (j : Json) (n : ℕ)
    → (validate_declared_size j ≡ ok n)
      ↔ ((j ≡ Json.int (pos n)) × (length (iter_chunks n) ≤ max_chunks))
validate_declared_size-iter_chunks j n = (
  λ h. let d = declared j n h in (d.0, subst (λ k. k ≤ max_chunks) (chunk_count-length n) d.1),
  λ h. rw h.0 (accepted n (subst (λ k. k ≤ max_chunks) (sym (chunk_count-length n)) h.1)),
)

-- The chunk is in the plan, and its MAC is recorded.
abbrev pub IsRecorded : TransferState → List Chunk → ℕ → Type 0
IsRecorded s cs k = (is_planned cs k ≡ true) × (m : Bytes) × (get_chunk_mac s k ≡ some (some m))

have_macs-IsRecorded :
    (s : TransferState) (cs : List Chunk) (ks : List ℕ)
    → are_planned cs ks ≡ true
    → have_macs s ks ≡ some true
    → All (IsRecorded s cs) ks
unfolding are_planned have_macs
have_macs-IsRecorded s cs [] p h = tt
have_macs-IsRecorded s cs (k ∷ ks) p h =
    go (get_chunk_mac s k) (have_macs-IsRecorded s cs ks (ground arith)) refl h
  where
    go :
        (o : Option (Option Bytes))
        → (have_macs s ks ≡ some true → All (IsRecorded s cs) ks)
        → get_chunk_mac s k ≡ o
        → (elim o [ none ↦ none | some none ↦ some false | some (some m) ↦ have_macs s ks ])
          ≡ some true
        → All (IsRecorded s cs) (k ∷ ks)
    go none rest e h = ground arith
    go (some none) rest e h = ground arith
    go (some (some m)) rest e h = ((ground arith, m, e), rest h)

module _ (d : Download) where
  pub record Resumes (s : TransferState) : Type 0 where
    pub same_size : s.total_size ≡ d.file_size
    pub is_download : s.transfer_type ≡ download
    pub same_key : is_recorded "aes_key" s.metadata (hex d.aes_key) ≡ true
    pub same_nonce : is_recorded "nonce" s.metadata (hex d.nonce) ≡ true
    pub recorded : All (IsRecorded s d.all_chunks) s.completed_chunks

  are_usable-IsRecorded :
      (s : TransferState) (ks : List ℕ)
      → are_usable d s ks ≡ some true
      → All (IsRecorded s d.all_chunks) ks
  unfolding are_usable
  are_usable-IsRecorded s [] h = tt
  are_usable-IsRecorded s (k ∷ ks) h =
      have_macs-IsRecorded s d.all_chunks (k ∷ ks) (ground (arith, h)) (ground (arith, h))

  -- A state that a download resumes from is a download of this size with this key and nonce, and each
  -- of its completed chunks is in the plan and has a MAC.
  pub is_usable-Resumes :
      (s : TransferState) → is_usable_download_state d (some s) ≡ some true → Resumes s
  unfolding is_usable_download_state
  is_usable-Resumes s h = record {
    same_size = ground (arith, h);
    is_download = ground (arith, h);
    same_key = ground (arith, h);
    same_nonce = ground (arith, h);
    recorded = are_usable-IsRecorded s s.completed_chunks (ground (arith, h));
  }
