-- ===== src/State/Marks.antt =====
-- What `mark_chunk_done` of src/megabasterd_cli/core/state.py leaves of the other chunks.
use mathlib.Core.Path.{subst, sym}
use mega_basterd_cli.State.Sound.{mac_at-put_mac, decoded-hex, has-append}
use mega_basterd_cli.Prelude.{
  ℕ, String, true, false, ◌||◌, some, List, [], ◌∷◌, ◌++◌, ◌≡◌, refl, ap, arith, ◌==◌,
  if◌then◌else◌, ok, length, Bool-cases, inr, inl, ==→≡,
}
use mega_basterd_cli.State.Hex.{Bytes, AreBytes, hex}
use mega_basterd_cli.State.Model.{
  TransferState, Macs, has, mac_at, put_mac, mark_chunk_done, is_chunk_done, get_chunk_mac,
  mac_byte_length, decoded,
}

mac_at-put_mac-other :
    (j k : ℕ) (m : String) (macs : Macs)
    → (j == k) ≡ false
    → mac_at j (put_mac k m macs) ≡ mac_at j macs
unfolding mac_at put_mac
mac_at-put_mac-other j k m [] n = ground arith
mac_at-put_mac-other j k m ((i, l) ∷ macs) n = ground (arith, mac_at-put_mac-other j k m macs n)

-- A chunk marked with a MAC of 16 bytes, and nothing else of the state.
pub record Marked (s : TransferState) (k : ℕ) (mac : Bytes) (t : TransferState) : Type 0 where
  pub runs : mark_chunk_done s k (some mac) ≡ ok t
  pub mac_there : get_chunk_mac t k ≡ some (some mac)
  pub done_there : (j : ℕ) → is_chunk_done t j ≡ (is_chunk_done s j || j == k)
  pub others : (j : ℕ) → (j == k) ≡ false → get_chunk_mac t j ≡ get_chunk_mac s j
  pub same_size : t.total_size ≡ s.total_size

has-chunks :
    (j k : ℕ) (ks : List ℕ) → has j (if has k ks then ks else ks ++ k ∷ []) ≡ (has j ks || j == k)
has-chunks j k ks = elim (Bool-cases (has k ks)) [
  | inr n ↦ rw n (has-append j k ks)
  | inl h ↦ rw h (elim (Bool-cases (j == k)) [
    | inl e ↦ ground (arith, subst (λ (i : ℕ). has i ks ≡ true) (sym (==→≡ j k e)) h)
    | inr n ↦ ground (arith, n)
  ])
]

pub mark_chunk_done-Marked :
    (s : TransferState) (k : ℕ) (mac : Bytes)
    → AreBytes mac
    → length mac ≡ mac_byte_length
    → (t : TransferState) × Marked s k mac t
unfolding mark_chunk_done is_chunk_done get_chunk_mac
mark_chunk_done-Marked s k mac b l = (
  record s {
    completed_chunks =
        if has k s.completed_chunks then s.completed_chunks else s.completed_chunks ++ k ∷ [];
    chunk_macs = put_mac k (hex mac) s.chunk_macs;
  },
  record {
    runs = ground (arith, l);
    mac_there = rw (mac_at-put_mac k (hex mac) s.chunk_macs) (decoded-hex mac b l);
    done_there = λ j. has-chunks j k s.completed_chunks;
    others = λ j n. ap decoded (mac_at-put_mac-other j k (hex mac) s.chunk_macs n);
    same_size = refl;
  },
)
