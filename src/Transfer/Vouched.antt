-- ===== src/Transfer/Vouched.antt =====
-- What a download of src/megabasterd_cli/core/download_transport.py keeps at every moment: a chunk that
-- the state calls done is on disk, with the MAC that the state records.
use mathlib.Core.Path.{subst, ◌∙◌}
use mathlib.Core.List.{append-nil}
use mega_basterd_cli.Prelude.Slices.{
  overwrite, length-overwrite, slice-overwrite, slice-overwrite-before, slice-overwrite-after,
}
use mega_basterd_cli.Prelude.{
  ℕ, ◌-◌, ◌≤◌, true, some, ◌++◌, ◌≡◌, sym, ap, arith, inl, inr, length, replicate,
}
use mega_basterd_cli.Chunks.{Chunk, iter_chunks, end_of}
use mega_basterd_cli.Chunks.Tiling.{iter_chunks-Tiles}
use mega_basterd_cli.Chunks.Apart.{In, IsApart, Tiles-IsApart, Tiles-Within}
use mega_basterd_cli.State.Hex.{Bytes}
use mega_basterd_cli.State.Model.{TransferState, is_chunk_done, get_chunk_mac}
use mega_basterd_cli.State.Marks.{Marked}
use mega_basterd_cli.Crypto.Primitives.{Primitives, IsCipher, IsStream}
use mega_basterd_cli.Crypto.Mac.{chunk_mac}
use mega_basterd_cli.Integrity.{piece}
use mega_basterd_cli.Prelude.{Result}
use mega_basterd_cli.Transfer.Session.{Fault, Attempt, Session, write_at}
use mega_basterd_cli.Transfer.Fetch.{fetch_chunk}
use mega_basterd_cli.Transfer.Alike.{Alike}
use mega_basterd_cli.Transfer.Stepped.{Stepped, untouched, written, fetch_chunk-Stepped}

pub write_at-overwrite :
    (offset : ℕ) (part file : Bytes)
    → offset ≤ length file
    → write_at offset part file ≡ overwrite offset part file
unfolding write_at
write_at-overwrite offset part file h =
    let none_missing : offset - length file ≡ 0 = omega arith in
    ap (λ (k : ℕ). overwrite offset part (file ++ replicate k 0)) none_missing
    ∙ ap (overwrite offset part) (append-nil file)

module _ (lib : Primitives) (key nonce : Bytes) where
  -- The recorded MAC of a chunk is the MAC of its bytes on disk.
  abbrev pub HasMac : Bytes → TransferState → Chunk → Type 0
  HasMac file state c =
      (mac : Bytes) × (get_chunk_mac state c.index ≡ some (some mac))
      × (chunk_mac lib (piece file c) key nonce ≡ some mac)

  pub record IsVouched (size : ℕ) (s : Session) : Type 0 where
    pub full : length s.file ≡ size
    pub sized : s.state.total_size ≡ size
    pub vouched :
        (c : Chunk)
        → In c (iter_chunks size)
        → is_chunk_done s.state c.index ≡ true
        → HasMac s.file s.state c

  untouched-HasMac :
      (file file' : Bytes) (state state' : TransferState) (c : Chunk)
      → file' ≡ file
      → Alike state state'
      → (is_chunk_done state c.index ≡ true → HasMac file state c)
      → is_chunk_done state' c.index ≡ true
      → HasMac file' state' c
  untouched-HasMac file file' state state' c f a v e =
      let (mac, there, made) = v (sym (a.same_done c.index) ∙ e) in
      (mac, a.same_macs c.index ∙ there, rw f made)

  -- The chunk that was written, and one apart from it
  written-HasMac :
      (file plaintext mac : Bytes) (state t : TransferState) (c : Chunk)
      → end_of c ≤ length file
      → length plaintext ≡ c.size
      → chunk_mac lib plaintext key nonce ≡ some mac
      → Marked state c.index mac t
      → HasMac (overwrite c.offset plaintext file) t c
  written-HasMac file plaintext mac state t c h l m marked =
      (mac, marked.mac_there, rw (← l, slice-overwrite c.offset plaintext file (omega arith)) m)

  apart-HasMac :
      (file plaintext mac : Bytes) (state t : TransferState) (c d : Chunk)
      → end_of c ≤ length file
      → length plaintext ≡ c.size
      → Marked state c.index mac t
      → IsApart d c
      → (is_chunk_done state d.index ≡ true → HasMac file state d)
      → is_chunk_done t d.index ≡ true
      → HasMac (overwrite c.offset plaintext file) t d
  apart-HasMac file plaintext mac state t c d h l marked (n, sides) v e =
      let was_done : is_chunk_done state d.index ≡ true =
        ground (arith, marked.done_there d.index, n, e) in
      let (other, there, made) = v was_done in
      (
        other,
        marked.others d.index n ∙ there,
        elim sides [
          | inl before ↦
              rw
                (slice-overwrite-before c.offset plaintext file (omega arith) d.offset d.size
                  before)
                made
          | inr after ↦
              rw
                (slice-overwrite-after c.offset plaintext file (omega arith) d.offset d.size
                  (omega arith))
                made
        ],
      )

  write-HasMac :
      (size : ℕ) (file plaintext mac : Bytes) (state t : TransferState) (c d : Chunk)
      → In c (iter_chunks size)
      → In d (iter_chunks size)
      → end_of c ≤ length file
      → length plaintext ≡ c.size
      → chunk_mac lib plaintext key nonce ≡ some mac
      → Marked state c.index mac t
      → (is_chunk_done state d.index ≡ true → HasMac file state d)
      → is_chunk_done t d.index ≡ true
      → HasMac (overwrite c.offset plaintext file) t d
  write-HasMac size file plaintext mac state t c d i j h l m marked v e =
      elim (Tiles-IsApart 0 0 size (iter_chunks size) d c (iter_chunks-Tiles size) j i) [
        | inl same ↦
            subst (HasMac (overwrite c.offset plaintext file) t) (sym same)
              (written-HasMac file plaintext mac state t c h l m marked)
        | inr apart ↦ apart-HasMac file plaintext mac state t c d h l marked apart v e
      ]

  Stepped-IsVouched :
      (size : ℕ) (env : Attempt) (c : Chunk) (s : Session) (r : Result Fault (Unit {0}) × Session)
      → In c (iter_chunks size)
      → Stepped lib key nonce env c s r
      → IsVouched size s
      → IsVouched size r.1
  Stepped-IsVouched size env c s (o, t) i (untouched n f a) v = record {
    full = ap length f ∙ v.full;
    sized = a.same_size ∙ v.sized;
    vouched = λ d j. untouched-HasMac s.file t.file s.state t.state d f a (v.vouched d j);
  }
  Stepped-IsVouched size env c s (o, t) i
        (written counter encrypted plaintext mac x accepted counted opened l m f marked a) v =
      let w = Tiles-Within 0 0 size (iter_chunks size) c (iter_chunks-Tiles size) i in
      let fits : end_of c ≤ length s.file = omega (arith, w.inside, v.full) in
      let same : t.file ≡ overwrite c.offset plaintext s.file =
        f ∙ write_at-overwrite c.offset plaintext s.file (omega arith) in
      record {
        full = ap length same ∙ length-overwrite c.offset plaintext s.file (omega arith) ∙ v.full;
        sized = a.same_size ∙ marked.same_size ∙ v.sized;
        vouched = λ d j.
            untouched-HasMac (overwrite c.offset plaintext s.file) t.file x t.state d same a (
              write-HasMac size s.file plaintext mac s.state x c d i j fits l m marked
                (v.vouched d j));
      }

  -- Attempts at chunks of the plan, by any of the workers and in any order
  pub data Attempts (size : ℕ) : Session → Session → Type 0 where
    here : {s : Session} → Attempts size s s
    attempt :
        {s t : Session} (c : Chunk) (env : Attempt)
        → In c (iter_chunks size)
        → Attempts size s t
        → Attempts size s (fetch_chunk lib env c key nonce t).1

-- A file whose done chunks have the recorded MACs keeps them through every sequence of attempts at chunks
-- of its plan, whatever the answers, the proxies, the stops and the failures are.
pub Attempts-IsVouched :
    (lib : Primitives) (key nonce : Bytes)
    → IsCipher lib
    → IsStream lib
    → (size : ℕ) (s t : Session) → Attempts lib key nonce size s t
    → IsVouched lib key nonce size s
    → IsVouched lib key nonce size t
Attempts-IsVouched lib key nonce cipher stream size s t here v = v
Attempts-IsVouched lib key nonce cipher stream size s t (attempt {t = u} c env i r) v =
    Stepped-IsVouched lib key nonce size env c u (fetch_chunk lib env c key nonce u) i
      (fetch_chunk-Stepped lib cipher stream key nonce env c u)
      (Attempts-IsVouched lib key nonce cipher stream size s u r v)
