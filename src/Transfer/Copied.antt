-- ===== src/Transfer/Copied.antt =====
-- Downloads from an endpoint that serves the file (src/megabasterd_cli/core/download_transport.py): a
-- chunk that is done has the source's bytes, and a worker that returns has done its chunk.
use mathlib.Core.Path.{subst, ◌∙◌}
use mega_basterd_cli.Prelude.Slices.{
  slice, overwrite, length-overwrite, slice-overwrite, slice-overwrite-before,
  slice-overwrite-after,
}
use mega_basterd_cli.Prelude.{
  ℕ, ◌/◌, ◌≤◌, true, false, some, List, [], ◌∷◌, ◌≡◌, refl, sym, ap, arith, inl, inr, length, map,
  Result, ok, ◌==◌, All-take, All-drop, drop, join,
}
use mega_basterd_cli.Chunks.{Chunk, iter_chunks, end_of}
use mega_basterd_cli.Chunks.Tiling.{iter_chunks-Tiles}
use mega_basterd_cli.Chunks.Apart.{In, Tiles-IsApart, Tiles-Within}
use mega_basterd_cli.State.Hex.{Bytes, AreBytes}
use mega_basterd_cli.State.Model.{is_chunk_done}
use mega_basterd_cli.Crypto.Primitives.{Primitives, IsCounter}
use mega_basterd_cli.Integrity.{piece}
use mega_basterd_cli.Integrity.Pieces.{iter_chunks-join}
use mega_basterd_cli.Transfer.Session.{Fault, Attempt, Session}
use mega_basterd_cli.Transfer.Fetch.{ctr_offset_to_counter}
use mega_basterd_cli.Transfer.Answered.{IsRunning, Accepted}
use mega_basterd_cli.Transfer.Stepped.{Stepped, untouched, written}
use mega_basterd_cli.Transfer.Vouched.{write_at-overwrite}

abbrev Outcome : Type 0
Outcome = Result Fault (Unit {0}) × Session

module _ (lib : Primitives) (key nonce source : Bytes) where
  -- The endpoint's answer, where it is accepted, is the chunk of the encrypted source.
  abbrev pub IsHonest : Attempt → Chunk → ℕ → Type 0
  IsHonest env c size =
      (encrypted : Bytes)
      → Accepted env c size encrypted
      → encrypted ≡ lib.ctr_encrypt key nonce (c.offset / 16) (piece source c)

  pub record IsCopied (size : ℕ) (s : Session) : Type 0 where
    pub full : length s.file ≡ size
    pub sized : s.state.total_size ≡ size
    pub copied :
        (c : Chunk)
        → In c (iter_chunks size)
        → is_chunk_done s.state c.index ≡ true
        → piece s.file c ≡ piece source c

  pub ctr_offset_to_counter-some :
      (offset counter : ℕ) → ctr_offset_to_counter offset ≡ some counter → counter ≡ offset / 16
  unfolding ctr_offset_to_counter
  ctr_offset_to_counter-some offset counter e = ground (arith, e)

  opened-piece :
      (env : Attempt) (c : Chunk) (size counter : ℕ) (encrypted plaintext : Bytes)
      → IsCounter lib
      → AreBytes source
      → IsHonest env c size
      → Accepted env c size encrypted
      → ctr_offset_to_counter c.offset ≡ some counter
      → plaintext ≡ lib.ctr_decrypt key nonce counter encrypted
      → plaintext ≡ piece source c
  opened-piece env c size counter encrypted plaintext undone b honest accepted counted opened =
      let at = ctr_offset_to_counter-some c.offset counter counted in
      opened
      ∙ rw (at, honest encrypted accepted)
          (undone key nonce (piece source c) (c.offset / 16)
            (All-take _ c.size (drop c.offset source) (All-drop _ c.offset source b)))

  write-copied :
      (size : ℕ) (file : Bytes) (c d : Chunk)
      → In c (iter_chunks size)
      → In d (iter_chunks size)
      → end_of c ≤ length file
      → length (piece source c) ≡ c.size
      → ((d.index == c.index) ≡ false → piece file d ≡ piece source d)
      → piece (overwrite c.offset (piece source c) file) d ≡ piece source d
  write-copied size file c d i j h l v =
      elim (Tiles-IsApart 0 0 size (iter_chunks size) d c (iter_chunks-Tiles size) j i) [
        | inl same ↦
            subst
              (λ (e : Chunk). piece (overwrite c.offset (piece source c) file) e ≡ piece source e)
              (sym same)
              (subst
                (λ (n : ℕ).
                  slice c.offset n (overwrite c.offset (piece source c) file) ≡ piece source c)
                l (slice-overwrite c.offset (piece source c) file (omega arith)))
        | inr (n, sides) ↦ elim sides [
          | inl before ↦
              slice-overwrite-before c.offset (piece source c) file (omega arith) d.offset d.size
                before
              ∙ v n
          | inr after ↦
              slice-overwrite-after c.offset (piece source c) file (omega arith) d.offset d.size
                (omega arith)
              ∙ v n
        ]
      ]

  pub Stepped-IsCopied :
      (size : ℕ) (env : Attempt) (c : Chunk) (s : Session) (r : Outcome)
      → IsCounter lib
      → AreBytes source
      → IsHonest env c size
      → In c (iter_chunks size)
      → Stepped lib key nonce env c s r
      → IsCopied size s
      → IsCopied size r.1
  Stepped-IsCopied size env c s (o, t) undone b honest i (untouched n f a) v = record {
    full = ap length f ∙ v.full;
    sized = a.same_size ∙ v.sized;
    copied =
        λ d j e. ap (λ (x : Bytes). piece x d) f ∙ v.copied d j (sym (a.same_done d.index) ∙ e);
  }
  Stepped-IsCopied size env c s (o, t) undone b honest i
        (written counter encrypted plaintext mac x accepted counted opened l m f marked a) v =
      let w = Tiles-Within 0 0 size (iter_chunks size) c (iter_chunks-Tiles size) i in
      let fits : end_of c ≤ length s.file = omega (arith, w.inside, v.full) in
      let right : plaintext ≡ piece source c =
        opened-piece env c size counter encrypted plaintext undone b honest
          (subst (λ (n : ℕ). Accepted env c n encrypted) v.sized accepted) counted opened in
      let same : t.file ≡ overwrite c.offset (piece source c) s.file =
        f
        ∙ write_at-overwrite c.offset plaintext s.file (omega arith)
        ∙ ap (λ (y : Bytes). overwrite c.offset y s.file) right in
      let size_kept : length (piece source c) ≡ c.size = sym (ap length right) ∙ l in
      record {
        full =
            ap length same
            ∙ length-overwrite c.offset (piece source c) s.file (omega (arith, size_kept))
            ∙ v.full;
        sized = a.same_size ∙ marked.same_size ∙ v.sized;
        copied = λ d j e.
            ap (λ (y : Bytes). piece y d) same
            ∙ write-copied size s.file c d i j fits size_kept (λ n.
              v.copied d j
                (ground (arith, marked.done_there d.index, n, sym (a.same_done d.index) ∙ e)));
      }

  -- A chunk that is done stays done, and a worker that is not stopped and returns has done its chunk.
  pub Stepped-done :
      (env : Attempt) (c : Chunk) (s : Session) (r : Outcome) (j : ℕ)
      → Stepped lib key nonce env c s r
      → is_chunk_done s.state j ≡ true
      → is_chunk_done r.1.state j ≡ true
  Stepped-done env c s r j (untouched n f a) e = a.same_done j ∙ e
  Stepped-done env c s r j (written counter encrypted plaintext mac x _ _ _ _ _ _ marked a) e =
      a.same_done j ∙ ground (arith, marked.done_there j, e)

  pub returned-done :
      (env : Attempt) (c : Chunk) (s : Session) (r : Outcome)
      → Stepped lib key nonce env c s r
      → IsRunning env
      → r.0 ≡ ok tt
      → is_chunk_done r.1.state c.index ≡ true
  returned-done env c s r (untouched n f a) running e = absurd (n running e)
  returned-done env c s r (written counter encrypted plaintext mac x _ _ _ _ _ _ marked a) running
        e =
      a.same_done c.index ∙ ground (arith, marked.done_there c.index)

  all-pieces :
      (file : Bytes) (cs : List Chunk)
      → ((c : Chunk) → In c cs → piece file c ≡ piece source c)
      → map (piece file) cs ≡ map (piece source) cs
  all-pieces file [] h = refl
  all-pieces file (c ∷ cs) h = rw (h c (inl refl), all-pieces file cs (λ d i. h d (inr i))) refl

  -- A file whose every chunk is done is the source.
  pub IsCopied-whole :
      (size : ℕ) (s : Session)
      → length source ≡ size
      → IsCopied size s
      → ((c : Chunk) → In c (iter_chunks size) → is_chunk_done s.state c.index ≡ true)
      → s.file ≡ source
  IsCopied-whole size s l v done =
      sym (
        ap (λ (n : ℕ). join (map (piece s.file) (iter_chunks n))) (sym v.full)
        ∙ iter_chunks-join s.file)
      ∙ ap join (all-pieces s.file (iter_chunks size) (λ c i. v.copied c i (done c i)))
      ∙ ap (λ (n : ℕ). join (map (piece source) (iter_chunks n))) (sym l)
      ∙ iter_chunks-join source
