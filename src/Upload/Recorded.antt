-- ===== src/Upload/Recorded.antt =====
-- What an upload of src/megabasterd_cli/core/upload_transport.py has recorded: a chunk with a MAC is at the
-- slot, and the token is the answer to the final chunk.
use mathlib.Core.Option.{some-injective}
use mathlib.Core.Path.{subst, ◌∙◌}
use mega_basterd_cli.Prelude.{
  ℕ, String, true, false, not, ◌&&◌, some, List, [], ◌∷◌, ◌≡◌, refl, sym, ap, arith, inl, inr, ◌⊎◌,
  Bool-cases, Bool, Result,
}
use mega_basterd_cli.Chunks.{Chunk, iter_chunks}
use mega_basterd_cli.Chunks.Tiling.{iter_chunks-Tiles}
use mega_basterd_cli.Chunks.Apart.{In, IsApart, Tiles-IsApart}
use mega_basterd_cli.State.Hex.{Bytes}
use mega_basterd_cli.State.Model.{TransferState, get_chunk_mac}
use mega_basterd_cli.State.Marks.{Marked}
use mega_basterd_cli.Crypto.Primitives.{Primitives}
use mega_basterd_cli.Crypto.Mac.{chunk_mac}
use mega_basterd_cli.Integrity.{piece}
use mega_basterd_cli.Transfer.Fetch.{ctr_offset_to_counter}
use mega_basterd_cli.Upload.Session.{Delivery, Session, Fault}
use mega_basterd_cli.Upload.Post.{is_empty, is_final_chunk, lacks_token}
use mega_basterd_cli.Upload.Committed.{Same, Stepped, untouched, posted, delivery, token_after}

abbrev pub Sent : Delivery → List Delivery → Type 0
Sent d [] = ⊥
Sent d (e ∷ es) = (d ≡ e) ⊎ Sent d es

module _ (lib : Primitives) (key nonce source : Bytes) where
  -- The endpoint at this slot was sent the chunk's encrypted bytes, and has answered with this token.
  pub record IsAt (url : String) (log : List Delivery) (c : Chunk) (token : Bytes) : Type 0 where
    pub counter : ℕ
    pub counted : ctr_offset_to_counter c.offset ≡ some counter
    pub sent :
        Sent
          (record {
            url = url;
            offset = c.offset;
            encrypted = lib.ctr_encrypt key nonce counter (piece source c);
            token = token;
          })
          log

  -- The MAC of the chunk's bytes, and the chunk at the slot
  pub record IsHeld (s : Session) (c : Chunk) (mac : Bytes) : Type 0 where
    pub made : chunk_mac lib (piece source c) key nonce ≡ some mac
    pub answer : Bytes
    pub there : IsAt s.upload_url s.delivered c answer

  -- The chunk that the token answers
  pub record IsAnswer (size : ℕ) (s : Session) (token : Bytes) : Type 0 where
    pub chunk : Chunk
    pub planned : In chunk (iter_chunks size)
    pub final : is_final_chunk chunk size ≡ true
    pub filled : is_empty token ≡ false
    pub there : IsAt s.upload_url s.delivered chunk token

  pub record IsRecorded (size : ℕ) (s : Session) : Type 0 where
    pub sized : s.state.total_size ≡ size
    pub held :
        (c : Chunk) (mac : Bytes)
        → In c (iter_chunks size)
        → get_chunk_mac s.state c.index ≡ some (some mac)
        → IsHeld s c mac
    pub answered : (token : Bytes) → s.completion_token ≡ some token → IsAnswer size s token

  later-IsAt :
      (s t : Session) (d : Delivery) (c : Chunk) (token : Bytes)
      → t.upload_url ≡ s.upload_url
      → t.delivered ≡ d ∷ s.delivered
      → IsAt s.upload_url s.delivered c token
      → IsAt t.upload_url t.delivered c token
  later-IsAt s t d c token u l a =
      subst (λ (x : String). IsAt x t.delivered c token) (sym u)
        (subst (λ (x : List Delivery). IsAt s.upload_url x c token) (sym l)
          (record { counter = a.counter; counted = a.counted; sent = inr a.sent }))

  Same-IsAt :
      (s t : Session) (c : Chunk) (token : Bytes)
      → Same s t
      → IsAt s.upload_url s.delivered c token
      → IsAt t.upload_url t.delivered c token
  Same-IsAt s t c token h a =
      subst (λ (x : String). IsAt x t.delivered c token) (sym h.same_url)
        (subst (λ (x : List Delivery). IsAt s.upload_url x c token) (sym h.same_log) a)

  pub Same-IsRecorded :
      (size : ℕ) (s t : Session) → Same s t → IsRecorded size s → IsRecorded size t
  Same-IsRecorded size s t h r = record {
    sized = h.alike.same_size ∙ r.sized;
    held = λ c mac i e.
        let was = r.held c mac i (sym (h.alike.same_macs c.index) ∙ e) in
        record {
          made = was.made;
          answer = was.answer;
          there = Same-IsAt s t c was.answer h was.there;
        };
    answered = λ token e.
        let was = r.answered token (sym h.same_token ∙ e) in
        record {
          chunk = was.chunk;
          planned = was.planned;
          final = was.final;
          filled = was.filled;
          there = Same-IsAt s t was.chunk token h was.there;
        };
  }

  -- The delivery of a chunk is at the head of the log.
  now-IsAt :
      (s t : Session) (c : Chunk) (counter : ℕ) (body : Bytes)
      → ctr_offset_to_counter c.offset ≡ some counter
      → t.upload_url ≡ s.upload_url
      → t.delivered
        ≡ delivery s c (lib.ctr_encrypt key nonce counter (piece source c)) body ∷ s.delivered
      → IsAt t.upload_url t.delivered c body
  now-IsAt s t c counter body counted u l =
      subst (λ (x : String). IsAt x t.delivered c body) (sym u)
        (subst (λ (x : List Delivery). IsAt s.upload_url x c body) (sym l)
          (record { counter = counter; counted = counted; sent = inl refl }))

  posted-IsHeld :
      (s t : Session) (c d : Chunk) (counter : ℕ) (body mac m : Bytes) (x : TransferState)
      → ctr_offset_to_counter c.offset ≡ some counter
      → chunk_mac lib (piece source c) key nonce ≡ some mac
      → Marked s.state c.index mac x
      → t.upload_url ≡ s.upload_url
      → t.delivered
        ≡ delivery s c (lib.ctr_encrypt key nonce counter (piece source c)) body ∷ s.delivered
      → (d ≡ c) ⊎ IsApart d c
      → (get_chunk_mac s.state d.index ≡ some (some m) → IsHeld s d m)
      → get_chunk_mac x d.index ≡ some (some m)
      → IsHeld t d m
  posted-IsHeld s t c d counter body mac m x counted made marked u l (inl same) was e =
      subst (λ (y : Chunk). IsHeld t y m) (sym same)
        (record {
          made =
              made
              ∙ some-injective (some mac) (some m) (
                  sym marked.mac_there
                  ∙ ap (λ (y : Chunk). get_chunk_mac x y.index) (sym same)
                  ∙ e);
          answer = body;
          there = now-IsAt s t c counter body counted u l;
        })
  posted-IsHeld s t c d counter body mac m x counted made marked u l (inr (n, sides)) was e =
      let before = was (sym (marked.others d.index n) ∙ e) in
      record {
        made = before.made;
        answer = before.answer;
        there = later-IsAt s t _ d before.answer u l before.there;
      }

  posted-IsAnswer :
      (size : ℕ) (s t : Session) (c : Chunk) (counter : ℕ) (body token : Bytes)
      → In c (iter_chunks size)
      → s.state.total_size ≡ size
      → is_empty body ≡ not (is_final_chunk c s.state.total_size)
      → ctr_offset_to_counter c.offset ≡ some counter
      → t.upload_url ≡ s.upload_url
      → t.delivered
        ≡ delivery s c (lib.ctr_encrypt key nonce counter (piece source c)) body ∷ s.delivered
      → (s.completion_token ≡ some token → IsAnswer size s token)
      → token_after body s.completion_token ≡ some token
      → IsAnswer size t token
  posted-IsAnswer size s t c counter body token i sized fits counted u l was e =
      elim (Bool-cases (not (is_empty body) && lacks_token s.completion_token)) [
        | inr kept ↦
            let before = was (ground (arith, kept, e)) in
            record {
              chunk = before.chunk;
              planned = before.planned;
              final = before.final;
              filled = before.filled;
              there = later-IsAt s t _ before.chunk token u l before.there;
            }
        | inl taken ↦
            let same : body ≡ token = some-injective body token (ground (arith, taken, e)) in
            let there = now-IsAt s t c counter body counted u l in
            record {
              chunk = c;
              planned = i;
              final =
                  subst (λ (n : ℕ). is_final_chunk c n ≡ true) sized (ground (arith, fits, taken));
              filled = ap is_empty (sym same) ∙ ground (arith, taken);
              there = subst (λ (b : Bytes). IsAt t.upload_url t.delivered c b) same there;
            }
      ]

  pub Stepped-IsRecorded :
      (size : ℕ) (stop : Bool) (c : Chunk) (s : Session) (r : Result Fault (Unit {0}) × Session)
      → In c (iter_chunks size)
      → Stepped lib key nonce source stop c s r
      → IsRecorded size s
      → IsRecorded size r.1
  Stepped-IsRecorded size stop c s r i (untouched n h) was = Same-IsRecorded size s r.1 h was
  Stepped-IsRecorded size stop c s r i
        (posted counter body mac x counted fits made marked alike url token log) was =
      record {
        sized = alike.same_size ∙ marked.same_size ∙ was.sized;
        held = λ d m j e.
            posted-IsHeld s r.1 c d counter body mac m x counted made marked url log
              (Tiles-IsApart 0 0 size (iter_chunks size) d c (iter_chunks-Tiles size) j i)
              (was.held d m j) (sym (alike.same_macs d.index) ∙ e);
        answered = λ b e.
            posted-IsAnswer size s r.1 c counter body b i was.sized fits counted url log
              (was.answered b) (sym token ∙ e);
      }
