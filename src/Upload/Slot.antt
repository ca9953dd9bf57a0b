-- ===== src/Upload/Slot.antt =====
-- What a slot promises: which chunks it has, and the token that it has answered.
use mega_basterd_cli.Prelude.{
  ℕ, Bool, true, false, ◌||◌, Option, none, some, ◌≡◌, arith, ◌==◌, if◌then◌else◌,
}
use mega_basterd_cli.Chunks.{Chunk, iter_chunks}
use mega_basterd_cli.Chunks.Apart.{In}
use mega_basterd_cli.State.Hex.{Bytes}
use mega_basterd_cli.Upload.Post.{is_final_chunk, is_empty, lacks_token}

pub record Slot : Type 0 where
  pub done : ℕ → Bool
  pub token : Option Bytes

abbrev pub empty_slot : Slot
empty_slot = record { done = λ j. false; token = none }

abbrev pub also : ℕ → (ℕ → Bool) → ℕ → Bool
also k done j = done j || j == k

-- A slot is sent chunks of the plan: it answers the final chunk with a token, of which the first counts,
-- and the other chunks with nothing. It can be given up for an empty one.
pub data Moves (size : ℕ) : Slot → Slot → Type 0 where
  here : {a : Slot} → Moves size a a
  accept :
      {a b : Slot} (c : Chunk)
      → In c (iter_chunks size)
      → is_final_chunk c size ≡ false
      → Moves size a b
      → Moves size a (record { done = also c.index b.done; token = b.token })
  answer :
      {a b : Slot} (c : Chunk) (token : Bytes)
      → In c (iter_chunks size)
      → is_final_chunk c size ≡ true
      → is_empty token ≡ false
      → Moves size a b
      → Moves size a (record {
        done = also c.index b.done;
        token = if lacks_token b.token then some token else b.token;
      })
  renew : {a b : Slot} → Moves size a b → Moves size a empty_slot

-- The final chunk is done where there is a token.
abbrev pub IsClosed : ℕ → Slot → Type 0
IsClosed size a =
    (token : Bytes)
    → a.token ≡ some token
    → (c : Chunk) × In c (iter_chunks size)
      × (is_final_chunk c size ≡ true)
      × (a.done c.index ≡ true)

answer-IsClosed :
    (size : ℕ) (b : Slot) (c : Chunk) (token : Bytes)
    → In c (iter_chunks size)
    → is_final_chunk c size ≡ true
    → IsClosed size (record {
      done = also c.index b.done;
      token = if lacks_token b.token then some token else b.token;
    })
answer-IsClosed size b c token i f t e = (c, i, f, ground arith)

Moves-IsClosed : (size : ℕ) (a b : Slot) → Moves size a b → IsClosed size a → IsClosed size b
Moves-IsClosed size a b here h = h
Moves-IsClosed size a b (accept {b = d} c i f m) h = λ t e.
    let (final, planned, ends, there) = Moves-IsClosed size a d m h t e in
    (final, planned, ends, ground (arith, there))
Moves-IsClosed size a b (answer {b = d} c token i f n m) h = answer-IsClosed size d c token i f
Moves-IsClosed size a b (renew m) h = λ t e. absurd (cc)
