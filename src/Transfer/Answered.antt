-- ===== src/Transfer/Answered.antt =====
-- The answers that `fetch_chunk` (src/megabasterd_cli/core/download_transport.py) goes on with.
use mathlib.Core.List.{append-nil, append_assoc}
use mega_basterd_cli.Prelude.{
  ◌≢◌, false, none, some, List, ◌∷◌, ◌++◌, join, ◌-◌, ltb, ℕ, ◌+◌, String, Option, [], ◌≡◌, refl,
  arith, length, ok, Bool-cases, inl, inr, ◌∙◌,
}
use mega_basterd_cli.Chunks.{Chunk}
use mega_basterd_cli.State.Hex.{Bytes}
use mega_basterd_cli.Crypto.Primitives.{Primitives}
use mathlib.Core.Path.{◌∙◌}
use mega_basterd_cli.RangeReply.{Headers, validate_range_response}
use mega_basterd_cli.Transfer.Session.{Break, Attempt, Session, answered, refresh_url}
use mega_basterd_cli.Transfer.Fetch.{Body, read_blocks, take_status}

-- A worker that is not stopped, at its start or before a block
pub record IsRunning (env : Attempt) : Type 0 where
  pub starts : env.stopped ≡ false
  pub goes_on : (i : ℕ) → env.stopped_at i ≡ false

-- The body of an answer that came whole and passed the check of its range
pub record Accepted (env : Attempt) (c : Chunk) (size : ℕ) (encrypted : Bytes) : Type 0 where
  pub status : ℕ
  pub headers : Headers
  pub blocks : List Bytes
  pub answer : env.reply ≡ answered status headers blocks none
  pub ranged :
      validate_range_response env.disk.texts.parse_int status headers c.offset
        (c.offset + c.size - 1)
        size
      ≡ ok tt
  pub read : encrypted ≡ join blocks

module _ (lib : Primitives) (env : Attempt) where
  pub read_blocks-full :
      (size i : ℕ) (read : Bytes) (blocks : List Bytes) (end : Option Break) (encrypted : Bytes)
      → read_blocks lib env size i read blocks end ≡ Body.full encrypted
      → (end ≡ none) × (encrypted ≡ read ++ join blocks)
  unfolding read_blocks
  read_blocks-full size i read [] none encrypted e = (refl, ground (arith, e, append-nil read))
  read_blocks-full size i read [] (some b) encrypted e = absurd (ground arith)
  read_blocks-full size i read (block ∷ blocks) end encrypted e =
      elim (Bool-cases (env.stopped_at i)) [
        | inl h ↦ absurd (ground (arith, h, e))
        | inr h ↦ elim (Bool-cases (ltb size (length read + length block))) [
          | inl k ↦ absurd (ground (arith, h, k, e))
          | inr k ↦
              let (complete, rest) =
                read_blocks-full size (i + 1) (read ++ block) blocks end encrypted
                  (ground (arith, h, k, e)) in
              (complete, rest ∙ append_assoc read block (join blocks))
        ]
      ]

  pub read_blocks-stopped :
      (size i : ℕ) (read : Bytes) (blocks : List Bytes) (end : Option Break)
      → IsRunning env
      → read_blocks lib env size i read blocks end ≢ Body.stopped
  unfolding read_blocks
  read_blocks-stopped size i read [] none running e = absurd (ground arith)
  read_blocks-stopped size i read [] (some b) running e = absurd (ground arith)
  read_blocks-stopped size i read (block ∷ blocks) end running e =
      elim (Bool-cases (ltb size (length read + length block))) [
        | inl k ↦ absurd (ground (arith, running.goes_on i, k, e))
        | inr k ↦
            read_blocks-stopped size (i + 1) (read ++ block) blocks end running
              (ground (arith, running.goes_on i, k, e))
      ]

  pub take_status-ok :
      (c : Chunk) (status : ℕ) (headers : Headers) (seen : ℕ) (picked : Option String) (s : Session)
      → (take_status lib env c status headers seen picked s).0 ≡ ok tt
      → validate_range_response env.disk.texts.parse_int status headers c.offset
          (c.offset + c.size - 1)
          s.state.total_size
        ≡ ok tt
  unfolding take_status
  take_status-ok c status headers seen picked s e = ground arith

  pub take_status-same :
      (c : Chunk) (status : ℕ) (headers : Headers) (seen : ℕ) (picked : Option String) (s : Session)
      → ((take_status lib env c status headers seen picked s).1.file ≡ s.file)
        × ((take_status lib env c status headers seen picked s).1.state ≡ s.state)
  unfolding take_status refresh_url
  take_status-same c status headers seen picked s = ground arith
