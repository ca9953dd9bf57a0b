-- ===== src/Stream/Pump.antt =====
-- `_pump` (src/megabasterd_cli/streaming/server.py): the body that the client is sent.
use mega_basterd_cli.Prelude.{
  ℕ, ◌+◌, ◌-◌, Bool, not, List, [], ◌∷◌, ◌++◌, length, take, drop, ltb, leb, ◌==◌, if◌then◌else◌,
  not,
}
use mega_basterd_cli.State.Hex.{Bytes}
use mega_basterd_cli.Crypto.Primitives.{Primitives}
use mega_basterd_cli.Upload.Post.{is_empty}

-- All of the length, fewer bytes, a client that is gone, and an upstream that breaks off
pub data Ended : Type 0 where
  complete short disconnected broken : Ended

pub record Pumped : Type 0 where
  pub body : Bytes
  pub ended : Ended

-- What the cipher has decrypted, how much of that was skipped, and what was sent
pub record Pumping : Type 0 where
  pub seen : Bytes
  pub block_skip : ℕ
  pub sent : Bytes

pub data Round : Type 0 where
  going : Pumping → Round
  stopped : Pumped → Round

abbrev pub take_skip : ℕ → Bytes → ℕ
take_skip skip bs = if ltb (length bs) skip then length bs else skip

-- `accepts` says whether the client takes what follows so many bytes.
module _ (lib : Primitives) (key nonce : Bytes) (counter : ℕ) (accepts : ℕ → Bool) (limit : ℕ) where
  -- `cipher.decrypt(block)`, after what the cipher has seen
  abbrev pub decrypt_next : Bytes → Bytes → Bytes
  decrypt_next seen block = drop (length seen) (lib.ctr_decrypt key nonce counter (seen ++ block))

  abbrev pub up_to_limit : Bytes → Bytes → Bytes
  up_to_limit sent bs =
      if ltb limit (length sent + length bs) then take (limit - length sent) bs else bs

  unfoldable pub write_part : Pumping → Bytes → Round
  write_part p [] = going p
  write_part p (b ∷ bs) =
      if not (accepts (length p.sent))
      then stopped (record { body = p.sent; ended = disconnected })
      else if leb limit (length p.sent + length (b ∷ bs))
      then stopped (record {
        body = p.sent ++ (b ∷ bs);
        ended = if length p.sent + length (b ∷ bs) == limit then complete else short;
      })
      else going (record p { sent = p.sent ++ (b ∷ bs) })

  unfoldable pub pump_block : Pumping → Bytes → Round
  pump_block p block =
      if is_empty block
      then going p
      else (let decrypted = decrypt_next p.seen block in
          let skipped = take_skip p.block_skip decrypted in
          write_part
            (record { seen = p.seen ++ block; block_skip = p.block_skip - skipped; sent = p.sent })
            (up_to_limit p.sent (drop skipped decrypted)))

  abbrev pub after : (Pumping → Pumped) → Round → Pumped
  after k (going p) = k p
  after k (stopped r) = r

  -- The body ends, or it breaks off.
  unfoldable pub pump_end : Bool → Pumping → Pumped
  pump_end whole p = record {
    body = p.sent;
    ended = if not whole then broken else if length p.sent == limit then complete else short;
  }

  unfoldable pub pump : List Bytes → Bool → Pumping → Pumped
  pump [] whole p = pump_end whole p
  pump (block ∷ blocks) whole p = after (pump blocks whole) (pump_block p block)
