-- ===== src/Stream/Pumped.antt =====
-- What `_pump` of src/megabasterd_cli/streaming/server.py sends.
use mathlib.Core.Path.{subst, ◌∙◌}
use mathlib.Core.List.{append_assoc, append-nil}
use mega_basterd_cli.Prelude.Slices.{drop-past, drop-over, take-prefix, take-all}
use mega_basterd_cli.Prelude.{
  ℕ, ◌+◌, ◌-◌, ◌≤◌, ◌<◌, Bool, true, false, List, [], ◌∷◌, ◌++◌, ◌≡◌, refl, sym, ap, arith, inl,
  inr, ◌⊎◌, length, take, drop, ltb, leb, Bool-cases, length-append, take-drop, length-take,
  length-drop,
}
use mega_basterd_cli.State.Hex.{Bytes}
use mega_basterd_cli.Crypto.Primitives.{Primitives}
use mega_basterd_cli.Stream.Pump.{
  complete, short, disconnected, broken, Pumped, Pumping, Round, going, stopped, take_skip,
  decrypt_next, up_to_limit, write_part, pump_block, after, pump_end, pump,
}

-- AES in counter mode decrypts byte by byte: as many bytes, and the first ones from the first ones.
pub record IsBytewise (lib : Primitives) : Type 0 where
  pub same_length :
      (key nonce : Bytes) (counter : ℕ) (bs : Bytes)
      → length (lib.ctr_decrypt key nonce counter bs) ≡ length bs
  pub first_bytes :
      (key nonce : Bytes) (counter : ℕ) (a b : Bytes)
      → lib.ctr_decrypt key nonce counter (a ++ b)
        ≡ lib.ctr_decrypt key nonce counter a
          ++ drop (length a) (lib.ctr_decrypt key nonce counter (a ++ b))

-- All of the promised bytes; all that there is, which is less; or less with an end that the client or the
-- upstream made.
pub data IsSent (limit : ℕ) (plain : Bytes) (r : Pumped) : Type 0 where
  full :
      r.ended ≡ complete → r.body ≡ take limit plain → length r.body ≡ limit → IsSent limit plain r
  less : r.ended ≡ short → r.body ≡ plain → length plain < limit → IsSent limit plain r
  gone :
      (rest : Bytes)
      → (r.ended ≡ disconnected) ⊎ (r.ended ≡ broken)
      → plain ≡ r.body ++ rest
      → length r.body < limit
      → IsSent limit plain r

module _ (lib : Primitives) (key nonce : Bytes) (counter : ℕ) (accepts : ℕ → Bool) (limit : ℕ) where
  -- A round that goes on has sent all that it has; one that stops has sent what it may.
  data IsRound (seen : Bytes) (skip : ℕ) (now all : Bytes) : Round → Type 0 where
    goes :
        (p : Pumping)
        → p.seen ≡ seen
        → p.block_skip ≡ skip
        → p.sent ≡ now
        → length now < limit
        → IsRound seen skip now all (going p)
    stops : (r : Pumped) → IsSent limit all r → IsRound seen skip now all (stopped r)

  -- The part as it is, and the part that is cut
  write_part-IsRound :
      (p : Pumping) (part rest : Bytes)
      → length p.sent + length part ≤ limit
      → length p.sent < limit
      → IsRound p.seen p.block_skip
          (p.sent ++ part)
          (p.sent ++ (part ++ rest))
          (write_part lib key nonce counter accepts limit p part)
  unfolding write_part
  write_part-IsRound p [] rest l h =
      goes p refl refl (sym (append-nil p.sent)) (omega (arith, length-append p.sent []))
  write_part-IsRound p (b ∷ bs) rest l h = elim (Bool-cases (accepts (length p.sent))) [
    | inr refuses ↦ simp refuses (stops _ (gone ((b ∷ bs) ++ rest) (inl refl) refl h))
    | inl takes ↦ elim (Bool-cases (leb limit (length p.sent + length (b ∷ bs)))) [
      | inr room ↦
          simp (takes, room)
            (goes (record p { sent = p.sent ++ (b ∷ bs) }) refl refl refl
              (ground (arith, room, length-append p.sent (b ∷ bs))))
      | inl reached ↦
          let size : length p.sent + length (b ∷ bs) ≡ limit = ground (arith, reached, l) in
          let exact : length (p.sent ++ (b ∷ bs)) ≡ limit =
            omega (arith, length-append p.sent (b ∷ bs), size) in
          simp (takes, reached)
            (stops _ (
              full (ground (arith, size))
                (sym (
                  ap (take limit) (sym (append_assoc p.sent (b ∷ bs) rest))
                  ∙ take-prefix limit (p.sent ++ (b ∷ bs)) rest (omega (arith, exact))
                  ∙ take-all limit (p.sent ++ (b ∷ bs)) exact))
                exact))
    ]
  ]

  cut_round :
      (p : Pumping) (front back part rest : Bytes) (r : Round)
      → length p.sent + length front ≡ limit
      → part ≡ front ++ back
      → IsRound p.seen p.block_skip (p.sent ++ front) (p.sent ++ (front ++ (back ++ rest))) r
      → IsRound p.seen p.block_skip (p.sent ++ part) (p.sent ++ (part ++ rest)) r
  cut_round p front back part rest (going q) l e (goes _ a b c d) =
      absurd (omega (arith, length-append p.sent front))
  cut_round p front back part rest (stopped r) l e (stops _ s) = stops r (
      subst (λ (x : Bytes). IsSent limit (p.sent ++ x) r)
        (sym (append_assoc front back rest) ∙ ap (λ (x : Bytes). x ++ rest) (sym e)) s)

  -- What is over the limit is cut off.
  up_to_limit-IsRound :
      (p : Pumping) (part rest : Bytes)
      → length p.sent < limit
      → IsRound p.seen p.block_skip (p.sent ++ part) (p.sent ++ (part ++ rest)) (
          write_part lib key nonce counter accepts limit p
            (up_to_limit lib key nonce counter accepts limit p.sent part))
  up_to_limit-IsRound p part rest h = elim (Bool-cases (ltb limit (length p.sent + length part))) [
    | inr fits ↦ simp fits (write_part-IsRound p part rest (ground (arith, fits)) h)
    | inl over ↦
        let size : length (take (limit - length p.sent) part) ≡ limit - length p.sent =
          length-take (limit - length p.sent) part (ground (arith, over)) in
        let same : part ≡ take (limit - length p.sent) part ++ drop (limit - length p.sent) part =
          sym (take-drop (limit - length p.sent) part) in
        simp over (
          cut_round p (take (limit - length p.sent) part) (drop (limit - length p.sent) part) part
            rest _ (omega (arith, size, h)) same
            (write_part-IsRound p (take (limit - length p.sent) part)
              (drop (limit - length p.sent) part ++ rest) (omega (arith, size, h)) h))
  ]

abbrev pub join : List Bytes → Bytes
join [] = []
join (b ∷ bs) = b ++ join bs

module _ (lib : Primitives) (bytewise : IsBytewise lib) (key nonce : Bytes) (counter : ℕ)
    (accepts : ℕ → Bool) (limit skip : ℕ) where
  abbrev plain : Bytes → Bytes
  plain bs = lib.ctr_decrypt key nonce counter bs

  -- All that is decrypted, but for what is skipped, was sent.
  pub record IsPumping (p : Pumping) : Type 0 where
    pub skipped : p.block_skip ≡ skip - length p.seen
    pub sent : p.sent ≡ drop skip (plain p.seen)
    pub room : length p.sent < limit

  drop-take_skip : (k : ℕ) (bs : Bytes) → drop (take_skip k bs) bs ≡ drop k bs
  drop-take_skip k bs = elim (Bool-cases (ltb (length bs) k)) [
    | inl e ↦
        simp e (drop-over (length bs) bs (omega arith) ∙ sym (drop-over k bs (ground (arith, e))))
    | inr e ↦ simp e refl
  ]

  take_skip-minus :
      (k n m : ℕ) (bs : Bytes) → k ≡ skip - n → length bs ≡ m → k - take_skip k bs ≡ skip - (n + m)
  take_skip-minus k n m bs h l = elim (Bool-cases (ltb (length bs) k)) [
    | inl e ↦ simp e (omega arith)
    | inr e ↦ simp e (ground (arith, e, h, l))
  ]

  -- What is behind the skip, with another block
  next_part :
      (seen block : Bytes) (k : ℕ)
      → k ≡ skip - length seen
      → drop skip (plain (seen ++ block))
        ≡ drop skip (plain seen)
          ++ drop
              (take_skip k (decrypt_next lib key nonce counter accepts limit seen block))
              (decrypt_next lib key nonce counter accepts limit seen block)
  next_part seen block k h =
      let d = decrypt_next lib key nonce counter accepts limit seen block in
      let same : skip - length (plain seen) ≡ k =
        ap (λ (n : ℕ). skip - n) (bytewise.same_length key nonce counter seen) ∙ sym h in
      ap (drop skip) (bytewise.first_bytes key nonce counter seen block)
      ∙ drop-past skip (plain seen) d
      ∙ ap (λ (n : ℕ). drop skip (plain seen) ++ drop n d) same
      ∙ ap (λ (x : Bytes). drop skip (plain seen) ++ x) (sym (drop-take_skip k d))

  decrypt_next-length :
      (seen block : Bytes)
      → length (decrypt_next lib key nonce counter accepts limit seen block) ≡ length block
  decrypt_next-length seen block = omega (
    arith,
    length-drop (length seen) (plain (seen ++ block)),
    bytewise.same_length key nonce counter (seen ++ block),
    length-append seen block,
  )

  pump_block-IsRound :
      (p : Pumping) (block later : Bytes)
      → IsPumping p
      → IsRound lib key nonce counter accepts limit
          (p.seen ++ block)
          (skip - length (p.seen ++ block))
          (drop skip (plain (p.seen ++ block)))
          (drop skip (plain ((p.seen ++ block) ++ later)))
          (pump_block lib key nonce counter accepts limit p block)
  unfolding pump_block
  pump_block-IsRound p [] later i =
      goes p (sym (append-nil p.seen))
        (i.skipped ∙ ap (λ (x : Bytes). skip - length x) (sym (append-nil p.seen)))
        (i.sent ∙ ap (λ (x : Bytes). drop skip (plain x)) (sym (append-nil p.seen)))
        (ground (arith, i.room, ap length i.sent, append-nil p.seen))
  pump_block-IsRound p (b ∷ bs) later i =
      let block = b ∷ bs in
      let d = decrypt_next lib key nonce counter accepts limit p.seen block in
      let k = take_skip p.block_skip d in
      let q : Pumping = record {
        seen = p.seen ++ block;
        block_skip = p.block_skip - k;
        sent = p.sent;
      } in
      let now : p.sent ++ drop k d ≡ drop skip (plain (p.seen ++ block)) =
        ap (λ (x : Bytes). x ++ drop k d) i.sent
        ∙ sym (next_part p.seen block p.block_skip i.skipped) in
      let rest =
        drop (skip - length (plain (p.seen ++ block)))
          (drop (length (p.seen ++ block)) (plain ((p.seen ++ block) ++ later))) in
      let all : p.sent ++ (drop k d ++ rest) ≡ drop skip (plain ((p.seen ++ block) ++ later)) =
        sym (append_assoc p.sent (drop k d) rest)
        ∙ ap (λ (x : Bytes). x ++ rest) now
        ∙ sym (
            ap (drop skip) (bytewise.first_bytes key nonce counter (p.seen ++ block) later)
            ∙ drop-past skip (plain (p.seen ++ block))
                (drop (length (p.seen ++ block)) (plain ((p.seen ++ block) ++ later)))) in
      let left : p.block_skip - k ≡ skip - length (p.seen ++ block) =
        take_skip-minus p.block_skip (length p.seen) (length block) d i.skipped
          (decrypt_next-length p.seen block)
        ∙ ap (λ (n : ℕ). skip - n) (sym (length-append p.seen block)) in
      subst
        (λ (x : ℕ × Bytes × Bytes).
          IsRound lib key nonce counter accepts limit (p.seen ++ block) x.0 x.1 x.2
            (pump_block lib key nonce counter accepts limit p block))
        (λ j. (left j, now j, all j))
        (up_to_limit-IsRound lib key nonce counter accepts limit q (drop k d) rest i.room)

  pump_end-IsSent :
      (whole : Bool) (p : Pumping)
      → length p.sent < limit
      → IsSent limit p.sent (pump_end lib key nonce counter accepts limit whole p)
  unfolding pump_end
  pump_end-IsSent false p h = gone [] (inr refl) (sym (append-nil p.sent)) h
  pump_end-IsSent true p h = less (ground (arith, h)) refl h

  after-IsSent :
      (seen later : Bytes) (k : Pumping → Pumped) (r : Round)
      → IsRound lib key nonce counter accepts limit seen
          (skip - length seen)
          (drop skip (plain seen))
          (drop skip (plain (seen ++ later)))
          r
      → ((q : Pumping) → IsPumping q → IsSent limit (drop skip (plain (q.seen ++ later))) (k q))
      → IsSent limit
          (drop skip (plain (seen ++ later)))
          (after lib key nonce counter accepts limit k r)
  after-IsSent seen later k (stopped r) (stops _ s) h = s
  after-IsSent seen later k (going q) (goes _ a b c d) h =
      subst (λ (x : Bytes). IsSent limit (drop skip (plain (x ++ later))) (k q)) a
        (h q (record {
          skipped = b ∙ ap (λ (x : Bytes). skip - length x) (sym a);
          sent = c ∙ ap (λ (x : Bytes). drop skip (plain x)) (sym a);
          room = omega (arith, ap length c, d);
        }))

  -- The body that is sent is what is behind the skip of the decrypted answer, up to the limit.
  pub pump-IsSent :
      (blocks : List Bytes) (whole : Bool) (p : Pumping)
      → IsPumping p
      → IsSent limit
          (drop skip (plain (p.seen ++ join blocks)))
          (pump lib key nonce counter accepts limit blocks whole p)
  unfolding pump
  pump-IsSent [] whole p i =
      subst (λ (x : Bytes). IsSent limit x (pump_end lib key nonce counter accepts limit whole p))
        (i.sent ∙ ap (λ (x : Bytes). drop skip (plain x)) (sym (append-nil p.seen)))
        (pump_end-IsSent whole p i.room)
  pump-IsSent (block ∷ blocks) whole p i =
      subst
        (λ (x : Bytes). IsSent limit (drop skip (plain x)) (
          after lib key nonce counter accepts limit
            (pump lib key nonce counter accepts limit blocks whole)
            (pump_block lib key nonce counter accepts limit p block)))
        (append_assoc p.seen block (join blocks))
        (after-IsSent (p.seen ++ block) (join blocks)
          (pump lib key nonce counter accepts limit blocks whole)
          (pump_block lib key nonce counter accepts limit p block)
          (pump_block-IsRound p block (join blocks) i) (pump-IsSent blocks whole))
