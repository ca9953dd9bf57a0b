-- ===== src/Stream/Served.antt =====
-- What `do_GET` of src/megabasterd_cli/streaming/server.py serves: the bytes that were asked for.
use mathlib.Core.Path.{subst, ◌∙◌}
use mathlib.Core.List.{append_assoc, append-nil}
use mega_basterd_cli.Prelude.Slices.{slice, drop-over, drop-add, drop-past, take-past, take-prefix}
use mega_basterd_cli.Prelude.{
  ℕ, ◌+◌, ◌-◌, ◌*◌, ◌/◌, ◌≤◌, ◌<◌, Bool, false, none, some, List, [], ◌++◌, ◌≡◌, refl, sym, ap,
  arith, inl, inr, ◌⊎◌, length, take, drop, ◌==◌, if◌then◌else◌, take-drop, length-append, Result,
  ok, err,
}
use mega_basterd_cli.State.Hex.{Bytes}
use mega_basterd_cli.Crypto.Primitives.{Primitives}
use mega_basterd_cli.Proxy.{ProxySelector}
use mega_basterd_cli.Stream.Range.{
  Refusal, malformed, unsatisfiable, ByteRange, parse_range, IsInside, parse_range-IsInside,
}
use mega_basterd_cli.Stream.Pump.{complete, Pumped, pump}
use mega_basterd_cli.Stream.Pumped.{IsSent, full, less, gone, join, pump-IsSent}
use mega_basterd_cli.Stream.Serve.{
  Source, Upstream, Ints, Answer, Opened, open_upstream, block_start, send, serve_range, do_get,
}
use mega_basterd_cli.Stream.Honest.{
  IsRandomAccess, contents, IsFrom, IsHonest, open_upstream-OpensFrom,
}

-- A first part of what was promised, and all of it where the answer is complete.
pub record IsPart (promised : Bytes) (r : Pumped) : Type 0 where
  pub rest : Bytes
  pub front : promised ≡ r.body ++ rest
  pub whole : r.ended ≡ complete → r.body ≡ promised

-- What is promised is the front of what is there.
IsSent-IsPart :
    (limit : ℕ) (plain more : Bytes) (r : Pumped)
    → IsSent limit plain r
    → IsPart (take limit (plain ++ more)) r
IsSent-IsPart limit plain more r (full c e l) =
    let enough : limit ≤ length plain = omega (
      arith,
      ap length e,
      l,
      ap length (take-drop limit plain),
      length-append (take limit plain) (drop limit plain),
    ) in
    let same : take limit (plain ++ more) ≡ r.body = take-prefix limit plain more enough ∙ sym e in
    record { rest = []; front = same ∙ sym (append-nil r.body); whole = λ c. sym same }
IsSent-IsPart limit plain more r (less c e l) = record {
  rest = take (limit - length plain) more;
  front =
      take-past limit plain more (omega arith)
      ∙ ap (λ (x : Bytes). x ++ take (limit - length plain) more) (sym e);
  whole = λ d. absurd (cc);
}
IsSent-IsPart limit plain more r (gone rest c e l) = record {
  rest = take (limit - length r.body) (rest ++ more);
  front =
      ap (take limit) (ap (λ (x : Bytes). x ++ more) e ∙ append_assoc r.body rest more)
      ∙ take-past limit r.body (rest ++ more) (omega arith);
  whole = λ d. elim c [ inl x ↦ absurd (cc) | inr x ↦ absurd (cc) ];
}

module _ (lib : Primitives) (ints : Ints) (source : Source) (encrypted : Bytes)
    (random : IsRandomAccess lib) where
  abbrev file : Bytes
  file = contents lib ints source encrypted

  abbrev plain : ℕ → Bytes → Bytes
  plain k bs = lib.ctr_decrypt source.aes_key source.nonce k bs

  -- The decrypted answer is the front of the file from the start of its block.
  block_file :
      (start stop : ℕ) (blocks : List Bytes)
      → IsFrom lib ints source encrypted (block_start lib ints source start) stop blocks
      → (more : Bytes) × (drop start file
          ≡ drop
              (start - block_start lib ints source start)
              (plain (block_start lib ints source start / 16) (join blocks))
            ++ more)
  block_file start stop blocks (rest, front) =
      let b = block_start lib ints source start in
      let k = b / 16 in
      let aligned : k * 16 ≡ b = omega arith in
      let skip = start - b in
      let n = stop + 1 - b in
      let tail = rest ++ drop n (drop b encrypted) in
      let there : drop b encrypted ≡ join blocks ++ tail =
        sym (take-drop n (drop b encrypted))
        ∙ ap (λ (x : Bytes). x ++ drop n (drop b encrypted)) front
        ∙ append_assoc (join blocks) rest (drop n (drop b encrypted)) in
      let d = drop (length (join blocks)) (plain k (join blocks ++ tail)) in
      let decrypted : drop b file ≡ plain k (join blocks) ++ d =
        ap (λ (m : ℕ). drop m file) (sym aligned)
        ∙ sym (random.from_block source.aes_key source.nonce encrypted k)
        ∙ ap (λ (m : ℕ). plain k (drop m encrypted)) aligned
        ∙ ap (plain k) there
        ∙ random.bytewise.first_bytes source.aes_key source.nonce k (join blocks) tail in
      let sum : b + skip ≡ start = omega arith in
      (
        drop (skip - length (plain k (join blocks))) d,
        ap (λ (m : ℕ). drop m file) (sym sum)
            ∙ sym (drop-add b skip file)
            ∙ ap (drop skip) decrypted
            ∙ drop-past skip (plain k (join blocks)) d,
      )

  nothing_sent : (k skip : ℕ) → [] ≡ drop skip (plain k [])
  nothing_sent k skip = sym (
      drop-over skip (plain k [])
        (omega (arith, random.bytewise.same_length source.aes_key source.nonce k [])))

  -- Refused, or served: the status and the headers of the range, and its bytes of the file.
  pub data IsServed (header : List ℕ) (a : Answer) : Type 0 where
    refused_with :
        (a.status ≡ 400) ⊎ ((a.status ≡ 416) ⊎ (a.status ≡ 502))
        → a.served ≡ none
        → IsServed header a
    served_range :
        (start stop : ℕ) (partial : Bool) (r : Pumped)
        → parse_range ints.of_range source.size header ≡ ok (start, stop, partial)
        → start ≤ stop
        → stop < source.size
        → a.status ≡ (if partial then 206 else 200)
        → a.content_range ≡ (if partial then some (some (start, stop), source.size) else none)
        → a.content_length ≡ some (stop - start + 1)
        → a.served ≡ some r
        → IsPart (slice start (stop - start + 1) file) r
        → IsServed header a

  module _ (header : List ℕ) (accepts : ℕ → Bool) where
    send-IsServed :
        (start stop : ℕ) (partial : Bool) (opened : Opened)
        → parse_range ints.of_range source.size header ≡ ok (start, stop, partial)
        → IsInside ints.of_range source.size (start, stop, partial)
        → ((blocks : List Bytes) (whole : Bool)
            → opened ≡ some (blocks, whole)
            → IsFrom lib ints source encrypted (block_start lib ints source start) stop blocks)
        → IsServed header (send lib ints source accepts (start, stop, partial) opened)
    unfolding send
    send-IsServed start stop partial none p i h = refused_with (inr (inr refl)) refl
    send-IsServed start stop partial (some (blocks, whole)) p i h =
        let limit = stop - start + 1 in
        let skip = start - block_start lib ints source start in
        let k = block_start lib ints source start / 16 in
        let (more, there) = block_file start stop blocks (h blocks whole refl) in
        let r =
          pump lib source.aes_key source.nonce k accepts limit blocks whole
            (record { seen = []; block_skip = skip; sent = [] }) in
        let sent =
          pump-IsSent lib random.bytewise source.aes_key source.nonce k accepts limit skip blocks
            whole (record { seen = []; block_skip = skip; sent = [] })
            (record { skipped = omega arith; sent = nothing_sent k skip; room = omega arith }) in
        served_range start stop partial r p i.ordered i.inside refl refl refl refl (
          subst (λ (x : Bytes). IsPart (take limit x) r) (sym there)
            (IsSent-IsPart limit (drop skip (plain k (join blocks))) more r sent))

    serve_range-IsServed :
        (up next : Upstream) (range : Result Refusal ByteRange) (s : ProxySelector)
        → 0 < source.size
        → IsHonest lib ints source encrypted up
        → IsHonest lib ints source encrypted next
        → parse_range ints.of_range source.size header ≡ range
        → IsServed header (serve_range lib ints source up next accepts range s).0
    unfolding serve_range
    serve_range-IsServed up next (err malformed) s p h n e = refused_with (inl refl) refl
    serve_range-IsServed up next (err unsatisfiable) s p h n e = refused_with (inr (inl refl)) refl
    serve_range-IsServed up next (ok (start, stop, partial)) s p h n e =
        send-IsServed start stop partial
          (open_upstream lib ints source up next (block_start lib ints source start) stop s).0 e
          (parse_range-IsInside ints.of_range source.size header (start, stop, partial) p e)
          (open_upstream-OpensFrom lib ints source encrypted (block_start lib ints source start)
            stop up next s h n)

-- For a file that is not empty, AES in counter mode, and a CDN whose checked answers are ranges of the
-- encrypted file or break off: a GET request is refused with 400, 416 or 502, or it is answered with the
-- status, the range and the length of a range inside the file, and with these bytes of the decrypted file,
-- all of them where the answer is complete and a first part of them otherwise.
pub do_get-IsServed :
    (lib : Primitives) (ints : Ints) (source : Source) (encrypted : Bytes)
    (random : IsRandomAccess lib) (up next : Upstream)
    → 0 < source.size
    → IsHonest lib ints source encrypted up
    → IsHonest lib ints source encrypted next
    → (accepts : ℕ → Bool) (header : List ℕ) (s : ProxySelector)
    → IsServed lib ints source encrypted random header
        (do_get lib ints source up next accepts header s).0
unfolding do_get
do_get-IsServed lib ints source encrypted random up next p h n accepts header s =
    let some_bytes : (source.size == 0) ≡ false = ground (arith, p) in
    simp some_bytes (
      serve_range-IsServed lib ints source encrypted random header accepts up next
        (parse_range ints.of_range source.size header) s p h n refl)
