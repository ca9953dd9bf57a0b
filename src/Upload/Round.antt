-- ===== src/Upload/Round.antt =====
-- A round of the loop of `_upload_file_locked` (src/megabasterd_cli/core/uploader.py) in which no worker
-- raises in the end.
use mathlib.Core.Path.{subst, ◌∙◌}
use mega_basterd_cli.Prelude.{
  ℕ, ◌+◌, ◌<◌, Bool, true, false, not, Option, none, some, List, [], ◌∷◌, ◌≡◌, refl, sym, ap, arith,
  inl, inr, ◌==◌, Bool-cases, ==→≡, Result, ok,
}
use mega_basterd_cli.Chunks.{Chunk, iter_chunks}
use mega_basterd_cli.Chunks.Tiling.{Tiles, iter_chunks-Tiles}
use mega_basterd_cli.Chunks.Apart.{In}
use mega_basterd_cli.State.Hex.{Bytes, AreBytes}
use mega_basterd_cli.State.Model.{get_chunk_mac}
use mega_basterd_cli.Crypto.Primitives.{Primitives, IsCipher}
use mega_basterd_cli.Upload.Session.{Fault, Attempt, Session}
use mega_basterd_cli.Upload.Post.{is_empty, is_final_chunk, lacks_token, upload_chunk}
use mega_basterd_cli.Upload.Committed.{Stepped, untouched, posted, token_after}
use mega_basterd_cli.Upload.Recorded.{IsRecorded}
use mega_basterd_cli.Upload.Delivered.{Uploads, Uploads-IsRecorded, attempt-Stepped}

abbrev pub HasMac : Session → Chunk → Type 0
HasMac s c = (mac : Bytes) × (get_chunk_mac s.state c.index ≡ some (some mac))

abbrev pub HasToken : Session → Type 0
HasToken s = (token : Bytes) × (s.completion_token ≡ some token) × (is_empty token ≡ false)

abbrev Outcome : Type 0
Outcome = Result Fault (Unit {0}) × Session

module _ (lib : Primitives) (key nonce source : Bytes) where
  -- The workers' attempts in any order: each chunk of the list has one that returns and was not stopped,
  -- and there may be others that have raised before.
  pub data Round (size : ℕ) : List Chunk → Session → Session → Type 0 where
    begins : {s : Session} → Round size [] s s
    returns :
        {s t : Session} {cs : List Chunk} (c : Chunk) (env : Attempt)
        → env.source ≡ source
        → In c (iter_chunks size)
        → env.stopped ≡ false
        → (upload_chunk lib env c key nonce t).0 ≡ ok tt
        → Round size cs s t
        → Round size (c ∷ cs) s (upload_chunk lib env c key nonce t).1
    raises :
        {s t : Session} {cs : List Chunk} (c : Chunk) (env : Attempt)
        → env.source ≡ source
        → In c (iter_chunks size)
        → Round size cs s t
        → Round size cs s (upload_chunk lib env c key nonce t).1

  pub Round-Uploads :
      (size : ℕ) (cs : List Chunk) (s t u : Session)
      → Uploads lib key nonce source size s t
      → Round size cs t u
      → Uploads lib key nonce source size s u
  Round-Uploads size cs s t u us begins = us
  Round-Uploads size cs s t u us (returns {t = v} {cs = ds} c env same i n o r) =
      Uploads.post c env same i (Round-Uploads size ds s t v us r)
  Round-Uploads size cs s t u us (raises {t = v} c env same i r) =
      Uploads.post c env same i (Round-Uploads size cs s t v us r)

  -- MACs and a token that are there stay there.
  Stepped-HasMac :
      (stop : Bool) (c d : Chunk) (s : Session) (r : Outcome)
      → Stepped lib key nonce source stop c s r
      → HasMac s d
      → HasMac r.1 d
  Stepped-HasMac stop c d s r (untouched n a) (mac, e) = (mac, a.alike.same_macs d.index ∙ e)
  Stepped-HasMac stop c d s r (posted counter body made x _ _ _ marked alike _ _ _) (mac, e) =
      elim (Bool-cases (d.index == c.index)) [
        | inr other ↦ (mac, alike.same_macs d.index ∙ marked.others d.index other ∙ e)
        | inl same ↦ (
          made,
          alike.same_macs d.index
              ∙ ap (get_chunk_mac x) (==→≡ d.index c.index same)
              ∙ marked.mac_there,
        )
      ]

  Stepped-HasToken :
      (stop : Bool) (c : Chunk) (s : Session) (r : Outcome)
      → Stepped lib key nonce source stop c s r
      → HasToken s
      → HasToken r.1
  Stepped-HasToken stop c s r (untouched n a) (token, e, f) = (token, a.same_token ∙ e, f)
  Stepped-HasToken stop c s r (posted counter body made x _ _ _ marked alike _ kept _)
        (token, e, f) =
      let lacks_none : lacks_token s.completion_token ≡ false = ap lacks_token e ∙ f in
      (token, kept ∙ ground (arith, lacks_none) ∙ e, f)

  -- What was posted is marked, and after the final chunk there is a token.
  token_after-final :
      (body : Bytes) (token : Option Bytes)
      → is_empty body ≡ false
      → (t : Bytes) × (token_after body token ≡ some t) × (is_empty t ≡ false)
  token_after-final body none f = (body, simp f refl, f)
  token_after-final body (some t) f = elim (Bool-cases (is_empty t)) [
    | inl e ↦ (body, simp (f, e) refl, f)
    | inr e ↦ (t, simp (f, e) refl, e)
  ]

  posted-Has :
      (c : Chunk) (s : Session) (r : Outcome)
      → Stepped lib key nonce source false c s r
      → r.0 ≡ ok tt
      → HasMac r.1 c × (is_final_chunk c s.state.total_size ≡ true → HasToken r.1)
  posted-Has c s r (untouched n a) e = (let clash : false ≡ true = n e in absurd (cc))
  posted-Has c s r (posted counter body mac x counted fits made marked alike url kept log) e = (
    (mac, alike.same_macs c.index ∙ marked.mac_there),
    λ final.
        let (t, there, filled) = token_after-final body s.completion_token (fits ∙ ap not final) in
        (t, kept ∙ there, filled),
  )

  -- What a round has of the chunks of its list
  pub record IsReached (size : ℕ) (cs : List Chunk) (t : Session) : Type 0 where
    pub macs : (c : Chunk) → In c cs → HasMac t c
    pub token : (c : Chunk) → In c cs → is_final_chunk c size ≡ true → HasToken t

  module _ (cipher : IsCipher lib) (b : AreBytes source) (size : ℕ) where
    step :
        (c : Chunk) (env : Attempt) (t : Session)
        → env.source ≡ source
        → Stepped lib key nonce source env.stopped c t (upload_chunk lib env c key nonce t)
    step c env t same = attempt-Stepped lib key nonce source cipher b c env t same

    pub Round-IsReached :
        (cs : List Chunk) (s t : Session)
        → IsRecorded lib key nonce source size s
        → Round size cs s t
        → IsReached size cs t
    Round-IsReached cs s t r begins = record { macs = λ c i. absurd i; token = λ c i. absurd i }
    Round-IsReached cs s t r (raises {t = u} c env same i round) =
        let before = Round-IsReached cs s u r round in
        let next = upload_chunk lib env c key nonce u in
        record {
          macs = λ d j. Stepped-HasMac env.stopped c d u next (step c env u same) (before.macs d j);
          token = λ d j f.
              Stepped-HasToken env.stopped c u next (step c env u same) (before.token d j f);
        }
    Round-IsReached cs s t r (returns {t = u} {cs = ds} c env same i running e round) =
        let before = Round-IsReached ds s u r round in
        let next = upload_chunk lib env c key nonce u in
        let sized =
          (Uploads-IsRecorded lib key nonce source cipher b size s u
            (Round-Uploads size ds s s u Uploads.here round) r).sized in
        let (mac, token) =
          posted-Has c u next
            (subst (λ (x : Bool). Stepped lib key nonce source x c u next) running
              (step c env u same))
            e in
        record {
          macs = λ d j. elim j [
            | inl now ↦ subst (HasMac next.1) (sym now) mac
            | inr past ↦
                Stepped-HasMac env.stopped c d u next (step c env u same) (before.macs d past)
          ];
          token = λ d j f. elim j [
            | inl now ↦ token (
                ap (is_final_chunk c) sized
                ∙ ap (λ (x : Chunk). is_final_chunk x size) (sym now)
                ∙ f)
            | inr past ↦
                Stepped-HasToken env.stopped c u next (step c env u same) (before.token d past f)
          ];
        }

-- A plan of a file with bytes has a final chunk.
final_of :
    (index offset stop : ℕ) (cs : List Chunk)
    → Tiles index offset stop cs
    → offset < stop
    → (c : Chunk) × In c cs × (is_final_chunk c stop ≡ true)
final_of index offset stop [] t h = absurd (omega arith)
final_of index offset stop (c ∷ cs) t h = elim (Bool-cases (is_final_chunk c stop)) [
  | inl final ↦ (c, inl refl, final)
  | inr inner ↦
      let (d, i, final) =
        final_of (index + 1) (offset + c.size) stop cs t.4 (ground (arith, inner, t.1)) in
      (d, inr i, final)
]

pub iter_chunks-final :
    (size : ℕ) → 0 < size → (c : Chunk) × In c (iter_chunks size) × (is_final_chunk c size ≡ true)
iter_chunks-final size h = final_of 0 0 size (iter_chunks size) (iter_chunks-Tiles size) h
