-- ===== src/Transfer/Round.antt =====
-- The workers of one download (src/megabasterd_cli/core/download_transport.py) when none of them raises
-- in the end.
use mathlib.Core.Path.{◌∙◌}
use mega_basterd_cli.Prelude.{ℕ, true, List, [], ◌∷◌, ◌≡◌, ap, inl, inr, ok}
use mega_basterd_cli.Chunks.{Chunk, iter_chunks}
use mega_basterd_cli.Chunks.Apart.{In}
use mega_basterd_cli.State.Hex.{Bytes, AreBytes}
use mega_basterd_cli.State.Model.{is_chunk_done}
use mega_basterd_cli.Crypto.Primitives.{Primitives, IsCipher, IsStream, IsCounter}
use mega_basterd_cli.Transfer.Session.{Attempt, Session}
use mega_basterd_cli.Transfer.Fetch.{fetch_chunk}
use mega_basterd_cli.Transfer.Answered.{IsRunning}
use mega_basterd_cli.Transfer.Stepped.{fetch_chunk-Stepped}
use mega_basterd_cli.Transfer.Copied.{
  IsHonest, IsCopied, Stepped-IsCopied, Stepped-done, returned-done,
}

module _ (lib : Primitives) (key nonce : Bytes) where
  -- Attempts in any order: each chunk of the list has one by a worker that is not stopped and returns,
  -- and there may be others, whatever they do. The endpoint serves every one.
  pub data Round (Serves : Attempt → Chunk → Type 0) (size : ℕ)
      : List Chunk → Session → Session → Type 0 where
    begins : {s : Session} → Round Serves size [] s s
    returns :
        {s t : Session} {cs : List Chunk} (c : Chunk) (env : Attempt)
        → Serves env c
        → In c (iter_chunks size)
        → IsRunning env
        → (fetch_chunk lib env c key nonce t).0 ≡ ok tt
        → Round Serves size cs s t
        → Round Serves size (c ∷ cs) s (fetch_chunk lib env c key nonce t).1
    tries :
        {s t : Session} {cs : List Chunk} (c : Chunk) (env : Attempt)
        → Serves env c
        → In c (iter_chunks size)
        → Round Serves size cs s t
        → Round Serves size cs s (fetch_chunk lib env c key nonce t).1

  pub Round-map :
      (P Q : Attempt → Chunk → Type 0) (size : ℕ) (cs : List Chunk) (s t : Session)
      → ((env : Attempt) (c : Chunk) → In c (iter_chunks size) → P env c → Q env c)
      → Round P size cs s t
      → Round Q size cs s t
  Round-map P Q size cs s t f begins = begins
  Round-map P Q size cs s t f (returns {t = u} {cs = ds} c env p i running e round) =
      returns c env (f env c i p) i running e (Round-map P Q size ds s u f round)
  Round-map P Q size cs s t f (tries {t = u} c env p i round) =
      tries c env (f env c i p) i (Round-map P Q size cs s u f round)

  module _ (source : Bytes) (cipher : IsCipher lib) (stream : IsStream lib) (undone : IsCounter lib)
      (b : AreBytes source) (size : ℕ) where
    abbrev Serves : Attempt → Chunk → Type 0
    Serves env c = IsHonest lib key nonce source env c size

    -- The source's bytes are kept through a round, and the chunks of its list are done after it.
    pub Round-IsCopied :
        (cs : List Chunk) (s t : Session)
        → Round Serves size cs s t
        → IsCopied lib key nonce source size s
        → IsCopied lib key nonce source size t
    Round-IsCopied cs s t begins v = v
    Round-IsCopied cs s t (returns {t = u} {cs = ds} c env honest i running e round) v =
        Stepped-IsCopied lib key nonce source size env c u (fetch_chunk lib env c key nonce u)
          undone b honest i (fetch_chunk-Stepped lib cipher stream key nonce env c u)
          (Round-IsCopied ds s u round v)
    Round-IsCopied cs s t (tries {t = u} c env honest i round) v =
        Stepped-IsCopied lib key nonce source size env c u (fetch_chunk lib env c key nonce u)
          undone b honest i (fetch_chunk-Stepped lib cipher stream key nonce env c u)
          (Round-IsCopied cs s u round v)

    pub Round-done :
        (cs : List Chunk) (s t : Session) (c : Chunk)
        → Round Serves size cs s t
        → In c cs
        → is_chunk_done t.state c.index ≡ true
    Round-done cs s t d begins i = absurd i
    Round-done cs s t d (returns {t = u} {cs = ds} c env honest i running e round) j =
        let step = fetch_chunk-Stepped lib cipher stream key nonce env c u in
        elim j [
          | inl now ↦
              ap (λ (x : Chunk). is_chunk_done (fetch_chunk lib env c key nonce u).1.state x.index)
                now
              ∙ returned-done lib key nonce source env c u (fetch_chunk lib env c key nonce u) step
                  running e
          | inr past ↦
              Stepped-done lib key nonce source env c u (fetch_chunk lib env c key nonce u) d.index
                step (Round-done ds s u d round past)
        ]
    Round-done cs s t d (tries {t = u} c env honest i round) j =
        Stepped-done lib key nonce source env c u (fetch_chunk lib env c key nonce u) d.index
          (fetch_chunk-Stepped lib cipher stream key nonce env c u) (Round-done cs s u d round j)
