-- ===== src/Chunks/Apart.antt =====
-- Two chunks of a plan (src/megabasterd_cli/core/chunks.py) are one, or apart in number and in bytes.
use mathlib.Core.Path.{subst, ◌∙◌}
use mega_basterd_cli.Prelude.{
  ℕ, ◌+◌, ◌≤◌, ◌<◌, false, List, [], ◌∷◌, ◌≡◌, sym, arith, ◌⊎◌, inl, inr, ◌==◌,
}
use mega_basterd_cli.Chunks.{Chunk, end_of}
use mega_basterd_cli.Chunks.Tiling.{Tiles}

abbrev pub In : Chunk → List Chunk → Type 0
In c [] = ⊥
In c (d ∷ ds) = (c ≡ d) ⊎ In c ds

pub record Within (index offset stop : ℕ) (c : Chunk) : Type 0 where
  pub later : index ≤ c.index
  pub behind : offset ≤ c.offset
  pub inside : end_of c ≤ stop
  pub some_bytes : 0 < c.size

abbrev Head : ℕ → ℕ → Chunk → Type 0
Head index offset c = (c.index ≡ index) × (c.offset ≡ offset) × (0 < c.size)

pub Tiles-le :
    (index offset stop : ℕ) (cs : List Chunk) → Tiles index offset stop cs → offset ≤ stop
Tiles-le index offset stop [] t = omega arith
Tiles-le index offset stop (c ∷ cs) t =
    omega (arith, Tiles-le (index + 1) (offset + c.size) stop cs t.4)

pub Tiles-Within :
    (index offset stop : ℕ) (cs : List Chunk) (c : Chunk)
    → Tiles index offset stop cs
    → In c cs
    → Within index offset stop c
Tiles-Within index offset stop [] c t i = absurd i
Tiles-Within index offset stop (d ∷ cs) c t (inl e) =
    subst (Within index offset stop) (sym e) (record {
      later = omega arith;
      behind = omega arith;
      inside = omega (arith, Tiles-le (index + 1) (offset + d.size) stop cs t.4);
      some_bytes = t.2;
    })
Tiles-Within index offset stop (d ∷ cs) c t (inr i) =
    let w = Tiles-Within (index + 1) (offset + d.size) stop cs c t.4 i in
    record {
      later = omega (arith, w.later);
      behind = omega (arith, w.behind);
      inside = w.inside;
      some_bytes = w.some_bytes;
    }

-- Other numbers, and the bytes of one before those of the other.
abbrev pub IsApart : Chunk → Chunk → Type 0
IsApart c d = ((c.index == d.index) ≡ false) × ((end_of c ≤ d.offset) ⊎ (end_of d ≤ c.offset))

head-IsApart :
    (index offset stop : ℕ) (d c : Chunk) (cs : List Chunk)
    → Tiles index offset stop (d ∷ cs)
    → In c cs
    → IsApart d c × IsApart c d
head-IsApart index offset stop d c cs t i =
    let w = Tiles-Within (index + 1) (offset + d.size) stop cs c t.4 i in
    ground (arith, w.later, w.behind, t.0, t.1)

pub Tiles-IsApart :
    (index offset stop : ℕ) (cs : List Chunk) (c d : Chunk)
    → Tiles index offset stop cs
    → In c cs
    → In d cs
    → (c ≡ d) ⊎ IsApart c d
Tiles-IsApart index offset stop [] c d t i j = absurd i
Tiles-IsApart index offset stop (x ∷ cs) c d t (inl e) (inl f) = inl (e ∙ sym f)
Tiles-IsApart index offset stop (x ∷ cs) c d t (inl e) (inr j) =
    inr (subst (λ (y : Chunk). IsApart y d) (sym e) (head-IsApart index offset stop x d cs t j).0)
Tiles-IsApart index offset stop (x ∷ cs) c d t (inr i) (inl f) =
    inr (subst (λ (y : Chunk). IsApart c y) (sym f) (head-IsApart index offset stop x c cs t i).1)
Tiles-IsApart index offset stop (x ∷ cs) c d t (inr i) (inr j) =
    Tiles-IsApart (index + 1) (offset + x.size) stop cs c d t.4 i j
