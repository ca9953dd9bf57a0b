-- ===== src/Crypto/Derive/Passes.antt =====
-- The passes of the legacy key derivation and of the login hash (src/megabasterd_cli/core/crypto.py),
-- without the indices of the loops.
use Prim.Native.Nat.{bit_xor}
use mega_basterd_cli.Prelude.{
  ℕ, zero, suc, ◌+◌, ◌%◌, some, List, [], ◌∷◌, ◌≡◌, refl, ap, ◌∙◌, arith, drop,
}
use mega_basterd_cli.Crypto.Primitives.{Primitives, zeros}
use mega_basterd_cli.Crypto.Words.{bytes_of_words}
use mega_basterd_cli.Crypto.Derive.{word_at, key_chunk, xor_at, absorb}

-- Words in groups of four, the last one of those that are left
abbrev pub groups : List ℕ → List (List ℕ)
groups [] = []
groups (a ∷ []) = (a ∷ []) ∷ []
groups (a ∷ b ∷ []) = (a ∷ b ∷ []) ∷ []
groups (a ∷ b ∷ c ∷ []) = (a ∷ b ∷ c ∷ []) ∷ []
groups (a ∷ b ∷ c ∷ d ∷ ws) = (a ∷ b ∷ c ∷ d ∷ []) ∷ groups ws

-- A group that is filled up with zeros
abbrev pub filled : List ℕ → List ℕ
filled (a ∷ []) = a ∷ 0 ∷ 0 ∷ 0 ∷ []
filled (a ∷ b ∷ []) = a ∷ b ∷ 0 ∷ 0 ∷ []
filled (a ∷ b ∷ c ∷ []) = a ∷ b ∷ c ∷ 0 ∷ []
filled ws = ws

-- One encryption of words in CBC mode, from a start value of zeros
abbrev pub Encrypts : Primitives → List ℕ → List ℕ → List ℕ → Type 0
Encrypts lib key ws vs =
    lib.cbc_encrypt (bytes_of_words key) zeros (bytes_of_words ws) ≡ some (bytes_of_words vs)

-- One encryption under each group as the key, one after the other
pub data Passes (lib : Primitives) : List (List ℕ) → List ℕ → List ℕ → Type 0 where
  passed : {ws : List ℕ} → Passes lib [] ws ws
  pass :
      {group ws us vs : List ℕ} {gs : List (List ℕ)}
      → Encrypts lib (filled group) ws us
      → Passes lib gs us vs
      → Passes lib (group ∷ gs) ws vs

pub data Times (Step : List ℕ → List ℕ → Type 0) : ℕ → List ℕ → List ℕ → Type 0 where
  never : {ws : List ℕ} → Times Step 0 ws ws
  once_more :
      {n : ℕ} {ws us vs : List ℕ} → Step ws us → Times Step n us vs → Times Step (suc n) ws vs

abbrev pub xor_words : List ℕ → List ℕ → List ℕ
xor_words [] ws = []
xor_words (h ∷ hs) [] = h ∷ hs
xor_words (h ∷ hs) (w ∷ ws) = bit_xor h w ∷ xor_words hs ws

-- The exclusive or of words with every group
abbrev pub xor_groups : List ℕ → List (List ℕ) → List ℕ
xor_groups hs [] = hs
xor_groups hs (g ∷ gs) = xor_groups (xor_words hs g) gs

pub groups-cons :
    (w : ℕ) (ws : List ℕ)
    → (g : List ℕ) × (groups (w ∷ ws) ≡ g ∷ groups (drop 4 (w ∷ ws)))
      × (filled g ≡ key_chunk 0 (w ∷ ws))
unfolding word_at
groups-cons w [] = (w ∷ [], refl, refl)
groups-cons w (a ∷ []) = (w ∷ a ∷ [], refl, refl)
groups-cons w (a ∷ b ∷ []) = (w ∷ a ∷ b ∷ [], refl, refl)
groups-cons w (a ∷ b ∷ c ∷ ws) = (w ∷ a ∷ b ∷ c ∷ [], refl, refl)

word_at-drop : (j i : ℕ) (ws : List ℕ) → word_at (i + j) ws ≡ word_at i (drop j ws)
unfolding word_at
word_at-drop zero i ws = ap (λ (k : ℕ). word_at k ws) (omega arith)
word_at-drop (suc j) i [] = refl
word_at-drop (suc j) i (w ∷ ws) =
    let e : i + suc j ≡ suc (i + j) = omega arith in
    ap (λ (k : ℕ). word_at k (w ∷ ws)) e ∙ word_at-drop j i ws

pub key_chunk-drop : (j : ℕ) (ws : List ℕ) → key_chunk j ws ≡ key_chunk 0 (drop j ws)
key_chunk-drop j ws =
    let zeroth : word_at j ws ≡ word_at 0 (drop j ws) =
      ap (λ (k : ℕ). word_at k ws) (omega arith) ∙ word_at-drop j 0 ws in
    rw (zeroth, word_at-drop j 1 ws, word_at-drop j 2 ws, word_at-drop j 3 ws) refl

-- The loop over the words of the string takes them a group at a time.
pub absorb-groups :
    (i : ℕ) (ws : List ℕ) (p q r s : ℕ)
    → i % 4 ≡ 0
    → absorb i ws (p ∷ q ∷ r ∷ s ∷ []) ≡ xor_groups (p ∷ q ∷ r ∷ s ∷ []) (groups ws)
unfolding absorb xor_at
absorb-groups i [] p q r s e = refl
absorb-groups i (a ∷ []) p q r s e = rw e refl
absorb-groups i (a ∷ b ∷ []) p q r s e = let one : suc i % 4 ≡ 1 = omega arith in rw (e, one) refl
absorb-groups i (a ∷ b ∷ c ∷ []) p q r s e =
    let one : suc i % 4 ≡ 1 = omega arith in
    let two : suc (suc i) % 4 ≡ 2 = omega arith in rw (e, one, two) refl
absorb-groups i (a ∷ b ∷ c ∷ d ∷ ws) p q r s e =
    let one : suc i % 4 ≡ 1 = omega arith in
    let two : suc (suc i) % 4 ≡ 2 = omega arith in
    let three : suc (suc (suc i)) % 4 ≡ 3 = omega arith in
    let rest =
      absorb-groups (suc (suc (suc (suc i)))) ws (bit_xor p a) (bit_xor q b) (bit_xor r c)
        (bit_xor s d) (omega arith) in
    rw (e, one, two, three) rest
