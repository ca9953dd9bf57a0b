-- ===== src/Crypto/Derive/Words.antt =====
-- What key derivation and the login hash return (src/megabasterd_cli/core/crypto.py).
use mathlib.Core.Path.{subst, ◌∙◌}
use mega_basterd_cli.Prelude.Slices.{drop-add}
use mega_basterd_cli.Prelude.{
  sym, ◌/◌, drop, length-drop, ℕ, zero, suc, ◌+◌, ◌*◌, ◌%◌, ◌<◌, Option, some, List, [], ◌∷◌, ◌≡◌,
  refl, ap, arith, length,
}
use mega_basterd_cli.Prelude.Options.{◌>>=◌}
use mega_basterd_cli.Prelude.Bits.{bit_xor-lt}
use mega_basterd_cli.State.Hex.{Bytes, AreBytes}
use mega_basterd_cli.Crypto.Primitives.{Primitives, IsCipher, zeros}
use mega_basterd_cli.Crypto.Wrap.{aes_cbc_encrypt, aes_cbc_decrypt}
use mega_basterd_cli.Crypto.Base64.{Text, b64_url_encode, b64_url_decode-encode}
use mega_basterd_cli.Crypto.Words.{
  bytes_to_a32, AreWords, bytes_of_words, a32_to_bytes-some, bytes_of_words-AreBytes,
  length-bytes_of_words, bytes_to_a32-bytes_of_words, bytes_to_a32-AreWords,
  bytes_of_words-bytes_to_a32, length-bytes_to_a32,
}
use mega_basterd_cli.Crypto.Derive.Passes.{
  groups, filled, Encrypts, Passes, passed, pass, Times, never, once_more, xor_groups, groups-cons,
  key_chunk-drop, absorb-groups,
}
use mega_basterd_cli.Crypto.Derive.{
  a32_to_str, str_to_a32, word_at, key_chunk, xor_at, absorb, rounds, even_words, start_key,
  aes_cbc_encrypt_a32, aes_cbc_decrypt_a32, mix_password, derive_key_legacy, stringhash,
}

abbrev IsQuad : List ℕ → Type 0
IsQuad ws = (length ws ≡ 4) × AreWords ws

-- Words printed in MEGA's base64 are read back.
str_to_a32-a32_to_str :
    (ws : List ℕ)
    → AreWords ws
    → (a32_to_str ws ≡ some (b64_url_encode (bytes_of_words ws)))
      × (str_to_a32 (b64_url_encode (bytes_of_words ws)) ≡ some ws)
unfolding a32_to_str str_to_a32
str_to_a32-a32_to_str ws h = (
  rw (a32_to_bytes-some ws h) refl,
  rw
      (
        b64_url_decode-encode (bytes_of_words ws) (bytes_of_words-AreBytes ws h),
        bytes_to_a32-bytes_of_words ws h,
      )
      refl,
)

-- The text of eleven characters that decodes to the first and the third of four words, which are
-- so many encryptions of the groups of the string put together
pub data IsHash (lib : Primitives) (string : Bytes) (key : List ℕ) (text : Text) : Type 0 where
  printed :
      (a b c d : ℕ)
      → Times
          (Encrypts lib key)
          16384
          (xor_groups (0 ∷ 0 ∷ 0 ∷ 0 ∷ []) (groups (bytes_to_a32 string)))
          (a ∷ b ∷ c ∷ d ∷ [])
      → length text ≡ 11
      → str_to_a32 text ≡ some (a ∷ c ∷ [])
      → IsHash lib string key text

abbrev Hashed : Primitives → Bytes → List ℕ → Option Text → Type 0
Hashed lib string key hash = (text : Text) × (hash ≡ some text) × IsHash lib string key text

even_words-IsHash :
    (lib : Primitives) (string : Bytes) (key h32 : List ℕ)
    → IsQuad h32
    → Times
        (Encrypts lib key)
        16384
        (xor_groups (0 ∷ 0 ∷ 0 ∷ 0 ∷ []) (groups (bytes_to_a32 string)))
        h32
    → Hashed lib string key (even_words h32 >>= λ words. a32_to_str words)
unfolding even_words b64_url_encode
even_words-IsHash lib string key (a ∷ b ∷ c ∷ d ∷ []) (l, (pa, (pb, (pc, pd)))) t =
    let (prints, reads) = str_to_a32-a32_to_str (a ∷ c ∷ []) (pa, (pc, tt)) in
    (b64_url_encode (bytes_of_words (a ∷ c ∷ [])), prints, printed a b c d t refl reads)
even_words-IsHash lib string key [] (l, h) t = absurd (omega arith)
even_words-IsHash lib string key (a ∷ []) (l, h) t = absurd (omega arith)
even_words-IsHash lib string key (a ∷ b ∷ []) (l, h) t = absurd (omega arith)
even_words-IsHash lib string key (a ∷ b ∷ c ∷ []) (l, h) t = absurd (omega arith)
even_words-IsHash lib string key (a ∷ b ∷ c ∷ d ∷ e ∷ ws) (l, h) t = absurd (omega arith)

module _ (lib : Primitives) (cipher : IsCipher lib) where
  -- Words of whole blocks are encrypted, under a key of four words, to as many words, which are
  -- decrypted to the words.
  sealed_words :
      (ws key : List ℕ)
      → length ws % 4 ≡ 0
      → AreWords ws
      → length key ≡ 4
      → AreWords key
      → (sealed : List ℕ) × (aes_cbc_encrypt_a32 lib ws key ≡ some sealed)
        × (aes_cbc_decrypt_a32 lib sealed key ≡ some ws)
        × (length sealed ≡ length ws)
        × AreWords sealed
        × Encrypts lib key ws sealed
  unfolding aes_cbc_encrypt_a32 aes_cbc_decrypt_a32 aes_cbc_encrypt aes_cbc_decrypt
  sealed_words ws key l h k kh =
      let size : length (bytes_of_words ws) ≡ 4 * length ws = length-bytes_of_words ws in
      let (bs, c) =
        cipher (bytes_of_words key) zeros (bytes_of_words ws)
          (omega (arith, length-bytes_of_words key)) refl (omega (arith, size))
          (bytes_of_words-AreBytes ws h) in
      let whole : length bs % 4 ≡ 0 = omega (arith, c.same_length, size) in
      let words : AreWords (bytes_to_a32 bs) = bytes_to_a32-AreWords bs c.sealed_bytes in
      (
        bytes_to_a32 bs,
        rw (a32_to_bytes-some ws h, a32_to_bytes-some key kh, c.encrypts) refl,
        rw
            (
              a32_to_bytes-some (bytes_to_a32 bs) words,
              a32_to_bytes-some key kh,
              bytes_of_words-bytes_to_a32 bs c.sealed_bytes whole,
              c.decrypts,
            )
            (ap some (bytes_to_a32-bytes_of_words ws h)),
        omega (arith, length-bytes_to_a32 bs whole, c.same_length, size),
        words,
        c.encrypts ∙ ap some (sym (bytes_of_words-bytes_to_a32 bs c.sealed_bytes whole)),
      )

  word_at-lt : (i : ℕ) (ws : List ℕ) → AreWords ws → word_at i ws < 4294967296
  unfolding word_at
  word_at-lt i [] h = omega arith
  word_at-lt zero (w ∷ ws) h = h.0
  word_at-lt (suc i) (w ∷ ws) h = word_at-lt i ws h.1

  key_chunk-IsQuad : (j : ℕ) (ws : List ℕ) → AreWords ws → IsQuad (key_chunk j ws)
  key_chunk-IsQuad j ws h =
      (refl, (word_at-lt j ws h, (word_at-lt _ ws h, (word_at-lt _ ws h, (word_at-lt _ ws h, tt)))))

  rounds-Times :
      (Step : List ℕ → List ℕ → Type 0) (step : List ℕ → Option (List ℕ)) (n : ℕ) (ws : List ℕ)
      → ((us : List ℕ) → IsQuad us → (vs : List ℕ) × (step us ≡ some vs) × IsQuad vs × Step us vs)
      → IsQuad ws
      → (vs : List ℕ) × (rounds n step ws ≡ some vs) × IsQuad vs × Times Step n ws vs
  unfolding rounds
  rounds-Times Step step zero ws f h = (ws, refl, h, never)
  rounds-Times Step step (suc n) ws f h =
      let (us, e, q, once) = f ws h in
      let (vs, g, r, more) = rounds-Times Step step n us f q in
      (vs, rw (e, g) refl, r, once_more once more)

  -- From the words that are left from an index on
  mix_password-Passes :
      (n j : ℕ) (password rest pkey : List ℕ)
      → drop j password ≡ rest
      → n ≡ (length rest + 3) / 4
      → AreWords password
      → IsQuad pkey
      → (vs : List ℕ) × (mix_password lib n j password pkey ≡ some vs)
        × IsQuad vs
        × Passes lib (groups rest) pkey vs
  unfolding mix_password
  mix_password-Passes zero j password [] pkey d m h q = (pkey, refl, q, passed)
  mix_password-Passes zero j password (w ∷ ws) pkey d m h q = absurd (omega arith)
  mix_password-Passes (suc n) j password [] pkey d m h q = absurd (omega arith)
  mix_password-Passes (suc n) j password (w ∷ ws) pkey d m h (l, q) =
      let (kl, kh) = key_chunk-IsQuad j password h in
      let (us, e, back, size, small, encrypts) =
        sealed_words pkey (key_chunk j password) (omega arith) q kl kh in
      let (group, split, fills) = groups-cons w ws in
      let behind : drop (4 + j) password ≡ drop 4 (w ∷ ws) =
        ap (λ (k : ℕ). drop k password) (omega arith)
        ∙ sym (drop-add j 4 password)
        ∙ ap (λ (l : List ℕ). drop 4 l) d in
      let (vs, g, r, more) =
        mix_password-Passes n (4 + j) password (drop 4 (w ∷ ws)) us behind
          (omega (arith, m, length-drop 4 (w ∷ ws))) h (omega (arith, size), small) in
      let same : key_chunk j password ≡ filled group =
        key_chunk-drop j password ∙ ap (λ (l : List ℕ). key_chunk 0 l) d ∙ sym fills in
      (
        vs,
        rw (e, g) refl,
        r,
        subst (λ (gs : List (List ℕ)). Passes lib gs pkey vs) (sym split)
            (pass (subst (λ (k : List ℕ). Encrypts lib k pkey us) same encrypts) more),
      )

  xor_at-IsQuad :
      (i word : ℕ) (ws : List ℕ)
      → word < 4294967296
      → AreWords ws
      → (length (xor_at i word ws) ≡ length ws) × AreWords (xor_at i word ws)
  unfolding xor_at
  xor_at-IsQuad i word [] p h = (refl, tt)
  xor_at-IsQuad zero word (h ∷ hs) p (small, q) = (refl, (bit_xor-lt 32 h word small p, q))
  xor_at-IsQuad (suc i) word (h ∷ hs) p (small, q) =
      let (l, r) = xor_at-IsQuad i word hs p q in (omega (arith, l), (small, r))

  absorb-IsQuad :
      (i : ℕ) (words h32 : List ℕ) → AreWords words → IsQuad h32 → IsQuad (absorb i words h32)
  unfolding absorb
  absorb-IsQuad i [] h32 h q = q
  absorb-IsQuad i (w ∷ ws) h32 (small, h) (l, q) =
      let (size, words) = xor_at-IsQuad (i % 4) w h32 small q in
      absorb-IsQuad (suc i) ws (xor_at (i % 4) w h32) h (omega (arith, size), words)

  derived :
      (password : Bytes)
      → AreBytes password
      → (key : List ℕ) × (derive_key_legacy lib password ≡ some key)
        × IsQuad key
        × Times (Passes lib (groups (bytes_to_a32 password))) 65536 start_key key
  unfolding derive_key_legacy
  derived password h =
      let words : AreWords (bytes_to_a32 password) = bytes_to_a32-AreWords password h in
      rounds-Times (Passes lib (groups (bytes_to_a32 password))) _ 65536 start_key
        (λ us q.
          mix_password-Passes _ 0 (bytes_to_a32 password) (bytes_to_a32 password) us refl refl words
            q)
        (refl, omega arith)

  sealed-IsQuad :
      (ws key : List ℕ)
      → IsQuad ws
      → IsQuad key
      → (vs : List ℕ) × (aes_cbc_encrypt_a32 lib ws key ≡ some vs)
        × IsQuad vs
        × Encrypts lib key ws vs
  sealed-IsQuad ws key (l, h) (k, q) =
      let (vs, e, back, size, small, encrypts) = sealed_words ws key (omega arith) h k q in
      (vs, e, (omega (arith, size), small), encrypts)

  hashed :
      (string : Bytes) (key : List ℕ)
      → AreBytes string
      → IsQuad key
      → Hashed lib string key (stringhash lib string key)
  unfolding stringhash
  hashed string key h q =
      let start = absorb 0 (bytes_to_a32 string) (0 ∷ 0 ∷ 0 ∷ 0 ∷ []) in
      let (h32, e, r, times) =
        rounds-Times (Encrypts lib key) (λ us. aes_cbc_encrypt_a32 lib us key) 16384 start
          (λ us w. sealed-IsQuad us key w q)
          (absorb-IsQuad 0 (bytes_to_a32 string) _ (bytes_to_a32-AreWords string h)
            (refl, omega arith)) in
      rw e (
        even_words-IsHash lib string key h32 r (
          subst (λ (ws : List ℕ). Times (Encrypts lib key) 16384 ws h32)
            (absorb-groups 0 (bytes_to_a32 string) 0 0 0 0 refl) times))

  -- Where AES is a cipher, every password has a legacy key of four 32-bit words: the start key after
  -- 65536 rounds, each of which encrypts it under every four words of the password in their order, the
  -- last ones filled up with zeros. The login hash of every string under that key is the text of eleven
  -- characters that decodes to the first and third of the four words that the exclusive or of all groups of
  -- four words of the string becomes by 16384 encryptions under the key.
  pub stringhash-derive_key_legacy :
      (password string : Bytes)
      → AreBytes password
      → AreBytes string
      → (key : List ℕ) × (derive_key_legacy lib password ≡ some key)
        × (length key ≡ 4)
        × AreWords key
        × Times
            (Passes lib (groups (bytes_to_a32 password)))
            65536
            (2479122403 ∷ 2108737444 ∷ 3518906241 ∷ 22203222 ∷ [])
            key
        × (text : Text) × (stringhash lib string key ≡ some text)
        × IsHash lib string key text
  stringhash-derive_key_legacy password string h g =
      let (key, e, q, times) = derived password h in
      let (text, prints, right) = hashed string key g q in
      (key, e, q.0, q.1, times, text, prints, right)
