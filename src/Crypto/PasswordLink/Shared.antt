-- ===== src/Crypto/PasswordLink/Shared.antt =====
-- A password-protected link is read back with its password (src/megabasterd_cli/core/crypto.py).
use mathlib.Core.List.{append_assoc}
use Prim.Native.Nat.{bit_xor}
use mega_basterd_cli.Prelude.Slices.{slice, slice-part, take-all}
use mega_basterd_cli.Prelude.Bits.{bit_xor_cancel, bit_xor-lt}
use mega_basterd_cli.Prelude.{
  ℕ, suc, ◌+◌, ◌<◌, ◌≤◌, true, false, ◌&&◌, ◌||◌, some, [], ◌∷◌, ◌++◌, ◌≡◌, ◌⊎◌, refl, sym, ap, ◌∙◌,
  arith, length, take, drop, ltb, ◌==◌, length-append, length-take, take-append, drop-append,
  All-append, All-take,
}
use mega_basterd_cli.State.Hex.{Bytes, AreBytes}
use mega_basterd_cli.Crypto.Primitives.{Primitives}
use mega_basterd_cli.Crypto.Base64.{Text, b64_url_encode, b64_url_decode-encode}
use mega_basterd_cli.Crypto.Mac.{xor_bytes}
use mega_basterd_cli.Crypto.PasswordLink.{
  same_bytes, key_length, derive_password_link_keys, open_key, open_blob, decrypt_password_link,
  print_blob, seal_key, encrypt_password_link,
}

-- PBKDF2 gives as many bytes as it is asked for, and HMAC-SHA256 gives 32.
pub record IsHashing (lib : Primitives) : Type 0 where
  pub derived_length :
      (password salt : Bytes) (size rounds : ℕ)
      → length (lib.pbkdf2 password salt size rounds) ≡ size
  pub derived_bytes :
      (password salt : Bytes) (size rounds : ℕ) → AreBytes (lib.pbkdf2 password salt size rounds)
  pub mac_length : (key body : Bytes) → length (lib.hmac_sha256 key body) ≡ 32
  pub mac_bytes : (key body : Bytes) → AreBytes (lib.hmac_sha256 key body)

same_bytes_refl : (bs : Bytes) → same_bytes bs bs ≡ true
unfolding same_bytes
same_bytes_refl [] = refl
same_bytes_refl (b ∷ bs) = ground (arith, same_bytes_refl bs)

-- A key added to a text of its length, and added again.
xor_bytes-twice :
    (s t : Bytes)
    → length s ≡ length t
    → AreBytes s
    → AreBytes t
    → (u : Bytes) × (xor_bytes s t ≡ some u)
      × (xor_bytes u t ≡ some s)
      × (length u ≡ length s)
      × AreBytes u
unfolding xor_bytes
xor_bytes-twice [] [] l p q = ([], refl, refl, refl, tt)
xor_bytes-twice [] (b ∷ t) l p q = absurd (omega arith)
xor_bytes-twice (a ∷ s) [] l p q = absurd (omega arith)
xor_bytes-twice (a ∷ s) (b ∷ t) l p q =
    let (u, added, back, size, small) = xor_bytes-twice s t (omega arith) p.1 q.1 in
    (
      bit_xor a b ∷ u,
      rw added refl,
      rw (back, bit_xor_cancel a b) refl,
      omega (arith, size),
      (bit_xor-lt 8 a b p.0 q.0, small),
    )

-- What is read at the places of the blob
module _ (n : ℕ) (handle salt enc mac : Bytes) (h : length handle ≡ 6) (s : length salt ≡ 32)
    (e : length enc ≡ n) (m : length mac ≡ 32) where
  abbrev laid_out : Bytes
  laid_out = (handle ++ (salt ++ enc)) ++ mac

  laid_out-right : laid_out ≡ handle ++ (salt ++ (enc ++ mac))
  laid_out-right =
      append_assoc handle (salt ++ enc) mac
      ∙ ap (λ (x : Bytes). handle ++ x) (append_assoc salt enc mac)

  public_handle_there : take 6 laid_out ≡ handle
  public_handle_there = ap (take 6) laid_out-right ∙ take-append 6 handle (salt ++ (enc ++ mac)) h

  salt_there : slice 6 32 laid_out ≡ salt
  salt_there = ap (slice 6 32) laid_out-right ∙ slice-part 6 32 handle salt (enc ++ mac) h s

  key_there : slice 38 n laid_out ≡ enc
  key_there =
      ap (slice 38 n) (laid_out-right ∙ sym (append_assoc handle salt (enc ++ mac)))
      ∙ slice-part 38 n (handle ++ salt) enc mac (omega (arith, length-append handle salt)) e

  body-length : length (handle ++ (salt ++ enc)) ≡ 38 + n
  body-length = omega (arith, length-append handle (salt ++ enc), length-append salt enc)

  mac_there : slice (38 + n) 32 laid_out ≡ mac
  mac_there =
      ap (take 32) (drop-append (38 + n) (handle ++ (salt ++ enc)) mac body-length)
      ∙ take-all 32 mac m

  body_there : take (38 + n) laid_out ≡ handle ++ (salt ++ enc)
  body_there = take-append (38 + n) (handle ++ (salt ++ enc)) mac body-length

module _ (lib : Primitives) (hashing : IsHashing lib) where
  derived :
      (password salt : Bytes) (algo : ℕ)
      → (algo ≡ 1) ⊎ (algo ≡ 2)
      → (xor_key : Bytes) × (hmac_key : Bytes) × (derive_password_link_keys lib password salt algo
          ≡ some (xor_key, hmac_key))
        × (length xor_key ≡ 32)
        × AreBytes xor_key
  unfolding derive_password_link_keys
  derived password salt algo a =
      let known : (algo == 1 || algo == 2) ≡ true = ground (arith, a) in
      (
        take 32 (lib.pbkdf2 password salt 64 100000),
        drop 32 (lib.pbkdf2 password salt 64 100000),
        simp known refl,
        length-take 32 (lib.pbkdf2 password salt 64 100000)
            (omega (arith, hashing.derived_length password salt 64 100000)),
        All-take _ 32 (lib.pbkdf2 password salt 64 100000)
            (hashing.derived_bytes password salt 64 100000),
      )

  module _ (password handle salt raw_key : Bytes) (algo node_type : ℕ) (h : length handle ≡ 6)
      (s : length salt ≡ 32) (r : length raw_key ≡ key_length node_type) where
    opened :
        (xor_key hmac_key enc : Bytes)
        → derive_password_link_keys lib password salt algo ≡ some (xor_key, hmac_key)
        → xor_bytes enc (take (key_length node_type) xor_key) ≡ some raw_key
        → length enc ≡ key_length node_type
        → open_blob lib password (
            algo
            ∷ node_type
            ∷ ((handle ++ (salt ++ enc))
                ++ lib.hmac_sha256 hmac_key (algo ∷ node_type ∷ (handle ++ (salt ++ enc)))))
          ≡ some (node_type, handle, raw_key)
    unfolding open_blob open_key
    opened xor_key hmac_key enc keys back e =
        let mac = lib.hmac_sha256 hmac_key (algo ∷ node_type ∷ (handle ++ (salt ++ enc))) in
        let m = hashing.mac_length hmac_key (algo ∷ node_type ∷ (handle ++ (salt ++ enc))) in
        let n = key_length node_type in
        rw
          (
            public_handle_there n handle salt enc mac h s e m,
            salt_there n handle salt enc mac h s e m,
            key_there n handle salt enc mac h s e m,
            mac_there n handle salt enc mac h s e m,
            body_there n handle salt enc mac h s e m,
            keys,
            same_bytes_refl mac,
            back,
          )
          refl

    module _ (sb : AreBytes salt) (hb : AreBytes handle) (small : algo < 256)
        (kind : node_type < 2) where
      blob-AreBytes :
          (hmac_key enc : Bytes)
          → AreBytes enc
          → AreBytes (
              algo
              ∷ node_type
              ∷ ((handle ++ (salt ++ enc))
                  ++ lib.hmac_sha256 hmac_key (algo ∷ node_type ∷ (handle ++ (salt ++ enc)))))
      blob-AreBytes hmac_key enc eb =
          let mac = lib.hmac_sha256 hmac_key (algo ∷ node_type ∷ (handle ++ (salt ++ enc))) in
          (
            small,
            (
              omega arith,
              All-append _ (handle ++ (salt ++ enc)) mac
                  (All-append _ handle (salt ++ enc) hb (All-append _ salt enc sb eb))
                  (hashing.mac_bytes hmac_key (algo ∷ node_type ∷ (handle ++ (salt ++ enc)))),
            ),
          )

      blob-long :
          (hmac_key enc : Bytes)
          → length enc ≡ key_length node_type
          → ltb
              (length (
                algo
                ∷ node_type
                ∷ ((handle ++ (salt ++ enc))
                    ++ lib.hmac_sha256 hmac_key (algo ∷ node_type ∷ (handle ++ (salt ++ enc))))))
              88
            ≡ false
      blob-long hmac_key enc e =
          let body = handle ++ (salt ++ enc) in
          let mac = lib.hmac_sha256 hmac_key (algo ∷ node_type ∷ body) in
          let long : 88 ≤ suc (suc (length (body ++ mac))) = ground (
            arith,
            length-append body mac,
            length-append handle (salt ++ enc),
            length-append salt enc,
            hashing.mac_length hmac_key (algo ∷ node_type ∷ body),
          ) in
          ground (arith, long)

-- A link for a file or a folder, made with a password under either algorithm, is read with that password
-- as the same kind of node, handle and key.
pub decrypt_password_link-encrypt_password_link :
    (lib : Primitives)
    → IsHashing lib
    → (node_type algo : ℕ) (password handle salt raw_key : Bytes) → node_type < 2
    → (algo ≡ 1) ⊎ (algo ≡ 2)
    → length handle ≡ 6
    → length salt ≡ 32
    → length raw_key ≡ key_length node_type
    → AreBytes handle
    → AreBytes salt
    → AreBytes raw_key
    → (blob : Text) × (encrypt_password_link lib node_type handle raw_key password algo salt
        ≡ some blob)
      × (decrypt_password_link lib blob password ≡ some (node_type, handle, raw_key))
unfolding encrypt_password_link decrypt_password_link seal_key print_blob
decrypt_password_link-encrypt_password_link lib hashing node_type algo password handle salt raw_key
      kind known h s r hb sb rb =
    let (xor_key, hmac_key, keys, size, xb) = derived lib hashing password salt algo known in
    let n = key_length node_type in
    let (enc, added, back, e, eb) =
      xor_bytes-twice raw_key (take n xor_key) (ground (arith, r, size, length-take n xor_key)) rb
        (All-take _ n xor_key xb) in
    let body = algo ∷ node_type ∷ (handle ++ (salt ++ enc)) in
    let whole = body ++ lib.hmac_sha256 hmac_key body in
    let size_kept : length enc ≡ n = e ∙ r in
    let fits : ((node_type == 0 || node_type == 1) && length raw_key == n && length handle == 6)
        ≡ true =
      ground (arith, r, h, kind) in
    (
      b64_url_encode whole,
      rw (fits, keys, added) refl,
      rw
          (
            b64_url_decode-encode whole (
                blob-AreBytes lib hashing password handle salt raw_key algo node_type h s r sb hb
                  (ground (arith, known)) kind hmac_key enc eb),
            blob-long lib hashing password handle salt raw_key algo node_type h s r sb hb
                (ground (arith, known)) kind hmac_key enc size_kept,
          )
          (opened lib hashing password handle salt raw_key algo node_type h s r xor_key hmac_key enc
            keys back size_kept),
    )
