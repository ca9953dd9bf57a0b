-- ===== src/Crypto/Attributes.antt =====
-- `encrypt_attributes` and `decrypt_attributes` (src/megabasterd_cli/core/crypto.py).
use mega_basterd_cli.Prelude.{
  ℕ, zero, suc, ◌%◌, ◌<◌, not, ◌&&◌, ◌||◌, Option, none, some, [], ◌∷◌, ◌++◌, ◌≡◌, refl, arith, All,
  ◌==◌, if◌then◌else◌, length, take, drop, replicate, All-append, length-append, ap, ◌∙◌,
}
use mega_basterd_cli.Prelude.Options.{◌>>=◌}
use mega_basterd_cli.Json.{Json, Dict, Fields, to_dict}
use mega_basterd_cli.State.Hex.{Bytes, AreBytes}
use mega_basterd_cli.Crypto.Primitives.{Primitives, IsCipher, zeros}
use mega_basterd_cli.Crypto.Wrap.{aes_cbc_encrypt, aes_cbc_decrypt}
use mega_basterd_cli.Crypto.Mac.{padding, padded-length, padded-AreBytes}
use mega_basterd_cli.Crypto.PasswordLink.{same_bytes}

abbrev pub attr_prefix : Bytes
attr_prefix = b'M' ∷ b'E' ∷ b'G' ∷ b'A' ∷ []

-- `dumps` is what `json.dumps` prints of the attributes.
module _ {A : Type 0} (lib : Primitives) (dumps : A → Bytes) where
  unfoldable pub encrypt_attributes : A → Bytes → Option Bytes
  encrypt_attributes attrs key =
      let plaintext = attr_prefix ++ dumps attrs in
      aes_cbc_encrypt lib (plaintext ++ padding plaintext) key

-- `rstrip(b"\x00")`
unfoldable pub strip_zeros : Bytes → Bytes
strip_zeros [] = []
strip_zeros (b ∷ bs) =
    let rest = strip_zeros bs in if b == 0 && same_bytes rest [] then [] else b ∷ rest

-- `json.loads` of the bytes as UTF-8 with replacements, where `none` is its JSONDecodeError, and what
-- `dict` makes of a value that is not an object, where `none` is its exception
pub record Loader : Type 0 where
  pub loads : Bytes → Option Json
  pub dict_of : Json → Option Dict

-- A result `none` is an exception that leaves the function, `some none` the `None` it returns.
module _ (lib : Primitives) (loader : Loader) where
  unfoldable pub parse_body : Option Json → Option (Option Dict)
  parse_body none = some none
  parse_body (some (Json.obj fields)) = some (some (to_dict fields))
  parse_body (some j) = do fields ← loader.dict_of j; some (some fields)

  unfoldable pub read_plaintext : Bytes → Option (Option Dict)
  read_plaintext plaintext =
      if same_bytes (take 4 plaintext) attr_prefix
      then parse_body (loader.loads (strip_zeros (drop 4 plaintext)))
      else some none

  unfoldable pub decrypt_attributes : Bytes → Bytes → Option (Option Dict)
  decrypt_attributes bytes key =
      if same_bytes bytes [] || not (length bytes % 16 == 0)
      then some none
      else (aes_cbc_decrypt lib bytes key >>= λ plaintext. read_plaintext plaintext)

abbrev pub IsPrinted : Bytes → Type 0
IsPrinted = All (λ (b : ℕ). (0 < b) × (b < 256))

printed-AreBytes : (bs : Bytes) → IsPrinted bs → AreBytes bs
printed-AreBytes [] h = tt
printed-AreBytes (b ∷ bs) (p, h) = (p.1, printed-AreBytes bs h)

strip_zeros-replicate : (n : ℕ) → strip_zeros (replicate n 0) ≡ []
unfolding strip_zeros same_bytes
strip_zeros-replicate zero = refl
strip_zeros-replicate (suc n) = rw (strip_zeros-replicate n) refl

strip_zeros-padded : (n : ℕ) (bs : Bytes) → IsPrinted bs → strip_zeros (bs ++ replicate n 0) ≡ bs
unfolding strip_zeros
strip_zeros-padded n [] h = strip_zeros-replicate n
strip_zeros-padded n (b ∷ bs) (p, h) = rw (strip_zeros-padded n bs h) (ground (arith, p))

-- What `json.dumps` prints has no zero byte, and `json.loads` reads it back as the object.
pub record IsPrinting {A : Type 0} (loader : Loader) (dumps : A → Bytes) (fields : A → Fields)
    : Type 0 where
  pub printed : (attrs : A) → IsPrinted (dumps attrs)
  pub loaded : (attrs : A) → loader.loads (dumps attrs) ≡ some (Json.obj (fields attrs))

read_plaintext-padded :
    (lib : Primitives) (loader : Loader) (n : ℕ) (bs : Bytes) (fs : Fields)
    → IsPrinted bs
    → loader.loads bs ≡ some (Json.obj fs)
    → read_plaintext lib loader ((attr_prefix ++ bs) ++ replicate n 0) ≡ some (some (to_dict fs))
unfolding read_plaintext same_bytes parse_body
read_plaintext-padded lib loader n bs fs h e = rw (strip_zeros-padded n bs h, e) refl

decrypt_attributes-sealed :
    (lib : Primitives) (loader : Loader) (bytes key plaintext : Bytes)
    → 0 < length bytes
    → length bytes % 16 ≡ 0
    → lib.cbc_decrypt key zeros bytes ≡ some plaintext
    → decrypt_attributes lib loader bytes key ≡ read_plaintext lib loader plaintext
unfolding decrypt_attributes same_bytes aes_cbc_decrypt
decrypt_attributes-sealed lib loader [] key plaintext p l e = absurd (omega arith)
decrypt_attributes-sealed lib loader (b ∷ bs) key plaintext p l e = ground (arith, e)

-- The attributes of a file can be encrypted under a key of 16 bytes and are decrypted to the same
-- dictionary, where AES is a cipher, what `json.dumps` prints has no zero byte, and `json.loads` reads it
-- back.
pub decrypt_attributes-encrypt_attributes :
    {A : Type 0} (lib : Primitives) (loader : Loader) (dumps : A → Bytes) (fields : A → Fields)
    (attrs : A) (key : Bytes)
    → IsCipher lib
    → IsPrinting loader dumps fields
    → length key ≡ 16
    → (sealed : Bytes) × (encrypt_attributes lib dumps attrs key ≡ some sealed)
      × (decrypt_attributes lib loader sealed key ≡ some (some (to_dict (fields attrs))))
unfolding encrypt_attributes aes_cbc_encrypt
decrypt_attributes-encrypt_attributes lib loader dumps fields attrs key cipher p k =
    let plaintext = attr_prefix ++ dumps attrs in
    let bytes : AreBytes plaintext =
      All-append _ attr_prefix (dumps attrs) (omega arith)
        (printed-AreBytes (dumps attrs) (p.printed attrs)) in
    let (sealed, c) =
      cipher key zeros (plaintext ++ padding plaintext) k refl (padded-length plaintext)
        (padded-AreBytes plaintext bytes) in
    (
      sealed,
      c.encrypts,
      decrypt_attributes-sealed lib loader sealed key _
            (omega (arith, c.same_length, length-append plaintext (padding plaintext)))
            (ap (λ (n : ℕ). n % 16) c.same_length ∙ padded-length plaintext) c.decrypts
          ∙ read_plaintext-padded lib loader _ (dumps attrs) (fields attrs) (p.printed attrs)
              (p.loaded attrs),
    )
