-- ===== src/Upload/Kept.antt =====
-- What the metadata of an upload's state records for going on with it (`_upload_file_locked` of
-- src/megabasterd_cli/core/uploader.py).
use mathlib.Core.Option.{some-injective}
use mathlib.Core.Path.{subst}
use mega_basterd_cli.Prelude.{
  String, Bool, true, ◌&&◌, Option, none, some, ◌≡◌, refl, sym, ap, arith, length, ◌==◌, ==→≡,
  Bool-cases, inl, inr, str_eq, eq_iff, is_truthy, if◌then◌else◌,
}
use mega_basterd_cli.Prelude.Options.{◌>>=◌}
use mega_basterd_cli.Json.{Json, Dict, lookup}
use mega_basterd_cli.State.Hex.{Bytes, fromhex}
use mega_basterd_cli.Upload.Run.{
  Material, hex_item, url_item, token_text, token_item, read_material,
}

-- A recorded text that is these bytes in hex
pub record IsHex (recorded : Option Json) (bytes : Bytes) : Type 0 where
  pub text : String
  pub is_text : recorded ≡ some (Json.str text)
  pub decoded : fromhex text ≡ some bytes

pub data IsToken : Option Json → Option Bytes → Type 0 where
  missing : IsToken none none
  null : IsToken (some Json.null) none
  blank : IsToken (some (Json.str "")) none
  kept :
      (text : String) (t : Bytes)
      → is_truthy text ≡ true
      → fromhex text ≡ some t
      → IsToken (some (Json.str text)) (some t)

-- The metadata records a key of 16 and a nonce of 8 bytes, the slot, and the token where there is one.
pub record Keeps (metadata : Dict) (m : Material) : Type 0 where
  pub key : IsHex (lookup "aes_key" metadata) m.key
  pub key_fits : length m.key ≡ 16
  pub nonce : IsHex (lookup "nonce" metadata) m.nonce
  pub nonce_fits : length m.nonce ≡ 8
  pub url : lookup "upload_url" metadata ≡ some (Json.str m.url)
  pub token : IsToken (lookup "completion_token" metadata) m.token

both_true : (a b : Bool) → (a && b) ≡ true → (a ≡ true) × (b ≡ true)
both_true a b h = ground (arith, h)

hex_item-IsHex :
    (recorded : Option Json) (bytes : Bytes) → hex_item recorded ≡ some bytes → IsHex recorded bytes
hex_item-IsHex (some (Json.str s)) bytes h = record { text = s; is_text = refl; decoded = h }
hex_item-IsHex none bytes h = absurd (ground arith)
hex_item-IsHex (some Json.null) bytes h = absurd (ground arith)
hex_item-IsHex (some (Json.bool b)) bytes h = absurd (ground arith)
hex_item-IsHex (some (Json.int n)) bytes h = absurd (ground arith)
hex_item-IsHex (some (Json.float x)) bytes h = absurd (ground arith)
hex_item-IsHex (some (Json.obj fs)) bytes h = absurd (ground arith)
hex_item-IsHex (some (Json.arr js)) bytes h = absurd (ground arith)

url_item-text :
    (recorded : Option Json) (u : String)
    → url_item recorded ≡ some u
    → recorded ≡ some (Json.str u)
url_item-text (some (Json.str s)) u h =
    ap (λ (t : String). some (Json.str t)) (some-injective _ _ h)
url_item-text none u h = absurd (ground arith)
url_item-text (some Json.null) u h = absurd (ground arith)
url_item-text (some (Json.bool b)) u h = absurd (ground arith)
url_item-text (some (Json.int n)) u h = absurd (ground arith)
url_item-text (some (Json.float x)) u h = absurd (ground arith)
url_item-text (some (Json.obj fs)) u h = absurd (ground arith)
url_item-text (some (Json.arr js)) u h = absurd (ground arith)

decoded-IsToken :
    (s : String) (bytes : Option Bytes) (t : Option Bytes)
    → is_truthy s ≡ true
    → fromhex s ≡ bytes
    → (bytes >>= λ b. some (some b)) ≡ some t
    → IsToken (some (Json.str s)) t
decoded-IsToken s none t a e h = absurd (ground arith)
decoded-IsToken s (some b) t a e h =
    subst (IsToken (some (Json.str s))) (some-injective _ _ h) (kept s b a e)

token_text-IsToken :
    (s : String) (t : Option Bytes) → token_text s ≡ some t → IsToken (some (Json.str s)) t
token_text-IsToken s t h = elim (Bool-cases (str_eq s "")) [
  | inl e ↦
      subst (λ (x : String). IsToken (some (Json.str x)) t) (sym ((eq_iff s "").0 e))
        (subst (IsToken (some (Json.str ""))) (some-injective none t (ground (arith, e, h))) blank)
  | inr e ↦ decoded-IsToken s (fromhex s) t (ground (arith, e)) refl (ground (arith, e, h))
]

token_item-IsToken :
    (recorded : Option Json) (t : Option Bytes) → token_item recorded ≡ some t → IsToken recorded t
token_item-IsToken none t h = subst (IsToken none) (some-injective _ _ h) missing
token_item-IsToken (some Json.null) t h =
    subst (IsToken (some Json.null)) (some-injective _ _ h) IsToken.null
token_item-IsToken (some (Json.str s)) t h = token_text-IsToken s t h
token_item-IsToken (some (Json.bool b)) t h = absurd (ground arith)
token_item-IsToken (some (Json.int n)) t h = absurd (ground arith)
token_item-IsToken (some (Json.float x)) t h = absurd (ground arith)
token_item-IsToken (some (Json.obj fs)) t h = absurd (ground arith)
token_item-IsToken (some (Json.arr js)) t h = absurd (ground arith)

IsToken-token_item :
    (recorded : Option Json) (t : Option Bytes) → IsToken recorded t → token_item recorded ≡ some t
IsToken-token_item _ _ missing = refl
IsToken-token_item _ _ IsToken.null = refl
IsToken-token_item _ _ blank = refl
IsToken-token_item _ _ (kept s t a e) = rw (a, e) refl

IsHex-hex_item :
    (recorded : Option Json) (bytes : Bytes) → IsHex recorded bytes → hex_item recorded ≡ some bytes
IsHex-hex_item recorded bytes i = rw i.is_text i.decoded

module _ (key nonce : Option Bytes) (url : Option String) (token : Option (Option Bytes)) where
  -- The checks of `read_material` on what it has read
  abbrev checked : Option Material
  checked = do
    k ← key
    n ← nonce
    u ← url
    t ← token
    if length k == 16 && length n == 8
        then some (record { key = k; nonce = n; url = u; token = t })
        else none

-- Every item is there, and the lengths fit.
record Parts (key nonce : Option Bytes) (url : Option String) (token : Option (Option Bytes))
    (m : Material) : Type 0 where
  has_key : key ≡ some m.key
  has_nonce : nonce ≡ some m.nonce
  has_url : url ≡ some m.url
  has_token : token ≡ some m.token
  key_fits : length m.key ≡ 16
  nonce_fits : length m.nonce ≡ 8

checked-Parts :
    (key nonce : Option Bytes) (url : Option String) (token : Option (Option Bytes)) (m : Material)
    → checked key nonce url token ≡ some m
    → Parts key nonce url token m
checked-Parts none _ url _ m h = absurd (ground arith)
checked-Parts (some k) none url _ m h = absurd (ground arith)
checked-Parts (some k) (some n) none _ m h = absurd (ground arith)
checked-Parts (some k) (some n) (some u) none m h = absurd (ground arith)
checked-Parts (some k) (some n) (some u) (some t) m h =
    elim (Bool-cases (length k == 16 && length n == 8)) [
      | inr a ↦ absurd (ground (arith, a, h))
      | inl a ↦
          let (sixteen, eight) = both_true _ _ a in
          subst (Parts (some k) (some n) (some u) (some t))
            (some-injective (record { key = k; nonce = n; url = u; token = t }) m
              (ground (arith, a, h)))
            (record {
              has_key = refl;
              has_nonce = refl;
              has_url = refl;
              has_token = refl;
              key_fits = ==→≡ (length k) 16 sixteen;
              nonce_fits = ==→≡ (length n) 8 eight;
            })
    ]

pub read_material-Keeps :
    (metadata : Dict) (m : Material) → read_material metadata ≡ some m → Keeps metadata m
unfolding read_material
read_material-Keeps metadata m h =
    let p =
      checked-Parts (hex_item (lookup "aes_key" metadata)) (hex_item (lookup "nonce" metadata))
        (url_item (lookup "upload_url" metadata)) (token_item (lookup "completion_token" metadata))
        m h in
    record {
      key = hex_item-IsHex (lookup "aes_key" metadata) m.key p.has_key;
      key_fits = p.key_fits;
      nonce = hex_item-IsHex (lookup "nonce" metadata) m.nonce p.has_nonce;
      nonce_fits = p.nonce_fits;
      url = url_item-text (lookup "upload_url" metadata) m.url p.has_url;
      token = token_item-IsToken (lookup "completion_token" metadata) m.token p.has_token;
    }

pub Keeps-read_material :
    (metadata : Dict) (m : Material) → Keeps metadata m → read_material metadata ≡ some m
unfolding read_material
Keeps-read_material metadata m k =
    rw
      (
        IsHex-hex_item (lookup "aes_key" metadata) m.key k.key,
        IsHex-hex_item (lookup "nonce" metadata) m.nonce k.nonce,
        k.url,
        IsToken-token_item (lookup "completion_token" metadata) m.token k.token,
        k.key_fits,
        k.nonce_fits,
      )
      refl
