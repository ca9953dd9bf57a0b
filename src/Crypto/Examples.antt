-- ===== src/Crypto/Examples.antt =====
-- Witnesses for Crypto.
use mega_basterd_cli.Prelude.{Bool, true, false, none, length, ◌==◌, if◌then◌else◌}
use mega_basterd_cli.Json.{Json, Fields, to_dict, ℤ}
use mega_basterd_cli.Crypto.Attributes.{
  encrypt_attributes, decrypt_attributes, Loader, IsPrinting, IsPrinted,
  decrypt_attributes-encrypt_attributes,
}
use mega_basterd_cli.Crypto.Words.{AreWords, bytes_to_a32}
use mega_basterd_cli.Crypto.Derive.{derive_key_legacy, stringhash}
use mega_basterd_cli.Crypto.Derive.Passes.{groups, Passes, Times}
use mega_basterd_cli.Crypto.Derive.Words.{IsHash, stringhash-derive_key_legacy}
use mega_basterd_cli.Prelude.{ℕ, some, List, [], ◌∷◌, ◌≡◌, arith, refl, replicate}
use mega_basterd_cli.State.Hex.{Bytes}
use mega_basterd_cli.Crypto.Plain.{plain, plain-IsCipher, plain-IsHashing}
use mega_basterd_cli.Crypto.Base64.{Text}
use mega_basterd_cli.Prelude.{inr}
use mega_basterd_cli.Crypto.PasswordLink.{encrypt_password_link, decrypt_password_link}
use mega_basterd_cli.Crypto.PasswordLink.Shared.{decrypt_password_link-encrypt_password_link}

abbrev key : Bytes
key = replicate 16 5

abbrev two_blocks : Bytes
two_blocks = replicate 32 200

abbrev salt : Bytes
salt = replicate 32 77

decrypt_password_link-encrypt_password_link_example :
    (blob : Text) × (encrypt_password_link plain 0
        (replicate 6 9)
        two_blocks
        (112 ∷ 119 ∷ [])
        2
        salt
      ≡ some blob)
    × (decrypt_password_link plain blob (112 ∷ 119 ∷ []) ≡ some (0, replicate 6 9, two_blocks))
decrypt_password_link-encrypt_password_link_example =
    decrypt_password_link-encrypt_password_link plain plain-IsHashing 0 2 (112 ∷ 119 ∷ [])
      (replicate 6 9) salt two_blocks (omega arith) (inr refl) refl refl refl (omega arith)
      (omega arith) (omega arith)

-- `{}` and `{"n":1}`
abbrev printed : Bool → Bytes
printed false = 123 ∷ 125 ∷ []
printed true = 123 ∷ 34 ∷ 110 ∷ 34 ∷ 58 ∷ 49 ∷ 125 ∷ []

abbrev attributes : Bool → Fields
attributes false = Fields.end
attributes true = Fields.field "n" (Json.int (ℤ.pos 1)) Fields.end

abbrev json : Loader
json = record {
  loads = λ bs.
      if length bs == 7
      then some (Json.obj (attributes true))
      else (if length bs == 2 then some (Json.obj (attributes false)) else none);
  dict_of = λ j. none;
}

json-IsPrinting : IsPrinting json printed attributes
json-IsPrinting = record { printed = all; loaded = back }
  where
    all : (b : Bool) → IsPrinted (printed b)
    all false = omega arith
    all true = omega arith

    back : (b : Bool) → json.loads (printed b) ≡ some (Json.obj (attributes b))
    back false = refl
    back true = refl

decrypt_attributes-encrypt_attributes_example :
    (sealed : Bytes) × (encrypt_attributes plain printed true key ≡ some sealed)
    × (decrypt_attributes plain json sealed key ≡ some (some (to_dict (attributes true))))
decrypt_attributes-encrypt_attributes_example =
    decrypt_attributes-encrypt_attributes plain json printed attributes true key plain-IsCipher
      json-IsPrinting refl

stringhash-derive_key_legacy_example :
    (k : List ℕ) × (derive_key_legacy plain (112 ∷ 119 ∷ []) ≡ some k)
    × (length k ≡ 4)
    × AreWords k
    × Times
        (Passes plain (groups (bytes_to_a32 (112 ∷ 119 ∷ []))))
        65536
        (2479122403 ∷ 2108737444 ∷ 3518906241 ∷ 22203222 ∷ [])
        k
    × (text : Text) × (stringhash plain (97 ∷ 64 ∷ 98 ∷ 255 ∷ 3 ∷ []) k ≡ some text)
    × IsHash plain (97 ∷ 64 ∷ 98 ∷ 255 ∷ 3 ∷ []) k text
stringhash-derive_key_legacy_example =
    stringhash-derive_key_legacy plain plain-IsCipher (112 ∷ 119 ∷ []) (97 ∷ 64 ∷ 98 ∷ 255 ∷ 3 ∷ [])
      (omega arith) (omega arith)
