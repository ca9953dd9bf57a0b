-- ===== src/State/Validate.antt =====
-- `validate_state_dict` (src/megabasterd_cli/core/state.py): a parsed document, or refused.
use mega_basterd_cli.Prelude.{
  ℕ, String, Bool, true, false, not, ◌&&◌, ◌||◌, Option, none, some, List, [], ◌∷◌, length, leb,
  ◌==◌, if◌then◌else◌, str_eq, codes,
}
use mega_basterd_cli.Prelude.Options.{◌>>=◌, ◌>>◌, guard}
use mega_basterd_cli.Json.{ℤ, pos, negsuc, Json, Dict, to_list, to_dict, lookup}
use mega_basterd_cli.State.Hex.{fromhex}
use mega_basterd_cli.State.Model.{TransferState, TransferType, download, upload, Macs, has, put_mac}

-- Outside this file: Python's `int(text)` and `str(n)`, and the link checks of an upload endpoint
-- (`validate_safe_target` of core/link_services.py, `urlparse(...).hostname`).
pub record Texts : Type 0 where
  pub parse_int : String → Option ℤ
  pub print_int : ℕ → String
  pub is_safe_target : String → Bool
  -- the host, lower case and without a trailing dot
  pub hostname : String → String
  -- `text.endswith(suffix)`
  pub endswith : String → String → Bool

abbrev pub is_hex : String → Bool
is_hex s = elim (fromhex s) [ none ↦ false | some b ↦ true ]

abbrev pub text_length : String → ℕ
text_length s = length (codes s)

-- `_validate_hex` with an exact length
abbrev pub hex_of_length : ℕ → Json → Bool
hex_of_length n (Json.str s) = (text_length s == n) && is_hex s
hex_of_length n _ = false

-- `_validate_hex` with a largest length
abbrev pub hex_up_to : ℕ → Json → Bool
hex_up_to n (Json.str s) = not (text_length s == 0) && leb (text_length s) n && is_hex s
hex_up_to n _ = false

-- A check of a key that is there.
abbrev pub where_present : String → (Json → Bool) → Dict → Bool
where_present k p d = elim (lookup k d) [ none ↦ true | some v ↦ p v ]

module _ (env : Texts) where
  pub validate_upload_url : Json → Bool
  validate_upload_url (Json.str s) =
      env.is_safe_target s
      && (str_eq (env.hostname s) "mega.nz"
          || env.endswith (env.hostname s) ".mega.nz"
          || str_eq (env.hostname s) "mega.co.nz"
          || env.endswith (env.hostname s) ".mega.co.nz")
  validate_upload_url _ = false

  abbrev is_object : Json → Bool
  is_object (Json.obj fs) = true
  is_object _ = false

  unfoldable pub validate_metadata : Dict → Bool
  validate_metadata m =
      where_present "aes_key" (hex_of_length 32) m
      && where_present "nonce" (hex_of_length 16) m
      && where_present "completion_token" (hex_up_to 8192) m
      && where_present "upload_url" validate_upload_url m
      && where_present "source_identity" is_object m

abbrev pub read_text : Option Json → Option String
read_text (some (Json.str s)) = some s
read_text _ = none

abbrev pub read_type : String → Option TransferType
read_type s =
    if str_eq s "download" then some download else if str_eq s "upload" then some upload else none

-- An `int` that is no `bool`.
abbrev pub read_int : ℤ → Option Json → Option ℤ
read_int default none = some default
read_int default (some (Json.int n)) = some n
read_int default (some _) = none

abbrev pub natural : ℤ → Option ℕ
natural (pos n) = some n
natural (negsuc n) = none

abbrev pub required_int : Option Json → Option ℤ
required_int (some (Json.int n)) = some n
required_int _ = none

-- `completed_chunks`: integers from 0 up, none twice.
unfoldable pub read_chunks : List Json → List ℕ → Option (List ℕ)
read_chunks [] seen = some []
read_chunks (Json.int (pos k) ∷ js) seen =
    let rest = (do ks ← read_chunks js (k ∷ seen); some (k ∷ ks)) in
    if has k seen then none else rest
read_chunks (_ ∷ js) seen = none

module _ (env : Texts) where
  -- `chunk_macs`: the keys are the prints of indices from 0 up, the values 32 hex characters.
  unfoldable pub read_macs : Dict → Macs → Option Macs
  read_macs [] macs = some macs
  read_macs ((k, Json.str m) ∷ d) macs = do
    n ← env.parse_int k
    i ← natural n
    guard (hex_of_length 32 (Json.str m))
    read_macs d (put_mac i m macs)
  read_macs ((k, _) ∷ d) macs = none

  -- A MAC only for a chunk that is completed.
  abbrev pub no_orphans : List ℕ → Macs → Bool
  no_orphans ks [] = true
  no_orphans ks ((i, m) ∷ macs) = has i ks && no_orphans ks macs

  abbrev pub as_list : Option Json → Option (List Json)
  as_list none = some []
  as_list (some (Json.arr js)) = some (to_list js)
  as_list (some _) = none

  abbrev pub as_dict : Option Json → Option Dict
  as_dict none = some []
  as_dict (some (Json.obj fs)) = some (to_dict fs)
  as_dict (some _) = none

  -- `validate_state_dict`, and the `TransferState(**fields)` that every caller makes of its result.
  unfoldable pub validate_state_dict : Json → Option TransferState
  validate_state_dict (Json.obj fs) = do
    let d = to_dict fs
    version ← read_int (pos 1) (lookup "format_version" d)
    type_text ← read_text (lookup "transfer_type" d)
    source ← read_text (lookup "source" d)
    destination ← read_text (lookup "destination" d)
    type ← read_type type_text
    size ← required_int (lookup "total_size" d)
    total ← natural size
    entries ← as_list (lookup "completed_chunks" d)
    chunks ← read_chunks entries []
    pairs ← as_dict (lookup "chunk_macs" d)
    macs ← read_macs pairs []
    metadata ← as_dict (lookup "metadata" d)
    guard (validate_metadata env metadata)
    number ← read_int (pos 0) (lookup "revision" d)
    revision ← natural number
    guard (no_orphans chunks macs)
    some (record {
      transfer_type = type;
      source = source;
      destination = destination;
      total_size = total;
      format_version = version;
      completed_chunks = chunks;
      chunk_macs = macs;
      metadata = metadata;
      revision = revision;
    })
  validate_state_dict _ = none
