-- ===== src/Queue/Codec/Written.antt =====
-- A list of jobs that is written loads as the same list.
use mega_basterd_cli.Prelude.{
  one_of, bind-eq-ok, String, Bool, false, Option, none, some, List, [], ◌∷◌, ◌≡◌, refl, sym, arith,
  ok, bind, All, str_eq,
}
use mathlib.Core.Path.{subst}
use mega_basterd_cli.Json.{of_dict, to_dict-of_dict, Json, Dict}
use mega_basterd_cli.Queue.Model.{QueueItem}
use mega_basterd_cli.Queue.Platform.{Formats}
use mega_basterd_cli.Queue.Schema.{problem, validate_raw_item, validate_all, check_unique_ids}
use mega_basterd_cli.Queue.Codec.{to_entry, seal, serialize, serialize_all, deserialize_all}
use mega_basterd_cli.Queue.Codec.RoundTrip.{IsStorable, IsBox, IsReadBack, serialize-IsReadBack}

-- No two jobs share an id.
abbrev pub Distinct : List QueueItem → Type 0
Distinct [] = Unit
Distinct (i ∷ is) = All (λ (j : QueueItem). str_eq j.id i.id ≡ false) is × Distinct is

abbrev pub Unseen : List String → List QueueItem → Type 0
Unseen seen [] = Unit
Unseen seen (j ∷ js) = (one_of j.id seen ≡ false) × Unseen seen js

-- Objects that a load accepts and turns into these items, with no migration.
pub record Reads (env : Formats) (seen : List String) (js : List Json) (items : List QueueItem)
    : Type 0 where
  pub entries : List Dict
  pub validated : validate_all env js ≡ ok entries
  pub unique : check_unique_ids seen entries ≡ none
  pub restored : deserialize_all env entries ≡ some (items, false)

obj-valid :
    (env : Formats) (d : Dict)
    → problem env d ≡ none
    → validate_raw_item env (Json.obj (of_dict d)) ≡ ok d
unfolding validate_raw_item
obj-valid env d h = ground (arith, to_dict-of_dict d)

module _ (env : Formats) (seen : List String) (i : QueueItem) (d : Dict) where
  Reads-cons :
      (is : List QueueItem) (rest js : List Json)
      → one_of i.id seen ≡ false
      → IsReadBack env i d
      → Reads env (i.id ∷ seen) rest is
      → js ≡ Json.obj (of_dict d) ∷ rest
      → Reads env seen js (i ∷ is)
  unfolding validate_all check_unique_ids deserialize_all
  Reads-cons is rest js u back r eq = record {
    entries = d ∷ r.entries;
    validated = rw (eq, obj-valid env d back.checked, r.validated);
    unique = rw (back.same_id, u, r.unique);
    restored = rw (back.restored, r.restored);
  }

module _ (env : Formats) (box : IsBox env) (b : Bool) where
  Unseen-more :
      (k : String) (seen : List String) (is : List QueueItem)
      → Unseen seen is
      → All (λ (j : QueueItem). str_eq j.id k ≡ false) is
      → Unseen (k ∷ seen) is
  Unseen-more k seen [] u d = tt
  Unseen-more k seen (i ∷ is) u d = (rw d.0 u.0, Unseen-more k seen is u.1 d.1)

  serialize_inv :
      (i : QueueItem) (d : Dict)
      → serialize env b i ≡ ok d
      → (sealed : Option String) × (seal env b i ≡ ok sealed) × (d ≡ to_entry i sealed)
  unfolding serialize
  serialize_inv i d h = ground arith

  pub serialize_all-Reads :
      (seen : List String) (is : List QueueItem) (js : List Json)
      → Unseen seen is
      → Distinct is
      → All (IsStorable env) is
      → serialize_all env b is ≡ ok js
      → Reads env seen js is
  unfolding serialize_all
  serialize_all-Reads seen [] js u d st h = record {
    entries = [];
    validated = unfold validate_all in cc;
    unique = unfold check_unique_ids in refl;
    restored = unfold deserialize_all in refl;
  }
  serialize_all-Reads seen (i ∷ is) js u d st h =
      let (e, ser, more) =
        bind-eq-ok (serialize env b i)
          (λ d. bind (serialize_all env b is) λ js. ok (Json.obj (of_dict d) ∷ js)) h in
      let (rest, sers, eq) =
        bind-eq-ok (serialize_all env b is) (λ js. ok (Json.obj (of_dict e) ∷ js)) more in
      let (sealed, se, ee) = serialize_inv i e ser in
      let back : IsReadBack env i e =
        subst (IsReadBack env i) (sym ee) (serialize-IsReadBack env box b i sealed st.0 se) in
      let r =
        serialize_all-Reads (i.id ∷ seen) is rest (Unseen-more i.id seen is u.1 d.0) d.1 st.1
          sers in
      Reads-cons env seen i e is rest js u.0 back r (cc)
