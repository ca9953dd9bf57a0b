-- ===== src/Queue/Codec/Entry.antt =====
-- The object that `_serialize` builds: its known fields, whatever the unknown ones are.
use mega_basterd_cli.Prelude.{
  String, false, Option, none, some, List, [], ◌∷◌, ◌++◌, ◌≡◌, refl, sym, ◌∙◌, inl, inr, arith,
  keep_if, str_eq, one_of, eq_iff, Bool-cases,
}
use mathlib.Core.Bool.{false≢true}
use mathlib.Core.List.{append_assoc, append-nil}
use mega_basterd_cli.Json.{Json, Dict, lookup}
use mega_basterd_cli.Queue.Model.{QueueItem}
use mega_basterd_cli.Queue.Codec.{
  known_fields, stored_fields, is_extra, set_default, merge_extra, known_part, to_entry,
}

lookup-append :
    (k : String) (d e : Dict)
    → lookup k (d ++ e) ≡ elim (lookup k d) [ none ↦ lookup k e | some v ↦ some v ]
lookup-append k [] e = refl
lookup-append k ((j, v) ∷ d) e = ground (arith, lookup-append k d e)

-- The unknown fields of an entry: none has a known name, and no name stands twice.
abbrev pub IsExtra : Dict → Type 0
IsExtra [] = Unit
IsExtra ((k, v) ∷ d) = (one_of k known_fields ≡ false) × (lookup k d ≡ none) × IsExtra d

-- A field that `d` lacks is appended, so names that `d` and one another lack are all appended.
abbrev pub Fresh : Dict → Dict → Type 0
Fresh d [] = Unit
Fresh d ((k, v) ∷ ex) = (lookup k d ≡ none) × Fresh d ex

Fresh-snoc :
    (d : Dict) (k : String) (v : Json) (ex : Dict)
    → Fresh d ex
    → lookup k ex ≡ none
    → Fresh (d ++ (k, v) ∷ []) ex
Fresh-snoc d k v [] f h = tt
Fresh-snoc d k v ((j, w) ∷ ex) f h = (
  ground (arith, lookup-append j d ((k, v) ∷ []), eq_iff j k, eq_iff k j),
  Fresh-snoc d k v ex f.1 (ground arith),
)

merge_extra-append : (d ex : Dict) → Fresh d ex → IsExtra ex → merge_extra d ex ≡ d ++ ex
unfolding merge_extra set_default
merge_extra-append d [] f x = sym (append-nil d)
merge_extra-append d ((k, v) ∷ ex) f x =
    rw (f.0, set_default)
      (merge_extra-append (d ++ (k, v) ∷ []) ex (Fresh-snoc d k v ex f.1 x.1) x.2
        ∙ append_assoc d ((k, v) ∷ []) ex)

abbrev names : Dict → List String
names [] = []
names ((k, v) ∷ d) = k ∷ names d

lookup-names : (k : String) (d : Dict) → one_of k (names d) ≡ false → lookup k d ≡ none
lookup-names k [] h = refl
lookup-names k ((j, v) ∷ d) h = elim (Bool-cases (str_eq k j)) [
  | inl e ↦ absurd (false≢true (sym h ∙ rw e refl))
  | inr e ↦ rw e (lookup-names k d (rw e at h))
]

one_of-tail : (k j : String) (l : List String) → one_of k (j ∷ l) ≡ false → one_of k l ≡ false
one_of-tail k j l h = elim (Bool-cases (str_eq k j)) [
  | inl e ↦ absurd (false≢true (sym h ∙ rw e refl))
  | inr e ↦ rw e at h
]

known-lookup :
    (k : String) (item : QueueItem) (sealed : Option String)
    → one_of k known_fields ≡ false
    → lookup k (known_part item sealed) ≡ none
known-lookup k item sealed h =
    lookup-names k (known_part item sealed) (one_of-tail k "password" stored_fields h)

known-Fresh :
    (item : QueueItem) (sealed : Option String) (ex : Dict)
    → IsExtra ex
    → Fresh (known_part item sealed) ex
known-Fresh item sealed [] x = tt
known-Fresh item sealed ((k, v) ∷ ex) x =
    (known-lookup k item sealed x.0, known-Fresh item sealed ex x.2)

pub to_entry-append :
    (item : QueueItem) (sealed : Option String)
    → IsExtra item.extra
    → to_entry item sealed ≡ known_part item sealed ++ item.extra
unfolding to_entry
to_entry-append item sealed x =
    merge_extra-append (known_part item sealed) item.extra (known-Fresh item sealed item.extra x) x

-- A plain password is no unknown field.
pub extra-password : (ex : Dict) → IsExtra ex → lookup "password" ex ≡ none
extra-password [] x = refl
extra-password ((k, v) ∷ ex) x = ground (arith, extra-password ex x.2, eq_iff "password" k)

pub extra-keep_if : (ex : Dict) → IsExtra ex → keep_if is_extra ex ≡ ex
extra-keep_if [] x = refl
extra-keep_if ((k, v) ∷ ex) x = ground (arith, extra-keep_if ex x.2)
