-- ===== src/Json.antt =====
-- The values that `json.loads` returns, and the reads that the program makes of them.
use mega_basterd_cli.Prelude.{
  ℕ, String, Bool, Option, none, some, List, [], ◌∷◌, ◌≡◌, refl, ap, str_eq, if◌then◌else◌,
}

-- `negsuc n` is -(n + 1).
pub data ℤ : Type 0 where
  pos : ℕ → ℤ
  negsuc : ℕ → ℤ

-- A float is kept as its literal: the program only rejects it where it wants an `int`.
mutual
  pub data Json : Type 0 where
    null : Json
    bool : Bool → Json
    int : ℤ → Json
    float : String → Json
    str : String → Json
    arr : Elements → Json
    obj : Fields → Json

  pub data Elements : Type 0 where
    nil : Elements
    cons : Json → Elements → Elements

  pub data Fields : Type 0 where
    end : Fields
    field : String → Json → Fields → Fields

-- A `dict`: its entries in order.
abbrev pub Dict : Type 0
Dict = List (String × Json)

abbrev pub to_list : Elements → List Json
to_list nil = []
to_list (cons j js) = j ∷ to_list js

abbrev pub of_list : List Json → Elements
of_list [] = nil
of_list (j ∷ js) = cons j (of_list js)

abbrev pub to_dict : Fields → Dict
to_dict end = []
to_dict (field k v fs) = (k, v) ∷ to_dict fs

abbrev pub of_dict : Dict → Fields
of_dict [] = end
of_dict ((k, v) ∷ d) = field k v (of_dict d)

pub to_list-of_list : (js : List Json) → to_list (of_list js) ≡ js
to_list-of_list [] = refl
to_list-of_list (j ∷ js) = ap (λ (l : List Json). j ∷ l) (to_list-of_list js)

pub to_dict-of_dict : (d : Dict) → to_dict (of_dict d) ≡ d
to_dict-of_dict [] = refl
to_dict-of_dict ((k, v) ∷ d) = ap (λ (l : Dict). (k, v) ∷ l) (to_dict-of_dict d)

-- `d.get(key)`; a missing key is `none`, an explicit null is `some null`.
abbrev pub lookup : String → Dict → Option Json
lookup k [] = none
lookup k ((j, v) ∷ d) = if str_eq k j then some v else lookup k d
