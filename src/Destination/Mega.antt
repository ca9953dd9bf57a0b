-- ===== src/Destination/Mega.antt =====
-- The destinations that `check_destination` of src/megabasterd_cli/proxy/connect_proxy.py allows.
use mathlib.Core.Path.{subst}
use mega_basterd_cli.Prelude.{
  ℕ, String, Bool, true, false, ◌&&◌, none, List, [], ◌∷◌, ◌++◌, ◌≡◌, refl, ap, sym, arith, ◌⊎◌,
  inl, inr, ◌==◌, codes, Bool-cases, map,
}
use mega_basterd_cli.Destination.{
  check_destination, same_text, mega_nz, mega_co_nz, is_mega, behind_dot, is_subdomain,
  is_allowed_host, lower,
}

-- MEGA's two domains in any case.
abbrev pub IsMega : List ℕ → Type 0
IsMega s = (map lower s ≡ mega_nz) ⊎ (map lower s ≡ mega_co_nz)

-- One of them, or a name, a dot and one of them.
pub data IsMegaHost : List ℕ → Type 0 where
  domain : {s : List ℕ} → IsMega s → IsMegaHost s
  subdomain : (c : ℕ) (name s : List ℕ) → IsMega s → IsMegaHost (c ∷ name ++ b'.' ∷ s)

abbrev pub IsMegaPort : ℕ → Bool → Type 0
IsMegaPort port is_connect = (port ≡ 443) ⊎ ((port ≡ 80) × (is_connect ≡ false))

same_text→≡ : (s t : List ℕ) → same_text s t ≡ true → map lower s ≡ t
same_text→≡ [] [] h = refl
same_text→≡ [] (b ∷ t) h = ground arith
same_text→≡ (a ∷ s) [] h = ground arith
same_text→≡ (a ∷ s) (b ∷ t) h = ground (arith, same_text→≡ s t)

is_mega-IsMega : (s : List ℕ) → is_mega s ≡ true → IsMega s
is_mega-IsMega s h = ground (arith, same_text→≡ s mega_nz, same_text→≡ s mega_co_nz)

behind_dot-split :
    (s : List ℕ)
    → behind_dot s ≡ true
    → (name : List ℕ) × (rest : List ℕ) × (s ≡ name ++ b'.' ∷ rest) × IsMega rest
unfolding behind_dot
behind_dot-split [] h = ground arith
behind_dot-split (c ∷ s) h = elim (Bool-cases (c == b'.' && is_mega s)) [
  | inl e ↦ ([], s, ground arith, is_mega-IsMega s (ground (arith, e)))
  | inr e ↦
      let r = behind_dot-split s (ground (arith, h, e)) in
      (c ∷ r.0, r.1, ap (λ (l : List ℕ). c ∷ l) r.2, r.3)
]

is_allowed_host-IsMegaHost : (s : List ℕ) → is_allowed_host s ≡ true → IsMegaHost s
is_allowed_host-IsMegaHost s h = elim (Bool-cases (is_mega s)) [
  | inl e ↦ domain (is_mega-IsMega s e)
  | inr e ↦ below s (ground (arith, h, e))
]
  where
    below : (s : List ℕ) → is_subdomain s ≡ true → IsMegaHost s
    below [] h = ground arith
    below (c ∷ s) h =
        let r = behind_dot-split s h in
        subst (λ (l : List ℕ). IsMegaHost (c ∷ l)) (sym r.2) (subdomain c r.0 r.1 r.3)

-- A destination that is allowed is one of MEGA's two domains or below one of them, in any case, on
-- port 443, or on port 80 for a plain request, unless any port is allowed.
pub check_destination-IsMegaHost :
    (host : String) (port : ℕ) (is_connect allow_any_port : Bool)
    → check_destination host port is_connect allow_any_port ≡ none
    → IsMegaHost (codes host) × ((allow_any_port ≡ true) ⊎ IsMegaPort port is_connect)
unfolding check_destination
check_destination-IsMegaHost host port is_connect allow_any_port h =
    (is_allowed_host-IsMegaHost (codes host) (ground (arith, h)), ground (arith, h))
