-- ===== src/Model/Hosts/Taken.antt =====
-- Which hostnames of a route a listener takes, apart from how `ComputeHosts` computes them.
use controller_powered_by_di.Base.{
  String, true, false, ◌≡◌, ◌≢◌, ◌↔◌, ◌⊎◌, inl, inr, refl, Option, List, [], ◌∷◌, Any, Any-map,
  here, there, eq_refl, deref_or, contains, Bool-cases,
}
use controller_powered_by_di.Base.Text.{is_empty, is_empty_iff, has_prefix}
use controller_powered_by_di.Model.Hosts.{all_hosts, compute_hosts}
use controller_powered_by_di.Model.Hosts.Matching.{Matches}
use controller_powered_by_di.Model.Hosts.Laws.{
  Shared, from_route, from_listener, compute_hosts_iff, compute_hosts-nil,
}

-- A hostname of a route is taken under a listener's, where "" is a listener with no hostname: that
-- one takes every hostname, another takes those that it equals or that lie under its wildcard, and
-- a listener that is no wildcard also takes a route's wildcard that it lies under.
abbrev TakesHost : String → String → Type 0
TakesHost listener route =
    (listener ≡ "")
    ⊎ Matches listener route
    ⊎ ((has_prefix listener all_hosts ≡ false) × Matches route listener)

-- A route without hostnames is taken under every listener, another by one of its hostnames.
abbrev pub TakesRoute : List String → Option String → Type 0
TakesRoute hostnames listener = (hostnames ≡ []) ⊎ Any (TakesHost (deref_or listener "")) hostnames

TakesHost-Shared :
    (listener route : String) → TakesHost listener route ↔ ((h : String) × Shared listener route h)
TakesHost-Shared listener route = (
  λ takes. elim takes [
    | inl none_set ↦ (route, from_route refl (inl none_set))
    | inr (inl m) ↦ (route, from_route refl (inr m))
    | inr (inr (plain, m)) ↦ elim (Bool-cases (is_empty listener)) [
      | inl empty ↦ (route, from_route refl (inl ((is_empty_iff listener).0 empty)))
      | inr filled ↦
          (listener, from_listener refl (λ e. cc (filled, (is_empty_iff listener).1 e)) plain m)
    ]
  ],
  λ (h, shared). elim shared [
    | from_route _ (inl none_set) ↦ inl none_set
    | from_route _ (inr m) ↦ inr (inl m)
    | from_listener _ _ plain m ↦ inr (inr (plain, m))
  ],
)

filled_iff : (xs : List String) → (xs ≢ []) ↔ ((h : String) × (contains xs h ≡ true))
filled_iff [] = (λ ne. absurd (ne refl), λ (h, e). cc)
filled_iff (x ∷ xs) = (λ _. (x, rw (eq_refl x) refl), λ _ e. cc)

Any-Shared :
    (l : String) (routes : List String)
    → Any (TakesHost l) routes
    → (h : String) × Any (λ r. Shared l r h) routes
Any-Shared l [] a = elim a [ ]
Any-Shared l (r ∷ routes) (here takes) =
    let (h, shared) = (TakesHost-Shared l r).0 takes in (h, here shared)
Any-Shared l (r ∷ routes) (there a) = let (h, shared) = Any-Shared l routes a in (h, there shared)

-- `ComputeHosts` returns something exactly where the route is taken.
pub compute_hosts-TakesRoute :
    (hostnames : List String) (listener : Option String)
    → (compute_hosts hostnames listener ≢ []) ↔ TakesRoute hostnames listener
compute_hosts-TakesRoute [] listener = (λ _. inl refl, λ _ e. cc (compute_hosts-nil listener, e))
compute_hosts-TakesRoute (r ∷ routes) listener =
    let l : String = deref_or listener "" in
    let (given, found) = filled_iff (compute_hosts (r ∷ routes) listener) in
    (
      λ ne.
          let (h, e) = given ne in
          inr (
            Any-map (λ r shared. (TakesHost-Shared l r).1 (h, shared))
              ((compute_hosts_iff r routes listener h).0.0 e)),
      λ takes. elim takes [
        | inl nil ↦ λ _. cc
        | inr one ↦
            let (h, shared) = Any-Shared l (r ∷ routes) one in
            found (h, (compute_hosts_iff r routes listener h).0.1 shared)
      ],
    )
