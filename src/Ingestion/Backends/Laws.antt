-- ===== src/Ingestion/Backends/Laws.antt =====
-- What is true of the backends that a rule keeps.
use controller_powered_by_di.Base.{
  ℕ, String, ◌≡◌, ◌≢◌, sym, inl, inr, true, Bool, Option, none, some, List, [], ◌∷◌, map, keep,
  arith, eq_iff, All, Any, here, there, Any-map, any_iff, is_some, Bool-cases,
}
use controller_powered_by_di.Api.{
  BackendRef, ReferenceGrant, ReferenceGrantFrom, Service, GroupVersionKind,
}
use controller_powered_by_di.Helpers.Grants.{
  namespace_deref_or, is_backend_reference_allowed, service_gvk,
}
use controller_powered_by_di.Helpers.Grants.Laws.{Permits, IsFrom, is_reference_allowed_iff}
use controller_powered_by_di.Model
use controller_powered_by_di.Ingestion.Backends.{
  service_exists, backend_to_model_backend, is_usable, model_port, usable_backends, route_gvk,
}

-- Some service has the backend's name and namespace.
abbrev pub HasService : List Service → Model.Backend → Type 0
HasService services b = Any (λ s. (s.name ≡ b.name) × (s.namespace ≡ b.namespace)) services

-- A backend that traffic can be sent to: its service exists, and it has a port.
pub record Resolved (services : List Service) (b : Model.Backend) : Type 0 where
  pub service : HasService services b
  pub port : b.port ≢ none

service_exists_sound :
    (name namespace : String) (services : List Service)
    → service_exists name namespace services ≡ true
    → Any (λ s. (s.name ≡ name) × (s.namespace ≡ namespace)) services
unfolding service_exists
service_exists_sound name namespace services h =
    Any-map (λ s e. ((eq_iff _ _).0 (ground arith), (eq_iff _ _).0 (ground arith)))
      ((any_iff _ services).0 h)

model_port-some : (port : Option ℕ) → is_some port ≡ true → model_port port ≢ none
model_port-some none h = cc
model_port-some (some _) h = λ e. cc

is_usable-Resolved :
    (kind ns : String) (services : List Service) (grants : List ReferenceGrant) (be : BackendRef)
    → is_usable kind ns services grants be ≡ true
    → Resolved services (backend_to_model_backend be ns)
unfolding is_usable backend_to_model_backend
is_usable-Resolved kind ns services grants be h = record {
  service =
      service_exists_sound be.name (namespace_deref_or be.namespace ns) services (ground arith);
  port = model_port-some be.port (ground arith);
}

module _ {ℓ κ} {A : Type ℓ} {B : Type κ} (P : B → Type 0) where
  All-map-keep :
      (t : A → Bool) (f : A → B)
      → ((a : A) → t a ≡ true → P (f a))
      → (xs : List A) → All P (map f (keep t xs))
  All-map-keep t f h [] = tt
  All-map-keep t f h (x ∷ xs) = elim (Bool-cases (t x)) [
    | inl kept ↦ rw kept (h x kept, All-map-keep t f h xs)
    | inr dropped ↦ rw dropped (All-map-keep t f h xs)
  ]

not_permitted :
    (origin name target : String) (from_gvk to_gvk : GroupVersionKind)
    (grants : List ReferenceGrant)
    → All (λ g. All (λ f. f.kind ≢ from_gvk.kind) g.from) grants
    → Any (Permits origin name target from_gvk to_gvk) grants
    → ⊥
not_permitted origin name target from_gvk to_gvk (g ∷ gs) (none_from, _) (here p) =
    no_source g.from none_from p.source
  where
    no_source :
        (sources : List ReferenceGrantFrom)
        → All (λ f. f.kind ≢ from_gvk.kind) sources
        → Any (IsFrom origin from_gvk) sources
        → ⊥
    no_source (f ∷ fs) (other, _) (here s) = other s.kind
    no_source (f ∷ fs) (_, others) (there s) = no_source fs others s
    no_source [] _ s = elim s [ ]
not_permitted origin name target from_gvk to_gvk (g ∷ gs) (_, rest) (there p) =
    not_permitted origin name target from_gvk to_gvk gs rest p
not_permitted origin name target from_gvk to_gvk [] _ p = elim p [ ]

is_usable-home :
    (kind ns : String) (services : List Service) (grants : List ReferenceGrant)
    → All (λ g. All (λ f. f.kind ≢ kind) g.from) grants
    → (be : BackendRef) → is_usable kind ns services grants be ≡ true
    → (backend_to_model_backend be ns).namespace ≡ ns
unfolding is_usable backend_to_model_backend is_backend_reference_allowed
is_usable-home kind ns services grants none_from be h =
    let allowed =
      (is_reference_allowed_iff ns be.name be.namespace (route_gvk kind) service_gvk grants).0
        (ground arith) in
    elim allowed [
      | inl e ↦ sym e
      | inr granted ↦ elim (not_permitted _ _ _ _ _ grants none_from granted) [ ]
    ]

module _ (kind ns : String) (services : List Service) (grants : List ReferenceGrant) where
  -- Every backend of a rule, of any kind of route, has a service and a port.
  pub usable_backends-Resolved :
      (refs : List BackendRef)
      → All (Resolved services) (usable_backends kind ns services grants refs)
  unfolding usable_backends
  usable_backends-Resolved refs =
      All-map-keep (Resolved services) (is_usable kind ns services grants)
        (λ be. backend_to_model_backend be ns) (is_usable-Resolved kind ns services grants) refs

  -- Where no grant is from routes of the kind, every backend is in the route's namespace.
  pub usable_backends-home :
      All (λ g. All (λ f. f.kind ≢ kind) g.from) grants
      → (refs : List BackendRef)
      → All (λ b. b.namespace ≡ ns) (usable_backends kind ns services grants refs)
  unfolding usable_backends
  usable_backends-home none_from refs =
      All-map-keep (λ b. b.namespace ≡ ns) (is_usable kind ns services grants)
        (λ be. backend_to_model_backend be ns) (is_usable-home kind ns services grants none_from)
        refs
