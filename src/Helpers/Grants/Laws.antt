-- ===== src/Helpers/Grants/Laws.antt =====
-- When a reference is allowed, as a relation.
use controller_powered_by_di.Base.{
  String, ◌≡◌, ◌↔◌, ◌⊎◌, inl, inr, refl, true, Bool, ◌&&◌, Option, none, some, List, [], ◌∷◌, arith,
  eq_iff, Bool-cases, Any, here, there, Any-map, any_iff, any, ◌==◌, nil_or,
}
use controller_powered_by_di.Api.{
  GroupVersionKind, ReferenceGrantFrom, ReferenceGrantTo, ReferenceGrant,
}
use controller_powered_by_di.Helpers.Grants.{
  namespace_deref_or, from_matches, to_matches, is_reference_allowed,
}

-- A source of a grant: objects of the referring kind in the referring namespace.
pub record IsFrom (origin : String) (gvk : GroupVersionKind) (from : ReferenceGrantFrom)
    : Type 0 where
  pub group : from.group ≡ gvk.group
  pub kind : from.kind ≡ gvk.kind
  pub namespace : from.namespace ≡ origin

-- A target of a grant: the object referred to, or all objects of its kind.
pub record IsTo (name : String) (gvk : GroupVersionKind) (to : ReferenceGrantTo) : Type 0 where
  pub group : to.group ≡ gvk.group
  pub kind : to.kind ≡ gvk.kind
  pub named : (to.name ≡ none) ⊎ (to.name ≡ some name)

pub record Permits (origin name target : String) (from_gvk to_gvk : GroupVersionKind)
    (g : ReferenceGrant) : Type 0 where
  pub namespace : g.namespace ≡ target
  pub source : Any (IsFrom origin from_gvk) g.from
  pub destination : Any (IsTo name to_gvk) g.to

from_matches_iff :
    (origin : String) (gvk : GroupVersionKind) (from : ReferenceGrantFrom)
    → (from_matches origin gvk from ≡ true) ↔ IsFrom origin gvk from
unfolding from_matches
from_matches_iff origin gvk from =
    ground
      (arith, eq_iff from.group gvk.group, eq_iff from.kind gvk.kind, eq_iff from.namespace origin)

pub nil_or-named :
    (name : String) (o : Option String)
    → (nil_or (λ n. n == name) o ≡ true) ↔ ((o ≡ none) ⊎ (o ≡ some name))
nil_or-named name none = (λ _. inl refl, λ _. refl)
nil_or-named name (some n) = ground (arith, eq_iff n name)

to_matches_iff :
    (name : String) (gvk : GroupVersionKind) (to : ReferenceGrantTo)
    → (to_matches name gvk to ≡ true) ↔ IsTo name gvk to
unfolding to_matches
to_matches_iff name gvk to = (
  λ h. record {
    group = (eq_iff _ _).0 (ground arith);
    kind = (eq_iff _ _).0 (ground arith);
    named = (nil_or-named name to.name).0 (ground arith);
  },
  λ t. rw ((eq_iff _ _).1 t.group, (eq_iff _ _).1 t.kind) ((nil_or-named name to.name).1 t.named),
)

module _ (origin name target : String) (from_gvk to_gvk : GroupVersionKind) where
  -- The test of one source, with the loop over the targets inside it.
  abbrev source_test : List ReferenceGrantTo → ReferenceGrantFrom → Bool
  source_test targets from =
      from_matches origin from_gvk from && any (to_matches name to_gvk) targets

  sources_iff :
      (targets : List ReferenceGrantTo) (sources : List ReferenceGrantFrom)
      → (any (source_test targets) sources ≡ true)
        ↔ (Any (IsFrom origin from_gvk) sources × Any (IsTo name to_gvk) targets)
  sources_iff targets sources = (
    λ h. sound sources h,
    λ (s, d). complete sources s (
        (any_iff (to_matches name to_gvk) targets).1
          (Any-map (λ to. (to_matches_iff name to_gvk to).1) d)),
  )
    where
      sound :
          (xs : List ReferenceGrantFrom)
          → any (source_test targets) xs ≡ true
          → Any (IsFrom origin from_gvk) xs × Any (IsTo name to_gvk) targets
      sound [] h = cc
      sound (x ∷ xs) h = elim (Bool-cases (source_test targets x)) [
        | inl hit ↦ (
          here ((from_matches_iff origin from_gvk x).0 (ground arith)),
          Any-map (λ to. (to_matches_iff name to_gvk to).0)
              ((any_iff (to_matches name to_gvk) targets).0 (ground arith)),
        )
        | inr miss ↦ let (s, d) = sound xs (rw miss at h) in (there s, d)
      ]

      complete :
          (xs : List ReferenceGrantFrom)
          → Any (IsFrom origin from_gvk) xs
          → any (to_matches name to_gvk) targets ≡ true
          → any (source_test targets) xs ≡ true
      complete (x ∷ xs) (here s) d = rw ((from_matches_iff origin from_gvk x).1 s, d) refl
      complete (x ∷ xs) (there s) d = ground (arith, complete xs s d)
      complete [] s d = elim s [ ]

  abbrev grant_test : ReferenceGrant → Bool
  grant_test g = g.namespace == target && any (source_test g.to) g.from

  grant_test_iff :
      (g : ReferenceGrant) → (grant_test g ≡ true) ↔ Permits origin name target from_gvk to_gvk g
  grant_test_iff g = (
    λ h.
        let (s, d) = (sources_iff g.to g.from).0 (ground arith) in
        record { namespace = (eq_iff _ _).0 (ground arith); source = s; destination = d },
    λ p. rw ((eq_iff _ _).1 p.namespace) ((sources_iff g.to g.from).1 (p.source, p.destination)),
  )

-- A reference is allowed exactly where it stays in the namespace of the referring object, or where
-- a grant in the namespace referred to names a source and a target that fit. A missing or an
-- empty namespace is the referring object's.
pub is_reference_allowed_iff :
    (origin name : String) (namespace : Option String) (from_gvk to_gvk : GroupVersionKind)
    (grants : List ReferenceGrant)
    → (is_reference_allowed origin name namespace from_gvk to_gvk grants ≡ true) ↔ (
        (origin ≡ namespace_deref_or namespace origin)
        ⊎ Any (Permits origin name (namespace_deref_or namespace origin) from_gvk to_gvk) grants)
unfolding is_reference_allowed
is_reference_allowed_iff origin name namespace from_gvk to_gvk grants =
    let ns : String = namespace_deref_or namespace origin in
    let test = grant_test origin name ns from_gvk to_gvk in
    let fits = grant_test_iff origin name ns from_gvk to_gvk in
    elim (Bool-cases (origin == ns)) [
      | inl same ↦ (λ _. inl ((eq_iff origin ns).0 same), λ _. rw same refl)
      | inr differ ↦ rw differ (
        λ h. inr (Any-map (λ g. (fits g).0) ((any_iff test grants).0 h)),
        λ allowed. elim allowed [
          | inl e ↦ ground (arith, (eq_iff origin ns).1 e)
          | inr granted ↦ (any_iff test grants).1 (Any-map (λ g. (fits g).1) granted)
        ],
      )
    ]
