-- ===== src/RouteChecks/Gateways/Allowed/Laws.antt =====
-- What each answer of the check of the namespace says.
use controller_powered_by_di.Base.{
  String, Bool, true, false, ◌≡◌, ◌⊎◌, inl, inr, refl, Option, none, some, List, [], ◌∷◌, ◌==◌, Any,
  All, here, there, contains, eq_iff, Bool-cases, Option-cases,
}
use controller_powered_by_di.Api.{
  ParentReference, RouteParentStatus, Gateway, Listener, RouteNamespaces, FromNamespaces,
  LabelSelector,
}
use controller_powered_by_di.RouteChecks.Status.{Input, Lookup}
use controller_powered_by_di.RouteChecks.Verdict.{Flagged, set-Flagged}
use controller_powered_by_di.RouteChecks.Gateways.Allowed.{
  Answer, answered, errored, stated, is_eligible, by_listing, by_from, by_stated, allowed_loop,
  allowed_check, check_gateway_allowed_for_namespace,
}

module _ (list_namespaces : Option LabelSelector → String ⊎ List String) (input : Input)
    (ref : ParentReference) (home : String) where
  -- The namespaces that are stated admit the route's.
  abbrev pub FromAdmits : Option FromNamespaces → Option LabelSelector → Type 0
  FromAdmits (some FromNamespaces.all) selector = Unit
  FromAdmits (some FromNamespaces.same) selector = input.namespace ≡ home
  FromAdmits (some FromNamespaces.selector) selector =
      (names : List String) × (list_namespaces selector ≡ inr names)
      × (contains names input.namespace ≡ true)
  FromAdmits _ selector = ⊥

  -- An eligible listener that states namespaces, with the property.
  abbrev pub States : (RouteNamespaces → Type 0) → Listener → Type 0
  States P l =
      (is_eligible list_namespaces input ref l ≡ true)
      × ((n : RouteNamespaces) × (stated l ≡ some n) × P n)

  -- A listener that is passed over, or that states no namespaces.
  abbrev pub IsSilent : Listener → Type 0
  IsSilent l = is_eligible list_namespaces input ref l ≡ true → stated l ≡ none

  -- An answer of the loop, with the flag for a restriction that was seen.
  abbrev pub Explains : Bool → List Listener → List RouteParentStatus → Option Answer → Type 0
  Explains seen listeners parents none = Any (States (λ n. n.from ≡ none)) listeners
  Explains seen listeners parents (some (errored message after)) =
      (after ≡ parents)
      × Any (States (λ n. (e : String) × (list_namespaces n.selector ≡ inl e))) listeners
  Explains seen listeners parents (some (answered true after)) =
      (after ≡ parents) × Any (States (λ n. FromAdmits n.from n.selector)) listeners
  Explains seen listeners parents (some (answered false after)) =
      ((after ≡ parents) × ((seen ≡ false) × All IsSilent listeners)) ⊎ Flagged "Accepted" ref after

  module _ (l : Listener) (ls : List Listener) (parents : List RouteParentStatus) where
    Explains-skip :
        (seen : Bool) (answer : Option Answer)
        → IsSilent l
        → Explains seen ls parents answer
        → Explains seen (l ∷ ls) parents answer
    Explains-skip seen none silent a = there a
    Explains-skip seen (some (errored m after)) silent (e, a) = (e, there a)
    Explains-skip seen (some (answered true after)) silent (e, a) = (e, there a)
    Explains-skip seen (some (answered false after)) silent (inl (e, (s, all))) =
        inl (e, (s, (silent, all)))
    Explains-skip seen (some (answered false after)) silent (inr flagged) = inr flagged

    Explains-next :
        (seen : Bool) (answer : Option Answer)
        → Explains true ls parents answer
        → Explains seen (l ∷ ls) parents answer
    Explains-next seen none a = there a
    Explains-next seen (some (errored m after)) (e, a) = (e, there a)
    Explains-next seen (some (answered true after)) (e, a) = (e, there a)
    Explains-next seen (some (answered false after)) (inl (e, (s, all))) = cc
    Explains-next seen (some (answered false after)) (inr flagged) = inr flagged

    module _ (seen : Bool) (hit : is_eligible list_namespaces input ref l ≡ true)
        (n : RouteNamespaces) (states : stated l ≡ some n) where
      by_listing-Explains :
          n.from ≡ some FromNamespaces.selector
          → (listing : String ⊎ List String) → list_namespaces n.selector ≡ listing
          → Explains seen (l ∷ ls) parents (by_listing list_namespaces input ref listing parents)
      unfolding by_listing
      by_listing-Explains f (inl e) h = (refl, here (hit, (n, states, (e, h))))
      by_listing-Explains f (inr names) h = elim (Bool-cases (contains names input.namespace)) [
        | inl known ↦ rw known (refl, here (hit, (n, states, rw f (names, h, known))))
        | inr unknown ↦ rw unknown (inr (set-Flagged input ref "Accepted" _ parents refl refl))
      ]

      by_from-Explains :
          (from : Option FromNamespaces)
          → n.from ≡ from
          → (next : Option Answer) → Explains true ls parents next
          → Explains seen
              (l ∷ ls)
              parents
              (by_from list_namespaces input ref home from n.selector parents next)
      unfolding by_from
      by_from-Explains none f next a = here (hit, (n, states, f))
      by_from-Explains (some FromNamespaces.all) f next a = (refl, here (hit, (n, states, rw f tt)))
      by_from-Explains (some FromNamespaces.same) f next a =
          elim (Bool-cases (input.namespace == home)) [
            | inl own ↦
                rw own (refl, here (hit, (n, states, rw f ((eq_iff input.namespace home).0 own))))
            | inr other ↦ rw other (Explains-next seen next a)
          ]
      by_from-Explains (some FromNamespaces.selector) f next a =
          by_listing-Explains f (list_namespaces n.selector) refl
      by_from-Explains (some FromNamespaces.none_allowed) f next a = Explains-next seen next a
      by_from-Explains (some (FromNamespaces.other _)) f next a = Explains-next seen next a

  allowed_loop-Explains :
      (listeners : List Listener) (seen : Bool) (parents : List RouteParentStatus)
      → Explains seen listeners parents
          (allowed_loop list_namespaces input ref home listeners seen parents)
  unfolding allowed_loop by_stated
  allowed_loop-Explains [] true parents = inr (set-Flagged input ref "Accepted" _ parents refl refl)
  allowed_loop-Explains [] false parents = inl (refl, (refl, tt))
  allowed_loop-Explains (l ∷ ls) seen parents =
      elim (Bool-cases (is_eligible list_namespaces input ref l)) [
        | inr passed ↦
            rw passed
              (Explains-skip l ls parents seen _ (λ e. cc) (allowed_loop-Explains ls seen parents))
        | inl hit ↦ elim (Option-cases (stated l)) [
          | inl silent ↦
              rw (hit, silent)
                (Explains-skip l ls parents seen _ (λ _. silent)
                  (allowed_loop-Explains ls seen parents))
          | inr (n, states) ↦
              rw (hit, states)
                (by_from-Explains l ls parents seen hit n states n.from refl _
                  (allowed_loop-Explains ls true parents))
        ]
      ]

-- Where the Gateway is found: the check panics only for an eligible listener that states namespaces
-- without a policy; it gives an error only where namespaces cannot be listed for an eligible
-- listener; it passes only where an eligible listener admits the route's namespace; and where it
-- refuses, `Accepted` is false at the parent, or no eligible listener states any namespaces and
-- the status stays as it was. Where it passes or gives an error, the status stays.
pub check_gateway_allowed_for_namespace-Explains :
    (list_namespaces : Option LabelSelector → String ⊎ List String) (input : Input)
    (ref : ParentReference) (gw : Gateway) (parents : List RouteParentStatus)
    → input.get_gateway ref ≡ Lookup.found gw
    → Explains list_namespaces input ref gw.namespace false gw.listeners parents
        (check_gateway_allowed_for_namespace list_namespaces input ref parents)
unfolding check_gateway_allowed_for_namespace allowed_check
check_gateway_allowed_for_namespace-Explains list_namespaces input ref gw parents found =
    rw found
      (allowed_loop-Explains list_namespaces input ref gw.namespace gw.listeners false parents)
