-- ===== src/RouteChecks/Gateways/Kinds.antt =====
-- When the check of a route's kind against a Gateway passes.
use controller_powered_by_di.Base.{
  true, ◌≡◌, ◌≢◌, ◌↔◌, ◌⊎◌, inl, inr, refl, Option, none, some, List, [], ◌∷◌, All, Any, Any-map,
  any_iff, arith, eq_iff, Bool-cases,
}
use controller_powered_by_di.Api.{
  ParentReference, RouteParentStatus, Gateway, Listener, RouteGroupKind, AllowedRoutes,
}
use controller_powered_by_di.RouteChecks.Status.{Input, Lookup}
use controller_powered_by_di.RouteChecks.Verdict.{Verdict, Verdict-map, pass-Verdict, fail-Verdict}
use controller_powered_by_di.Helpers.Grants.Laws.{nil_or-named}
use controller_powered_by_di.RouteChecks.Gateways.Laws.{IfFound, Decides}
use controller_powered_by_di.RouteChecks.Gateways.{
  kind_matches, kinds_test, allows_kind, kind_loop, kind_check, check_gateway_route_kind_allowed,
}

-- A kind that the listener lists fits the route's: its group, or none, and its kind.
abbrev pub FitsKind : Input → RouteGroupKind → Type 0
FitsKind input k = ((k.group ≡ none) ⊎ (k.group ≡ some input.gvk.group)) × (k.kind ≡ input.gvk.kind)

abbrev pub FitsKinds : Input → Option (List RouteGroupKind) → Type 0
FitsKinds input none = Unit
FitsKinds input (some []) = Unit
FitsKinds input (some (k ∷ kinds)) = Any (FitsKind input) (k ∷ kinds)

-- The listener lists no kinds, or one that fits.
abbrev pub AllowsKind : Input → Option AllowedRoutes → Type 0
AllowsKind input none = Unit
AllowsKind input (some allowed) = FitsKinds input allowed.kinds

module _ (input : Input) (ref : ParentReference) where
  kind_matches_iff : (k : RouteGroupKind) → (kind_matches input ref k ≡ true) ↔ FitsKind input k
  kind_matches_iff k = (
    λ e. ((nil_or-named input.gvk.group k.group).0 (ground arith), (eq_iff _ _).0 (ground arith)),
    λ (g, h). rw ((nil_or-named input.gvk.group k.group).1 g) ((eq_iff _ _).1 h),
  )

  kinds_test_iff :
      (kinds : Option (List RouteGroupKind))
      → (kinds_test input ref kinds ≡ true) ↔ FitsKinds input kinds
  kinds_test_iff none = (λ _. tt, λ _. refl)
  kinds_test_iff (some []) = (λ _. tt, λ _. refl)
  kinds_test_iff (some (k ∷ ks)) = (
    λ e. Any-map (λ k. (kind_matches_iff k).0) ((any_iff (kind_matches input ref) (k ∷ ks)).0 e),
    λ a. (any_iff (kind_matches input ref) (k ∷ ks)).1 (Any-map (λ k. (kind_matches_iff k).1) a),
  )

  allows_kind_iff :
      (a : Option AllowedRoutes) → (allows_kind input ref a ≡ true) ↔ AllowsKind input a
  allows_kind_iff none = (λ _. tt, λ _. refl)
  allows_kind_iff (some a) = kinds_test_iff a.kinds

  kind_loop-Verdict :
      (listeners : List Listener) (parents : List RouteParentStatus)
      → Verdict
          (All (λ l. AllowsKind input l.allowed_routes) listeners)
          "Accepted"
          ref
          parents
          (kind_loop input ref listeners parents)
  unfolding kind_loop
  kind_loop-Verdict [] parents = pass-Verdict Unit "Accepted" input ref parents tt
  kind_loop-Verdict (l ∷ ls) parents = elim (Bool-cases (allows_kind input ref l.allowed_routes)) [
    | inl allowed ↦ rw allowed (
        Verdict-map (λ all. ((allows_kind_iff l.allowed_routes).0 allowed, all), λ both. both.1)
          (kind_loop-Verdict ls parents))
    | inr refused ↦ rw refused (
        fail-Verdict _ "Accepted" input ref parents _ refl refl
          (λ all. cc (refused, (allows_kind_iff l.allowed_routes).1 all.0)))
  ]

  kind_check-Decides :
      (gw : Lookup Gateway) (parents : List RouteParentStatus)
      → gw ≢ Lookup.nil
      → Decides
          (IfFound (λ gw. All (λ l. AllowsKind input l.allowed_routes) gw.listeners) gw)
          ref
          parents
          (kind_check input ref gw parents)
  unfolding kind_check
  kind_check-Decides (Lookup.failed m) parents h =
      (_, refl, fail-Verdict ⊥ "Accepted" input ref parents _ refl refl (λ p. p))
  kind_check-Decides Lookup.nil parents h = elim (h refl) [ ]
  kind_check-Decides (Lookup.found gw) parents h = (_, refl, kind_loop-Verdict gw.listeners parents)

  -- Where the Gateway can be looked up without a nil pointer, the check of the route's kind returns, and
  -- passes exactly where the Gateway was read and every one of its listeners lists no kinds or
  -- one that fits the route's: listeners that the reference does not name count as well.
  -- Otherwise `Accepted` is false at the parent. The route's status at other parents stays.
  pub check_gateway_route_kind_allowed-Decides :
      (parents : List RouteParentStatus)
      → input.get_gateway ref ≢ Lookup.nil
      → Decides
          (IfFound
            (λ gw. All (λ l. AllowsKind input l.allowed_routes) gw.listeners)
            (input.get_gateway ref))
          ref
          parents
          (check_gateway_route_kind_allowed input ref parents)
  unfolding check_gateway_route_kind_allowed
  check_gateway_route_kind_allowed-Decides parents h =
      kind_check-Decides (input.get_gateway ref) parents h
