-- ===== src/Listeners/Attach/Laws.antt =====
-- Which routes may attach to a listener.
use controller_powered_by_di.Base.{
  String, Bool, is_some, ap, some_inj, true, false, ◌≡◌, ◌⊎◌, inl, inr, ◌↔◌, refl, sym, ◌∙◌, Option,
  none, some, List, ◌==◌, ◌&&◌, Option-cases, eq_iff, any_iff, Any, Any-map, arith, if◌then◌else◌,
}
use controller_powered_by_di.Api.{
  Listener, RouteNamespaces, AllowedRoutes, RouteGroupKind, LabelSelector,
}
use controller_powered_by_di.Helpers.Kinds.{gateway_group_name}
use controller_powered_by_di.Helpers.Namespaces.{Labels, NamespaceLabelIndex}
use controller_powered_by_di.Helpers.Namespaces.Laws.{
  Admits, policy_of, is_listener_namespace_allowed_iff,
}
use controller_powered_by_di.Listeners.Attach.{
  RouteType, http_route, tls_route, tcp_route, udp_route, other_route, get_gateway_kind_for_object,
  is_any_named, is_kind_allowed, kinds_allow, passes_kinds, listener_is_allowed,
}

-- The kind by which a listener can name a route of a type.
abbrev pub own_kind : RouteType → Option String
own_kind http_route = some "HTTPRoute"
own_kind tls_route = some "TLSRoute"
own_kind tcp_route = some "TCPRoute"
own_kind udp_route = some "UDPRoute"
own_kind other_route = none

-- An entry without a group, or that names the kind of the route.
abbrev pub Welcomes : RouteType → RouteGroupKind → Type 0
Welcomes route k =
    (k.group ≡ none) ⊎ ((k.group ≡ some gateway_group_name) × (own_kind route ≡ some k.kind))

abbrev pub WelcomesAny : RouteType → Option (List RouteGroupKind) → Type 0
WelcomesAny route none = Unit
WelcomesAny route (some kinds) = Any (Welcomes route) kinds

-- A listener that states no namespaces takes every kind.
abbrev pub TakesStated : RouteType → Option RouteNamespaces → Option (List RouteGroupKind) → Type 0
TakesStated route none kinds = Unit
TakesStated route (some _) kinds = WelcomesAny route kinds

abbrev pub TakesKind : RouteType → Option AllowedRoutes → Type 0
TakesKind route none = Unit
TakesKind route (some a) = TakesStated route a.namespaces a.kinds

-- The test of the route's own kind.
abbrev own_test : Option String → RouteGroupKind → Bool
own_test none k = false
own_test (some name) k = k.kind == name

is_any_named-own :
    (route : RouteType) (k : RouteGroupKind) (g : String)
    → k.group ≡ some g
    → is_any_named k (get_gateway_kind_for_object route)
      ≡ (g == gateway_group_name) && own_test (own_kind route) k
unfolding get_gateway_kind_for_object
is_any_named-own http_route k g e = rw e (ground arith)
is_any_named-own tls_route k g e = rw e (ground arith)
is_any_named-own tcp_route k g e = rw e (ground arith)
is_any_named-own udp_route k g e = rw e (ground arith)
is_any_named-own other_route k g e = rw e (ground arith)

own_test_iff : (o : Option String) (k : RouteGroupKind) → (own_test o k ≡ true) ↔ (o ≡ some k.kind)
own_test_iff none k = (λ h. cc, λ h. cc)
own_test_iff (some name) k =
    (λ h. ap some (sym ((eq_iff k.kind name).0 h)), λ e. (eq_iff k.kind name).1 (sym (some_inj e)))

own_test-Welcomes :
    (route : RouteType) (k : RouteGroupKind) (g : String)
    → k.group ≡ some g
    → ((g == gateway_group_name) && own_test (own_kind route) k ≡ true) ↔ Welcomes route k
own_test-Welcomes route k g e =
    let own = own_test_iff (own_kind route) k in
    (
      λ h. inr (e ∙ ap some ((eq_iff g gateway_group_name).0 (ground arith)), own.0 (ground arith)),
      λ w. elim w [
        | inl n ↦ cc
        | inr (same, named) ↦
            rw ((eq_iff g gateway_group_name).1 (some_inj (sym e ∙ same))) (own.1 named)
      ],
    )

is_any_named_iff :
    (route : RouteType) (k : RouteGroupKind)
    → (is_any_named k (get_gateway_kind_for_object route) ≡ true) ↔ Welcomes route k
is_any_named_iff route k = elim (Option-cases k.group) [
  | inl e ↦ (λ h. inl e, λ h. rw e refl)
  | inr (g, e) ↦
      let same = is_any_named-own route k g e in
      let fits = own_test-Welcomes route k g e in (λ h. fits.0 (sym same ∙ h), λ w. same ∙ fits.1 w)
]

kinds_allow_iff :
    (route : RouteType) (kinds : Option (List RouteGroupKind))
    → (kinds_allow kinds (get_gateway_kind_for_object route) ≡ true) ↔ WelcomesAny route kinds
kinds_allow_iff route none = (λ _. tt, λ _. refl)
kinds_allow_iff route (some kinds) =
    let all = any_iff (λ k. is_any_named k (get_gateway_kind_for_object route)) kinds in
    (
      λ h. Any-map (λ k. (is_any_named_iff route k).0) (all.0 h),
      λ a. all.1 (Any-map (λ k. (is_any_named_iff route k).1) a),
    )

passes_stated_iff :
    (route : RouteType) (stated : Option RouteNamespaces) (kinds : Option (List RouteGroupKind))
    → ((if is_some stated then kinds_allow kinds (get_gateway_kind_for_object route) else true)
        ≡ true)
      ↔ TakesStated route stated kinds
passes_stated_iff route none kinds = (λ _. tt, λ _. refl)
passes_stated_iff route (some _) kinds = kinds_allow_iff route kinds

passes_kinds_iff :
    (route : RouteType) (allowed : Option AllowedRoutes)
    → (passes_kinds allowed route ≡ true) ↔ TakesKind route allowed
unfolding is_kind_allowed
passes_kinds_iff route none = (λ _. tt, λ _. refl)
passes_kinds_iff route (some a) = passes_stated_iff route a.namespaces a.kinds

-- A route may attach to a listener exactly where its namespace is admitted and, if the listener
-- states namespaces and kinds, some of the kinds has no group or is the route's own in the group
-- of the Gateway API. A route that is not for HTTP, TLS, TCP or UDP has no kind of its own here.
pub listener_is_allowed_iff :
    (as_selector : Option LabelSelector → Option (Labels → Bool)) (gateway : String)
    (listener : Listener) (route : RouteType) (ns : String) (index : NamespaceLabelIndex)
    → (listener_is_allowed as_selector gateway listener route ns index ≡ true) ↔ (
        TakesKind route listener.allowed_routes
        × Admits as_selector index ns gateway (policy_of listener.allowed_routes))
unfolding listener_is_allowed
listener_is_allowed_iff as_selector gateway listener route ns index =
    let kinds = passes_kinds_iff route listener.allowed_routes in
    let names = is_listener_namespace_allowed_iff as_selector listener ns gateway index in
    (λ h. (kinds.0 (ground arith), names.0 (ground arith)), λ (t, a). rw (kinds.1 t) (names.1 a))
