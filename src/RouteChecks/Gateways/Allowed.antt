-- ===== src/RouteChecks/Gateways/Allowed.antt =====
-- pkg/gateway_api/routechecker/gateway_checkers.go, `CheckGatewayAllowedForNamespace`.
pub mod Laws
use controller_powered_by_di.Base.{
  ◌<>◌, String, Bool, true, false, ◌&&◌, not, ◌⊎◌, inl, inr, Option, none, some, List, [], ◌∷◌,
  ◌==◌, ◌>>=◌, if◌then◌else◌, contains, nil_or, is_nil, num_eq,
}
use controller_powered_by_di.Api.{
  ParentReference, RouteParentStatus, Gateway, Listener, AllowedRoutes, RouteNamespaces,
  FromNamespaces, LabelSelector,
}
use controller_powered_by_di.Model.Hosts.{compute_hosts}
use controller_powered_by_di.RouteChecks.Status.{Input, Lookup, set_parent_condition}
use controller_powered_by_di.RouteChecks.Gateways.{rejected}

-- What the check returns, a Boolean or an error, with the status it leaves.
pub data Answer : Type 0 where
  answered : Bool → List RouteParentStatus → Answer
  errored : String → List RouteParentStatus → Answer

-- What the listener states on namespaces.
abbrev pub stated : Listener → Option RouteNamespaces
stated l = l.allowed_routes >>= λ a. a.namespaces

-- The client's list of the namespaces for a selector is a parameter: an error, or their names.
module _ (list_namespaces : Option LabelSelector → String ⊎ List String) (input : Input)
    (ref : ParentReference) where
  -- The listener is not passed over for its section, its port or its hostname.
  unfoldable pub is_eligible : Listener → Bool
  unfolding compute_hosts
  is_eligible l =
      nil_or (λ name. l.name == name) ref.section_name
      && (nil_or (λ port. num_eq l.port port) ref.port
          && nil_or (λ h. not (is_nil (compute_hosts input.hostnames (some h)))) l.hostname)

  abbrev refuse : String → List RouteParentStatus → Option Answer
  refuse restrictions parents = some (
      answered false (
        set_parent_condition input ref
          (rejected "NotAllowedByListeners" (
            input.gvk.kind
            <> (" is not allowed to attach to this Gateway due to " <> restrictions)))
          parents))

  by_listing : String ⊎ List String → List RouteParentStatus → Option Answer
  by_listing (inl error) parents = some (errored ("unable to list namespaces: " <> error) parents)
  by_listing (inr names) parents =
      if contains names input.namespace
      then some (answered true parents)
      else refuse "namespace selector restrictions" parents

  -- The switch, before the next listener.
  by_from :
      String
      → Option FromNamespaces
      → Option LabelSelector
      → List RouteParentStatus
      → Option Answer
      → Option Answer
  unfolding by_listing
  by_from home none selector parents next = none
  by_from home (some FromNamespaces.all) selector parents next = some (answered true parents)
  by_from home (some FromNamespaces.same) selector parents next =
      if input.namespace == home then some (answered true parents) else next
  by_from home (some FromNamespaces.selector) selector parents next =
      by_listing (list_namespaces selector) parents
  by_from home (some FromNamespaces.none_allowed) selector parents next = next
  by_from home (some (FromNamespaces.other _)) selector parents next = next

  by_stated :
      String
      → Option RouteNamespaces
      → List RouteParentStatus
      → Option Answer
      → Option Answer
      → Option Answer
  unfolding by_from
  by_stated home none parents skip next = skip
  by_stated home (some n) parents skip next = by_from home n.from n.selector parents next

  -- With the flag for a restriction that was seen.
  allowed_loop : String → List Listener → Bool → List RouteParentStatus → Option Answer
  unfolding is_eligible by_stated
  allowed_loop home [] restricted parents =
      if restricted then refuse "namespace restrictions" parents else some (answered false parents)
  allowed_loop home (l ∷ listeners) restricted parents =
      let skip = allowed_loop home listeners restricted parents in
      let next = allowed_loop home listeners true parents in
      if is_eligible l then by_stated home (stated l) parents skip next else skip

  allowed_check : Lookup Gateway → List RouteParentStatus → Option Answer
  unfolding allowed_loop
  allowed_check (Lookup.failed message) parents = some (
      answered false
        (set_parent_condition input ref (rejected ("Invalid" <> input.gvk.kind) message) parents))
  allowed_check Lookup.nil parents = none
  allowed_check (Lookup.found gw) parents = allowed_loop gw.namespace gw.listeners false parents

  unfoldable pub check_gateway_allowed_for_namespace : List RouteParentStatus → Option Answer
  unfolding allowed_check
  check_gateway_allowed_for_namespace parents = allowed_check (input.get_gateway ref) parents
