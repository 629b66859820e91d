-- ===== src/RouteChecks/Gateways.antt =====
-- pkg/gateway_api/routechecker/gateway_checkers.go: the checks of a route against one parent
-- Gateway. `none` is the panic of a nil pointer.
pub mod Laws
pub mod Kinds
pub mod Protocols
pub mod Allowed
use controller_powered_by_di.Base.{
  ◌<>◌, ℕ, String, Bool, true, false, ◌&&◌, ◌||◌, not, Option, none, some, List, [], ◌∷◌, ◌==◌,
  if◌then◌else◌, any, all, gather, is_nil, nil_or, num_eq,
}
use controller_powered_by_di.Base.Decimal.{itoa}
use controller_powered_by_di.Api.{
  ParentReference, Condition, RouteParentStatus, Gateway, Listener, AllowedRoutes, RouteGroupKind,
  Protocol, GroupVersionKind,
}
use controller_powered_by_di.Model.Hosts.{compute_hosts}
use controller_powered_by_di.RouteChecks.Status.{Input, Lookup, condition, set_parent_condition}

-- `pkg/gateway_api/routechecker/hostnames.go`
unfoldable pub compute_hosts_for_gateway : Gateway → List String → List String
unfolding compute_hosts
compute_hosts_for_gateway gw hostnames =
    gather (λ l. compute_hosts hostnames l.hostname) gw.listeners

abbrev pub rejected : String → String → Condition
rejected reason message = condition "Accepted" "False" reason message

module _ (input : Input) (ref : ParentReference) where
  abbrev pub reject : String → String → List RouteParentStatus → Bool × List RouteParentStatus
  reject reason message parents =
      (false, set_parent_condition input ref (rejected reason message) parents)

  -- The answer where the Gateway, or the owner of the listeners, cannot be read.
  abbrev pub unread : String → List RouteParentStatus → Bool × List RouteParentStatus
  unread message parents = reject ("Invalid" <> input.gvk.kind) message parents

  -- The result by a test of what was read.
  abbrev pub decide :
      Bool → String → String → List RouteParentStatus → Bool × List RouteParentStatus
  decide test reason message parents =
      if test then (true, parents) else reject reason message parents

  ports_check :
      Lookup Gateway → Option ℕ → List RouteParentStatus → Option (Bool × List RouteParentStatus)
  unfolding itoa
  ports_check (Lookup.failed message) port parents = some (unread message parents)
  ports_check Lookup.nil none parents = some (true, parents)
  ports_check Lookup.nil (some port) parents = none
  ports_check (Lookup.found gw) none parents = some (true, parents)
  ports_check (Lookup.found gw) (some port) parents = some (
      decide (any (λ l. num_eq l.port port) gw.listeners) "NoMatchingParent"
        ("No matching listener with port " <> itoa port) parents)

  unfoldable pub check_gateway_matching_ports :
      List RouteParentStatus → Option (Bool × List RouteParentStatus)
  unfolding ports_check
  check_gateway_matching_ports parents = ports_check (input.get_gateway ref) ref.port parents

  section_check :
      Lookup Gateway
      → Option String
      → List RouteParentStatus
      → Option (Bool × List RouteParentStatus)
  section_check (Lookup.failed message) name parents = some (unread message parents)
  section_check Lookup.nil none parents = some (true, parents)
  section_check Lookup.nil (some name) parents = none
  section_check (Lookup.found gw) none parents = some (true, parents)
  section_check (Lookup.found gw) (some name) parents = some (
      decide (any (λ l. l.name == name) gw.listeners) "NoMatchingParent"
        ("No matching listener with sectionName " <> name) parents)

  unfoldable pub check_gateway_matching_section :
      List RouteParentStatus → Option (Bool × List RouteParentStatus)
  unfolding section_check
  check_gateway_matching_section parents =
      section_check (input.get_gateway ref) ref.section_name parents

  hostnames_check : Lookup Gateway → List RouteParentStatus → Option (Bool × List RouteParentStatus)
  unfolding compute_hosts_for_gateway
  hostnames_check (Lookup.failed message) parents = some (unread message parents)
  hostnames_check Lookup.nil parents = none
  hostnames_check (Lookup.found gw) parents = some (
      decide (not (is_nil (compute_hosts_for_gateway gw input.hostnames)))
        "NoMatchingListenerHostname" "No matching listener hostname" parents)

  unfoldable pub check_gateway_matching_hostnames :
      List RouteParentStatus → Option (Bool × List RouteParentStatus)
  unfolding hostnames_check
  check_gateway_matching_hostnames parents = hostnames_check (input.get_gateway ref) parents

  abbrev pub kind_matches : RouteGroupKind → Bool
  kind_matches kind = nil_or (λ g. g == input.gvk.group) kind.group && kind.kind == input.gvk.kind

  abbrev kinds_test : Option (List RouteGroupKind) → Bool
  kinds_test none = true
  kinds_test (some []) = true
  kinds_test (some (k ∷ kinds)) = any kind_matches (k ∷ kinds)

  abbrev allows_kind : Option AllowedRoutes → Bool
  allows_kind none = true
  allows_kind (some allowed) = kinds_test allowed.kinds

  -- The loop over the listeners stops at the first one that does not allow the kind.
  kind_loop : List Listener → List RouteParentStatus → Bool × List RouteParentStatus
  kind_loop [] parents = (true, parents)
  kind_loop (l ∷ listeners) parents =
      let rest = kind_loop listeners parents in
      if allows_kind l.allowed_routes
      then rest
      else reject "NotAllowedByListeners"
          (input.gvk.kind
            <> " is not allowed to attach to this Gateway due to route kind restrictions")
          parents

  kind_check : Lookup Gateway → List RouteParentStatus → Option (Bool × List RouteParentStatus)
  unfolding kind_loop
  kind_check (Lookup.failed message) parents = some (unread message parents)
  kind_check Lookup.nil parents = none
  kind_check (Lookup.found gw) parents = some (kind_loop gw.listeners parents)

  unfoldable pub check_gateway_route_kind_allowed :
      List RouteParentStatus → Option (Bool × List RouteParentStatus)
  unfolding kind_check
  check_gateway_route_kind_allowed parents = kind_check (input.get_gateway ref) parents
