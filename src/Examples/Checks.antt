-- ===== src/Examples/Checks.antt =====
-- The checks of routes at concrete objects.
use controller_powered_by_di.Base.{
  Bool, false, String, Option, ◌⊎◌, inr, ◌≡◌, ◌≢◌, ◌↔◌, refl, true, none, some, List, [], ◌∷◌, All,
  Any,
}
use controller_powered_by_di.Api.{
  BackendRef, RouteParentStatus, Protocol, LabelSelector, FromNamespaces, Gateway,
}
use controller_powered_by_di.RouteChecks.Status.{
  Input, Lookup, condition, stamped, set_parent_condition,
}
use controller_powered_by_di.RouteChecks.Status.Laws.{StatusSet, set_parent_condition-StatusSet}
use controller_powered_by_di.RouteChecks.Verdict.{Verdict}
use controller_powered_by_di.RouteChecks.Backends.{
  all_backends, check_backend, check_against_cross_namespace_backend_references_v2,
}
use controller_powered_by_di.RouteChecks.Backends.Verdicts.{
  MayRefer, IsBackend, IsUnnamed, check_cross_namespace-Verdict, check_backend-Verdict,
  check_backend_panic_iff,
}
use controller_powered_by_di.RouteChecks.Gateways.{
  check_gateway_matching_ports, check_gateway_matching_hostnames, check_gateway_route_kind_allowed,
}
use controller_powered_by_di.RouteChecks.Gateways.Laws.{
  Decides, IfFound, PortFits, HostFits, check_gateway_matching_ports-Decides,
  check_gateway_matching_hostnames-Decides,
}
use controller_powered_by_di.RouteChecks.Gateways.Kinds.{
  AllowsKind, check_gateway_route_kind_allowed-Decides,
}
use controller_powered_by_di.RouteChecks.Gateways.Protocols.{check_gateway_matching_protocol}
use controller_powered_by_di.RouteChecks.Gateways.Protocols.Laws.{
  SomeSpeaks, check_gateway_matching_protocol-Decides,
}
use controller_powered_by_di.RouteChecks.Gateways.Allowed.{check_gateway_allowed_for_namespace}
use controller_powered_by_di.RouteChecks.Gateways.Allowed.Laws.{
  Explains, check_gateway_allowed_for_namespace-Explains,
}
use controller_powered_by_di.RouteChecks.Backends.{check_has_service_import_support}
use controller_powered_by_di.RouteChecks.Backends.Imports.{
  CanImport, check_has_service_import_support-Verdict,
}
use controller_powered_by_di.Examples.Objects.{
  gw, web, grant, http_route_gvk, to_gateway, to_service,
}

-- A route with the backends, whose Gateway is found.
abbrev input_with : List BackendRef → Input
input_with refs = record {
  rules = refs ∷ [];
  namespace = "apps";
  gvk = http_route_gvk;
  grants = grant ∷ [];
  hostnames = "shop.example.com" ∷ [];
  valid_protocols = Protocol.http ∷ Protocol.https ∷ [];
  get_gateway = λ _. Lookup.found gw;
  get_listener_owner = λ _. Lookup.found gw.listeners;
  generation = 3;
  controller_name = "io.dolphin/gateway-controller";
  now = 9;
}

abbrev input : Input
input = input_with (to_service (some "other") "shop" ∷ [])

set_parent_condition-StatusSet_example :
    StatusSet to_gateway
      (stamped input (condition "Accepted" "True" "Accepted" ""))
      []
      (set_parent_condition input to_gateway (condition "Accepted" "True" "Accepted" "") [])
set_parent_condition-StatusSet_example =
    set_parent_condition-StatusSet input to_gateway (condition "Accepted" "True" "Accepted" "") []

check_cross_namespace-Verdict_example :
    (after : Bool × List RouteParentStatus) × (check_against_cross_namespace_backend_references_v2
        input to_gateway []
      ≡ some after)
    × Verdict (All (MayRefer input) (all_backends input)) "ResolvedRefs" to_gateway [] after
check_cross_namespace-Verdict_example = check_cross_namespace-Verdict input to_gateway []

check_backend-Verdict_example :
    Verdict (All IsBackend (all_backends input)) "ResolvedRefs" to_gateway [] (true, [])
unfolding check_backend
check_backend-Verdict_example = check_backend-Verdict input to_gateway [] (true, []) refl

-- A backend of the group `apps` with no kind.
abbrev unnamed : BackendRef
unnamed = record {
  ref = record {
    group = some "apps";
    kind = none;
    name = "shop";
    namespace = none;
    port = some 80;
  };
  weight = none;
}

check_backend_panic_iff_example :
    (check_backend (input_with (unnamed ∷ [])) to_gateway [] ≡ none)
    ↔ Any IsUnnamed (all_backends (input_with (unnamed ∷ [])))
check_backend_panic_iff_example = check_backend_panic_iff (input_with (unnamed ∷ [])) to_gateway []

gateway_found : input.get_gateway to_gateway ≢ Lookup.nil
gateway_found e = cc

check_gateway_matching_ports-Decides_example :
    Decides
      (IfFound (PortFits to_gateway.port) (input.get_gateway to_gateway))
      to_gateway
      []
      (check_gateway_matching_ports input to_gateway [])
check_gateway_matching_ports-Decides_example =
    check_gateway_matching_ports-Decides input to_gateway [] gateway_found

check_gateway_matching_hostnames-Decides_example :
    Decides
      (IfFound (HostFits input.hostnames) (input.get_gateway to_gateway))
      to_gateway
      []
      (check_gateway_matching_hostnames input to_gateway [])
check_gateway_matching_hostnames-Decides_example =
    check_gateway_matching_hostnames-Decides input to_gateway [] gateway_found

check_gateway_route_kind_allowed-Decides_example :
    Decides
      (IfFound
        (λ gw. All (λ l. AllowsKind input l.allowed_routes) gw.listeners)
        (input.get_gateway to_gateway))
      to_gateway
      []
      (check_gateway_route_kind_allowed input to_gateway [])
check_gateway_route_kind_allowed-Decides_example =
    check_gateway_route_kind_allowed-Decides input to_gateway [] gateway_found

owner_found : input.get_listener_owner to_gateway ≢ Lookup.nil
owner_found e = cc

check_gateway_matching_protocol-Decides_example :
    Decides
      (SomeSpeaks input.valid_protocols (input.get_listener_owner to_gateway))
      to_gateway
      []
      (check_gateway_matching_protocol input to_gateway [])
check_gateway_matching_protocol-Decides_example =
    check_gateway_matching_protocol-Decides input to_gateway [] owner_found

-- One namespace for every selector.
list_namespaces : Option LabelSelector → String ⊎ List String
list_namespaces _ = inr ("apps" ∷ [])

-- A Gateway whose listener admits its own namespace, and the route's input with it.
abbrev own_gw : Gateway
own_gw = record gw {
  listeners =
      record web {
        allowed_routes = some (record {
          namespaces = some (record { from = some FromNamespaces.same; selector = none });
          kinds = none;
        });
      }
      ∷ [];
}

abbrev own_input : Input
own_input = record input { get_gateway = λ _. Lookup.found own_gw }

check_gateway_allowed_for_namespace-Explains_example :
    Explains list_namespaces own_input to_gateway own_gw.namespace false own_gw.listeners []
      (check_gateway_allowed_for_namespace list_namespaces own_input to_gateway [])
check_gateway_allowed_for_namespace-Explains_example =
    check_gateway_allowed_for_namespace-Explains list_namespaces own_input to_gateway own_gw [] refl

-- An import of a service.
abbrev imported : BackendRef
imported = record {
  ref = record {
    group = some "multicluster.x-k8s.io";
    kind = some "ServiceImport";
    name = "shop";
    namespace = none;
    port = some 80;
  };
  weight = none;
}

check_has_service_import_support-Verdict_example :
    Verdict
      (CanImport false (all_backends (input_with (imported ∷ []))))
      "ResolvedRefs"
      to_gateway
      []
      (check_has_service_import_support false (input_with (imported ∷ [])) to_gateway [])
check_has_service_import_support-Verdict_example =
    check_has_service_import_support-Verdict false (input_with (imported ∷ [])) to_gateway []
