-- ===== src/Listeners/Attach.antt =====
-- pkg/gateway_api/helpers.go, `listenerisAllowed`: whether a route may attach to a listener.
pub mod Laws
use controller_powered_by_di.Base.{
  String, Bool, true, false, ◌&&◌, ◌||◌, Option, none, some, List, ◌==◌, if◌then◌else◌, any, nil_or,
  is_some,
}
use controller_powered_by_di.Api.{Listener, AllowedRoutes, RouteGroupKind, LabelSelector}
use controller_powered_by_di.Helpers.Kinds.{gateway_group_name}
use controller_powered_by_di.Helpers.Namespaces.{
  Labels, NamespaceLabelIndex, is_listener_namespace_allowed,
}

-- The Go type of a route.
pub data RouteType : Type 0 where
  http_route tls_route tcp_route udp_route other_route : RouteType

unfoldable pub get_gateway_kind_for_object : RouteType → String
get_gateway_kind_for_object http_route = "HTTPRoute"
get_gateway_kind_for_object tls_route = "TLSRoute"
get_gateway_kind_for_object tcp_route = "TCPRoute"
get_gateway_kind_for_object udp_route = "UDPRoute"
get_gateway_kind_for_object other_route = "unknown"

-- One of the four tests in the loop over the kinds.
abbrev pub is_named : String → RouteGroupKind → String → Bool
is_named name kind routed =
    nil_or (λ g. g == gateway_group_name && (kind.kind == name && routed == name)) kind.group

abbrev pub is_any_named : RouteGroupKind → String → Bool
is_any_named kind routed =
    is_named "HTTPRoute" kind routed
    || (is_named "TLSRoute" kind routed
        || (is_named "TCPRoute" kind routed || is_named "UDPRoute" kind routed))

abbrev pub kinds_allow : Option (List RouteGroupKind) → String → Bool
kinds_allow none routed = true
kinds_allow (some kinds) routed = any (λ kind. is_any_named kind routed) kinds

-- The allowed routes of the listener, which its caller has tested for nil.
unfoldable pub is_kind_allowed : AllowedRoutes → RouteType → Bool
unfolding get_gateway_kind_for_object
is_kind_allowed allowed route = kinds_allow allowed.kinds (get_gateway_kind_for_object route)

-- No namespaces are stated, or the kind is allowed.
abbrev pub passes_kinds : Option AllowedRoutes → RouteType → Bool
unfolding is_kind_allowed
passes_kinds none route = true
passes_kinds (some allowed) route =
    if is_some allowed.namespaces then is_kind_allowed allowed route else true

-- Of the Gateway and of the route the code reads the namespace, and of the route its type.
unfoldable pub listener_is_allowed :
    (Option LabelSelector → Option (Labels → Bool))
    → String
    → Listener
    → RouteType
    → String
    → NamespaceLabelIndex
    → Bool
unfolding passes_kinds is_listener_namespace_allowed
listener_is_allowed as_selector gateway_namespace listener route route_namespace labels =
    if passes_kinds listener.allowed_routes route
    then is_listener_namespace_allowed as_selector listener route_namespace gateway_namespace labels
    else false
