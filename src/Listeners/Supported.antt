-- ===== src/Listeners/Supported.antt =====
-- pkg/gateway_api/helpers.go, `getSupportedRouteKinds` and `groupDerefOr`.
use controller_powered_by_di.Base.{String, Option, none, some, List, [], ◌∷◌, if◌then◌else◌}
use controller_powered_by_di.Base.Text.{is_empty}
use controller_powered_by_di.Api.{Protocol, RouteGroupKind}
use controller_powered_by_di.Helpers.Kinds.{gateway_group_name}

abbrev pub supported_kind : String → RouteGroupKind
supported_kind kind = record { group = some gateway_group_name; kind = kind }

-- `none` is the nil list of a protocol that is not supported.
unfoldable pub get_supported_route_kinds : Protocol → Option (List RouteGroupKind)
get_supported_route_kinds Protocol.http =
    some (supported_kind "HTTPRoute" ∷ supported_kind "GRPCRoute" ∷ [])
get_supported_route_kinds Protocol.https =
    some (supported_kind "HTTPRoute" ∷ supported_kind "GRPCRoute" ∷ [])
get_supported_route_kinds Protocol.tls = some (supported_kind "TLSRoute" ∷ [])
get_supported_route_kinds Protocol.tcp = some (supported_kind "TCPRoute" ∷ [])
get_supported_route_kinds Protocol.udp = some (supported_kind "UDPRoute" ∷ [])
get_supported_route_kinds (Protocol.other _) = none

unfoldable pub group_deref_or : Option String → String → String
group_deref_or none default_group = default_group
group_deref_or (some group) default_group = if is_empty group then default_group else group
