-- ===== src/RouteChecks/Gateways/Protocols.antt =====
-- pkg/gateway_api/routechecker/gateway_checkers.go, `CheckGatewayMatchingProtocol`.
pub mod Laws
use controller_powered_by_di.Base.{
  ◌<>◌, String, Bool, Option, none, some, List, [], ◌∷◌, ◌==◌, any, map,
}
use controller_powered_by_di.Api.{ParentReference, RouteParentStatus, Listener, Protocol}
use controller_powered_by_di.RouteChecks.Status.{Input, Lookup}
use controller_powered_by_di.RouteChecks.Gateways.{decide, unread}

-- The text of a protocol, by which the code compares.
abbrev pub protocol_text : Protocol → String
protocol_text Protocol.http = "HTTP"
protocol_text Protocol.https = "HTTPS"
protocol_text Protocol.tls = "TLS"
protocol_text Protocol.tcp = "TCP"
protocol_text Protocol.udp = "UDP"
protocol_text (Protocol.other text) = text

-- `%v` of a list of texts, without its brackets.
words : List String → String
words [] = ""
words (x ∷ []) = x
words (x ∷ y ∷ xs) = x <> (" " <> words (y ∷ xs))

-- `slices.Contains(routeProtocols, listener.Protocol)`
abbrev pub speaks : List Protocol → Listener → Bool
speaks protocols l = any (λ p. protocol_text p == protocol_text l.protocol) protocols

module _ (input : Input) (ref : ParentReference) where
  protocol_check :
      Lookup (List Listener) → List RouteParentStatus → Option (Bool × List RouteParentStatus)
  unfolding words
  protocol_check (Lookup.failed message) parents = some (unread input ref message parents)
  protocol_check Lookup.nil parents = none
  protocol_check (Lookup.found listeners) parents = some (
      decide input ref (any (speaks input.valid_protocols) listeners) "NotAllowedByListeners"
        ("No matching listener protocol; route requires one of: ["
          <> (words (map protocol_text input.valid_protocols) <> "]"))
        parents)

  unfoldable pub check_gateway_matching_protocol :
      List RouteParentStatus → Option (Bool × List RouteParentStatus)
  unfolding protocol_check
  check_gateway_matching_protocol parents = protocol_check (input.get_listener_owner ref) parents
