-- ===== src/RouteChecks/Gateways/Protocols/Laws.antt =====
-- When the check of the protocols passes.
use controller_powered_by_di.Base.{
  true, ◌≡◌, ◌≢◌, ◌↔◌, refl, List, ◌==◌, Any, Any-map, any_iff, eq_iff,
}
use controller_powered_by_di.Api.{ParentReference, RouteParentStatus, Listener, Protocol}
use controller_powered_by_di.RouteChecks.Status.{Input, Lookup}
use controller_powered_by_di.RouteChecks.Verdict.{fail-Verdict}
use controller_powered_by_di.RouteChecks.Gateways.Laws.{Decides, decide-Decides}
use controller_powered_by_di.RouteChecks.Gateways.Protocols.{
  protocol_text, speaks, protocol_check, check_gateway_matching_protocol,
}

-- The listener speaks one of the protocols.
abbrev pub Speaks : List Protocol → Listener → Type 0
Speaks protocols l = Any (λ p. protocol_text p ≡ protocol_text l.protocol) protocols

-- The listeners of the owner were read, and some of them speaks one of the protocols.
abbrev pub SomeSpeaks : List Protocol → Lookup (List Listener) → Type 0
SomeSpeaks protocols (Lookup.failed _) = ⊥
SomeSpeaks protocols Lookup.nil = ⊥
SomeSpeaks protocols (Lookup.found listeners) = Any (Speaks protocols) listeners

speaks-Speaks :
    (protocols : List Protocol) (l : Listener) → (speaks protocols l ≡ true) ↔ Speaks protocols l
speaks-Speaks protocols l =
    let all = any_iff (λ p. protocol_text p == protocol_text l.protocol) protocols in
    (
      λ h. Any-map (λ p. (eq_iff (protocol_text p) (protocol_text l.protocol)).0) (all.0 h),
      λ a. all.1 (Any-map (λ p. (eq_iff (protocol_text p) (protocol_text l.protocol)).1) a),
    )

module _ (input : Input) (ref : ParentReference) (parents : List RouteParentStatus) where
  protocol_check-Decides :
      (owner : Lookup (List Listener))
      → owner ≢ Lookup.nil
      → Decides
          (SomeSpeaks input.valid_protocols owner)
          ref
          parents
          (protocol_check input ref owner parents)
  unfolding protocol_check
  protocol_check-Decides (Lookup.failed m) h =
      (_, refl, fail-Verdict ⊥ "Accepted" input ref parents _ refl refl (λ p. p))
  protocol_check-Decides Lookup.nil h = elim (h refl) [ ]
  protocol_check-Decides (Lookup.found listeners) h =
      let all = any_iff (speaks input.valid_protocols) listeners in
      decide-Decides input ref parents (Any (Speaks input.valid_protocols) listeners) _ _ _ (
        λ e. Any-map (λ l. (speaks-Speaks input.valid_protocols l).0) (all.0 e),
        λ a. all.1 (Any-map (λ l. (speaks-Speaks input.valid_protocols l).1) a),
      )

  -- Where the owner of the listeners can be looked up without a nil pointer, the check of the
  -- protocols returns, and passes exactly where the owner was read and some listener of it speaks
  -- a protocol of the route. Otherwise `Accepted` is false at the parent. The route's status at
  -- other parents stays.
  pub check_gateway_matching_protocol-Decides :
      input.get_listener_owner ref ≢ Lookup.nil
      → Decides
          (SomeSpeaks input.valid_protocols (input.get_listener_owner ref))
          ref
          parents
          (check_gateway_matching_protocol input ref parents)
  unfolding check_gateway_matching_protocol
  check_gateway_matching_protocol-Decides h =
      protocol_check-Decides (input.get_listener_owner ref) h
