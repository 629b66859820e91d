-- ===== src/Listeners/Validation.antt =====
-- pkg/gateway_api/gateway_reconcile.go, `validateListener`.
pub mod Laws
use controller_powered_by_di.Base.{
  ◌<>◌, ℕ, String, Bool, true, false, ◌&&◌, not, Option, none, some, List, [], ◌∷◌, ◌++◌, ◌==◌,
  if◌then◌else◌, any, keep, deref_or, length, num_eq, is_nil,
}
use controller_powered_by_di.Api.{
  Protocol, TlsMode, Listener, ListenerTlsConfig, AllowedRoutes, RouteGroupKind, ReferenceGrant,
  Condition, SecretObjectReference,
}
use controller_powered_by_di.Helpers.Kinds.{gateway_group_name, gateway_v1_gvk, is_secret}
use controller_powered_by_di.Helpers.Grants.{namespace_deref_or, is_secret_reference_allowed}
use controller_powered_by_di.Helpers.Conditions.{merge_conditions}
use controller_powered_by_di.Listeners.Supported.{get_supported_route_kinds, group_deref_or}
use controller_powered_by_di.Listeners.Certs.{Fetched, validate_tls_secret}

-- What the validation reads: the parameters, the secrets as the client gives them by
-- namespace and name, `pem.Decode`, and the clock.
pub record Params : Type 0 where
  pub owner_namespace : String
  pub owner_kind : String
  pub generation : ℕ
  pub grants : List ReferenceGrant
  pub get_secret : String → String → Fetched
  pub decode : String → Option String
  pub now : ℕ

-- `none` in `supported_kinds` is the nil list.
pub record ValidationResult : Type 0 where
  pub is_valid : Bool
  pub supported_kinds : Option (List RouteGroupKind)
  pub invalid_reason : String
  pub invalid_messages : List String
  pub conds : List Condition

abbrev initial : ValidationResult
initial = record {
  is_valid = true;
  supported_kinds = none;
  invalid_reason = "Invalid";
  invalid_messages = [];
  conds = [];
}

-- `ResolvedRefs` is false for the reason.
abbrev unresolved_refs : Params → String → String → Condition
unresolved_refs params reason message = record {
  kind = "ResolvedRefs";
  status = "False";
  reason = reason;
  message = message;
  observed_generation = params.generation;
  last_transition_time = params.now;
}

abbrev invalid : String → ValidationResult → ValidationResult
invalid message res = record res {
  is_valid = false;
  invalid_messages = res.invalid_messages ++ message ∷ [];
}

check_protocol : Option (List RouteGroupKind) → ValidationResult → ValidationResult
check_protocol none res = record (invalid "Unsupported Listener Protocol." res) {
  invalid_reason = "UnsupportedProtocol";
}
check_protocol (some _) res = res

-- The supported kinds carry their group, which the code reads through its pointer.
kind_allowed : List RouteGroupKind → RouteGroupKind → Bool
unfolding group_deref_or
kind_allowed kinds supported =
    any
      (λ allowed.
        supported.kind == allowed.kind
        && group_deref_or allowed.group gateway_group_name == deref_or supported.group "")
      kinds

-- The result with the supported kinds that are allowed, and its errors on the others.
with_kinds :
    Params → List RouteGroupKind → List RouteGroupKind → ValidationResult → ValidationResult
unfolding merge_conditions
with_kinds params allowed kept res =
    let found = record res { supported_kinds = some kept } in
    let reported = record found {
      conds = merge_conditions found.conds (
          unresolved_refs params "InvalidRouteKinds"
            "Unsupported Route Kinds in allowedRoutes.kinds"
          ∷ []);
    } in
    if num_eq (length kept) (length allowed)
    then found
    else if is_nil kept
    then invalid "None of the Allowed Route Kinds are supported." reported
    else reported

check_kinds :
    Params
    → Option (List RouteGroupKind)
    → Option (List RouteGroupKind)
    → ValidationResult
    → ValidationResult
unfolding with_kinds kind_allowed
check_kinds params supported none res = record res { supported_kinds = supported }
check_kinds params supported (some []) res = record res { supported_kinds = supported }
check_kinds params supported (some (k ∷ kinds)) res =
    with_kinds params (k ∷ kinds) (keep (kind_allowed (k ∷ kinds)) (deref_or supported [])) res

abbrev allowed_kinds : Option AllowedRoutes → Option (List RouteGroupKind)
allowed_kinds none = none
allowed_kinds (some allowed) = allowed.kinds

-- The condition's reason and message for a certificate that is not accepted, and the message.
cert_fault : Params → SecretObjectReference → Option ((String × String) × String)
unfolding is_secret is_secret_reference_allowed namespace_deref_or validate_tls_secret
cert_fault params cert =
    if not (is_secret cert)
    then some (
      ("InvalidCertificateRef", "Invalid CertificateRef"),
      "Invalid CertificateRef, must be a Secret.",
    )
    else if not (
        is_secret_reference_allowed params.owner_namespace cert (gateway_v1_gvk params.owner_kind)
          params.grants)
    then some (
      ("RefNotPermitted", "CertificateRef is not permitted"),
      "Invalid CertificateRef, not permitted.",
    )
    else elim (validate_tls_secret params.decode
        (params.get_secret (namespace_deref_or cert.namespace params.owner_namespace) cert.name)) [
          | none ↦ none
          | some error ↦ some (
            ("InvalidCertificateRef", "Invalid CertificateRef"),
            "Invalid CertificateRef, " <> error,
          )
        ]

abbrev report_cert : Params → (String × String) × String → ValidationResult → ValidationResult
report_cert params ((reason, message), text) res = record (invalid text res) {
  conds = merge_conditions res.conds (unresolved_refs params reason message ∷ []);
}

-- The loop over the certificates stops at the first one that is not accepted.
cert_loop : Params → List SecretObjectReference → ValidationResult → ValidationResult
unfolding cert_fault merge_conditions
cert_loop params [] res = res
cert_loop params (cert ∷ certs) res =
    let rest = cert_loop params certs res in
    elim (cert_fault params cert) [ none ↦ rest | some fault ↦ report_cert params fault res ]

-- A TLS listener that terminates is not supported.
check_mode : Protocol → Option TlsMode → ValidationResult → ValidationResult
check_mode Protocol.tls (some TlsMode.terminate) res =
    record (invalid "Using TLSRoute with TLS.mode Terminate is unsupported." res) {
      invalid_reason = "UnsupportedValue";
      supported_kinds = some [];
    }
check_mode _ _ res = res

check_tls : Params → Protocol → Option ListenerTlsConfig → ValidationResult → ValidationResult
unfolding cert_loop check_mode
check_tls params protocol none res = res
check_tls params protocol (some tls) res =
    check_mode protocol tls.mode (cert_loop params tls.certificate_refs res)

unfoldable pub validate_listener : Params → Listener → ValidationResult
unfolding get_supported_route_kinds check_protocol check_kinds check_tls
validate_listener params l =
    let supported = get_supported_route_kinds l.protocol in
    check_tls params l.protocol l.tls (
      check_kinds params supported (allowed_kinds l.allowed_routes)
        (check_protocol supported initial))
