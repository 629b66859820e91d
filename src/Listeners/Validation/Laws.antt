-- ===== src/Listeners/Validation/Laws.antt =====
-- When a listener is valid.
use controller_powered_by_di.Base.{
  String, Bool, true, false, not, ◌≡◌, ◌≢◌, ◌↔◌, ◌⊎◌, inl, inr, refl, Option, none, some, List, [],
  ◌∷◌, if◌then◌else◌, any_iff, Any, Any-map, here, there, All, keep, deref_or, is_nil, arith,
  eq_iff, Bool-cases,
}
use controller_powered_by_di.Api.{
  Protocol, TlsMode, Listener, ListenerTlsConfig, RouteGroupKind, SecretObjectReference,
}
use controller_powered_by_di.Helpers.Kinds.{gateway_group_name, gateway_v1_gvk, is_secret}
use controller_powered_by_di.Helpers.Grants.{namespace_deref_or, is_secret_reference_allowed}
use controller_powered_by_di.Listeners.Supported.{get_supported_route_kinds, group_deref_or}
use controller_powered_by_di.Listeners.Certs.{validate_tls_secret}
use controller_powered_by_di.Listeners.Validation.{
  Params, ValidationResult, initial, check_protocol, kind_allowed, with_kinds, check_kinds,
  allowed_kinds, cert_fault, report_cert, cert_loop, check_mode, check_tls, validate_listener,
}

-- A supported kind that the listener lists, with the group of the Gateway API by default.
abbrev pub Lists : RouteGroupKind → RouteGroupKind → Type 0
Lists supported allowed =
    (supported.kind ≡ allowed.kind)
    × (group_deref_or allowed.group gateway_group_name ≡ deref_or supported.group "")

-- The listener lists no kinds, or some kind that is supported.
abbrev pub KindsFit : List RouteGroupKind → Option (List RouteGroupKind) → Type 0
KindsFit supported none = Unit
KindsFit supported (some []) = Unit
KindsFit supported (some (k ∷ kinds)) = Any (λ s. Any (Lists s) (k ∷ kinds)) supported

-- A certificate that is a secret, that may be referred to, and that is valid.
pub record CertFits (params : Params) (cert : SecretObjectReference) : Type 0 where
  pub secret : is_secret cert ≡ true
  pub allowed :
      is_secret_reference_allowed params.owner_namespace cert
        (gateway_v1_gvk params.owner_kind)
        params.grants
      ≡ true
  pub valid :
      validate_tls_secret params.decode
        (params.get_secret (namespace_deref_or cert.namespace params.owner_namespace) cert.name)
      ≡ none

abbrev pub ModeFits : Protocol → Option TlsMode → Type 0
ModeFits protocol mode = (protocol ≢ Protocol.tls) ⊎ (mode ≢ some TlsMode.terminate)

abbrev pub TlsFits : Params → Protocol → Option ListenerTlsConfig → Type 0
TlsFits params protocol none = Unit
TlsFits params protocol (some tls) =
    All (CertFits params) tls.certificate_refs × ModeFits protocol tls.mode

pub record IsValidListener (params : Params) (l : Listener) : Type 0 where
  pub protocol : get_supported_route_kinds l.protocol ≢ none
  pub kinds :
      KindsFit (deref_or (get_supported_route_kinds l.protocol) []) (allowed_kinds l.allowed_routes)
  pub tls : TlsFits params l.protocol l.tls

-- A step that keeps a result valid exactly where its condition holds.
abbrev Keeps : Type 0 → ValidationResult → ValidationResult → Type 0
Keeps P before after = (after.is_valid ≡ true) ↔ ((before.is_valid ≡ true) × P)

check_protocol-Keeps :
    (supported : Option (List RouteGroupKind)) (res : ValidationResult)
    → Keeps (supported ≢ none) res (check_protocol supported res)
unfolding check_protocol
check_protocol-Keeps none res = (λ h. cc, λ (_, ne). elim (ne refl) [ ])
check_protocol-Keeps (some s) res = (λ h. (h, λ e. cc), λ both. both.0)

kind_allowed_iff :
    (kinds : List RouteGroupKind) (s : RouteGroupKind)
    → (kind_allowed kinds s ≡ true) ↔ Any (Lists s) kinds
unfolding kind_allowed
kind_allowed_iff kinds s = (
  λ h.
      Any-map (λ a e. ((eq_iff _ _).0 (ground arith), (eq_iff _ _).0 (ground arith)))
        ((any_iff _ kinds).0 h),
  λ h. (any_iff _ kinds).1 (Any-map (λ a (k, g). rw ((eq_iff _ _).1 k) ((eq_iff _ _).1 g)) h),
)

keep_iff :
    {A : Type 0} (t : A → Bool) (xs : List A)
    → (is_nil (keep t xs) ≡ false) ↔ Any (λ x. t x ≡ true) xs
keep_iff t [] = (λ h. cc, λ a. elim a [ ])
keep_iff t (x ∷ xs) = elim (Bool-cases (t x)) [
  | inl hit ↦ rw hit (λ _. here hit, λ _. refl)
  | inr miss ↦ rw miss (
    λ h. there ((keep_iff t xs).0 h),
    λ a. elim a [ here hit ↦ cc (hit, miss) | there rest ↦ (keep_iff t xs).1 rest ],
  )
]

with_kinds-Keeps :
    (params : Params) (k : RouteGroupKind) (kinds kept : List RouteGroupKind)
    (res : ValidationResult)
    → Keeps (is_nil kept ≡ false) res (with_kinds params (k ∷ kinds) kept res)
unfolding with_kinds
with_kinds-Keeps params k kinds [] res = ground arith
with_kinds-Keeps params k kinds (x ∷ kept) res = ground arith

check_kinds-Keeps :
    (params : Params) (supported : Option (List RouteGroupKind))
    (allowed : Option (List RouteGroupKind)) (res : ValidationResult)
    → Keeps
        (KindsFit (deref_or supported []) allowed)
        res
        (check_kinds params supported allowed res)
unfolding check_kinds
check_kinds-Keeps params supported none res = (λ h. (h, tt), λ both. both.0)
check_kinds-Keeps params supported (some []) res = (λ h. (h, tt), λ both. both.0)
check_kinds-Keeps params supported (some (k ∷ kinds)) res =
    let all = deref_or supported [] in
    let kept = keep (kind_allowed (k ∷ kinds)) all in
    let (sound, complete) = with_kinds-Keeps params k kinds kept res in
    let (some_kept, keeps) = keep_iff (kind_allowed (k ∷ kinds)) all in
    (
      λ h. ((sound h).0, Any-map (λ s. (kind_allowed_iff (k ∷ kinds) s).0) (some_kept (sound h).1)),
      λ both. complete (both.0, keeps (Any-map (λ s. (kind_allowed_iff (k ∷ kinds) s).1) both.1)),
    )

-- Three tests in a row, of which the last may give an error.
fault_table :
    {F : Type 0} (x y : F) (z : String → F) (first second : Bool) (third : Option String)
    → ((if not first
          then some x
          else if not second
          then some y
          else elim third [ none ↦ none | some e ↦ some (z e) ])
        ≡ none)
      ↔ ((first ≡ true) × (second ≡ true) × (third ≡ none))
fault_table x y z false second third = (λ h. cc, λ t. cc (t.0))
fault_table x y z true false third = (λ h. cc, λ t. cc (t.1))
fault_table x y z true true none = (λ h. (refl, refl, refl), λ t. refl)
fault_table x y z true true (some e) = (λ h. cc, λ t. cc (t.2))

cert_fault_iff :
    (params : Params) (cert : SecretObjectReference)
    → (cert_fault params cert ≡ none) ↔ CertFits params cert
unfolding cert_fault
cert_fault_iff params cert =
    let (sound, complete) =
      fault_table _ _ _ (is_secret cert)
        (is_secret_reference_allowed params.owner_namespace cert (gateway_v1_gvk params.owner_kind)
          params.grants)
        (validate_tls_secret params.decode (
          params.get_secret (namespace_deref_or cert.namespace params.owner_namespace)
            cert.name)) in
    (
      λ h. let (s, a, v) = sound h in record { secret = s; allowed = a; valid = v },
      λ fits. complete (fits.secret, fits.allowed, fits.valid),
    )

fault-Keeps :
    (params : Params) (fault : Option ((String × String) × String)) (res rest : ValidationResult)
    (P Q : Type 0)
    → (fault ≡ none) ↔ P
    → Keeps Q res rest
    → Keeps (P × Q) res (elim fault [ none ↦ rest | some f ↦ report_cert params f res ])
fault-Keeps params none res rest P Q (sound, complete) keeps =
    (λ h. ((keeps.0 h).0, (sound refl, (keeps.0 h).1)), λ both. keeps.1 (both.0, both.1.1))
fault-Keeps params (some f) res rest P Q (sound, complete) keeps =
    (λ h. cc, λ both. cc (complete both.1.0))

cert_loop-Keeps :
    (params : Params) (certs : List SecretObjectReference) (res : ValidationResult)
    → Keeps (All (CertFits params) certs) res (cert_loop params certs res)
unfolding cert_loop
cert_loop-Keeps params [] res = (λ h. (h, tt), λ both. both.0)
cert_loop-Keeps params (cert ∷ certs) res =
    fault-Keeps params (cert_fault params cert) res (cert_loop params certs res)
      (CertFits params cert) (All (CertFits params) certs) (cert_fault_iff params cert)
      (cert_loop-Keeps params certs res)

kept : (P : Type 0) (res : ValidationResult) → P → Keeps P res res
kept P res p = (λ h. (h, p), λ both. both.0)

check_mode-Keeps :
    (protocol : Protocol) (mode : Option TlsMode) (res : ValidationResult)
    → Keeps (ModeFits protocol mode) res (check_mode protocol mode res)
unfolding check_mode
check_mode-Keeps Protocol.tls none res = kept _ res (inr (λ e. cc))
check_mode-Keeps Protocol.tls (some TlsMode.passthrough) res = kept _ res (inr (λ e. cc))
check_mode-Keeps Protocol.tls (some (TlsMode.other _)) res = kept _ res (inr (λ e. cc))
check_mode-Keeps Protocol.tls (some TlsMode.terminate) res =
    (λ h. cc, λ both. elim both.1 [ inl ne ↦ elim (ne refl) [ ] | inr ne ↦ elim (ne refl) [ ] ])
check_mode-Keeps Protocol.http mode res = kept _ res (inl (λ e. cc))
check_mode-Keeps Protocol.https mode res = kept _ res (inl (λ e. cc))
check_mode-Keeps Protocol.tcp mode res = kept _ res (inl (λ e. cc))
check_mode-Keeps Protocol.udp mode res = kept _ res (inl (λ e. cc))
check_mode-Keeps (Protocol.other _) mode res = kept _ res (inl (λ e. cc))

check_tls-Keeps :
    (params : Params) (protocol : Protocol) (tls : Option ListenerTlsConfig)
    (res : ValidationResult)
    → Keeps (TlsFits params protocol tls) res (check_tls params protocol tls res)
unfolding check_tls
check_tls-Keeps params protocol none res = (λ h. (h, tt), λ both. both.0)
check_tls-Keeps params protocol (some tls) res =
    let (certs_sound, certs_complete) = cert_loop-Keeps params tls.certificate_refs res in
    let (sound, complete) =
      check_mode-Keeps protocol tls.mode (cert_loop params tls.certificate_refs res) in
    (
      λ h. ((certs_sound (sound h).0).0, ((certs_sound (sound h).0).1, (sound h).1)),
      λ both. complete (certs_complete (both.0, both.1.0), both.1.1),
    )

-- A listener is valid exactly where its protocol is supported, it lists no kinds of routes or some
-- kind that its protocol supports, each of its certificates is a secret that it may refer to and
-- whose two entries are valid PEM, and it does not terminate TLS for the protocol TLS.
pub validate_listener-IsValidListener :
    (params : Params) (l : Listener)
    → ((validate_listener params l).is_valid ≡ true) ↔ IsValidListener params l
unfolding validate_listener
validate_listener-IsValidListener params l =
    let supported = get_supported_route_kinds l.protocol in
    let first = check_protocol supported initial in
    let second = check_kinds params supported (allowed_kinds l.allowed_routes) first in
    let (a, b) = check_protocol-Keeps supported initial in
    let (c, d) = check_kinds-Keeps params supported (allowed_kinds l.allowed_routes) first in
    let (e, f) = check_tls-Keeps params l.protocol l.tls second in
    (
      λ h. record { protocol = (a (c (e h).0).0).1; kinds = (c (e h).0).1; tls = (e h).1 },
      λ v. f (d (b (refl, v.protocol), v.kinds), v.tls),
    )
