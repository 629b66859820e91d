-- ===== src/Ingestion/Backends.antt =====
-- pkg/model/ingestion/gateway.go: which backends a rule keeps, and what they become.
pub mod Laws
use controller_powered_by_di.Base.{
  ℕ, String, Bool, ◌&&◌, ◌||◌, not, Option, none, some, List, [], ◌∷◌, ◌==◌, if◌then◌else◌, any,
  keep, map, some_and, nil_or, is_some, is_nil,
}
use controller_powered_by_di.Api.{
  GroupVersionKind, BackendObjectReference, BackendRef, ReferenceGrant, Service, ParentReference,
  Listener,
}
use controller_powered_by_di.Helpers.Kinds.{gateway_group_name, core_group_name, kind_service}
use controller_powered_by_di.Helpers.Grants.{namespace_deref_or, is_backend_reference_allowed}
use controller_powered_by_di.Model
use controller_powered_by_di.Model.Hosts.{all_hosts, compute_hosts}

unfoldable pub service_exists : String → String → List Service → Bool
service_exists svc_name svc_namespace services =
    any (λ svc. svc.name == svc_name && svc.namespace == svc_namespace) services

abbrev model_port : Option ℕ → Option Model.BackendPort
model_port none = none
model_port (some port) = some (record { port = port; name = "" })

unfoldable pub backend_ref_to_model_backend : BackendObjectReference → String → Model.Backend
backend_ref_to_model_backend be default_namespace = record {
  name = be.name;
  namespace = namespace_deref_or be.namespace default_namespace;
  port = model_port be.port;
  weight = none;
  tls = none;
}

unfoldable pub backend_to_model_backend : BackendRef → String → Model.Backend
unfolding backend_ref_to_model_backend
backend_to_model_backend be default_namespace =
    record (backend_ref_to_model_backend be.ref default_namespace) { weight = be.weight }

-- `gatewayv1beta1.SchemeGroupVersion.WithKind(kind)`
abbrev pub route_gvk : String → GroupVersionKind
route_gvk kind = record { group = gateway_group_name; version = "v1beta1"; kind = kind }

abbrev pub is_other_kind : BackendRef → Bool
is_other_kind be = some_and (λ k. not (k == kind_service)) be.kind

abbrev pub is_other_group : BackendRef → Bool
is_other_group be = some_and (λ g. not (g == core_group_name)) be.group

-- The tests that a backend of a route of the kind has to pass, in the namespace of the route.
unfoldable pub is_usable : String → String → List Service → List ReferenceGrant → BackendRef → Bool
is_usable kind route_namespace services grants be =
    is_backend_reference_allowed route_namespace be.ref (route_gvk kind) grants
    && not (is_other_kind be || is_other_group be)
    && is_some be.port
    && service_exists be.name (namespace_deref_or be.namespace route_namespace) services

-- The backends of a rule, for every kind of route.
unfoldable pub usable_backends :
    String → String → List Service → List ReferenceGrant → List BackendRef → List Model.Backend
unfolding is_usable backend_to_model_backend
usable_backends kind route_namespace services grants refs =
    map (λ be. backend_to_model_backend be route_namespace)
      (keep (is_usable kind route_namespace services grants) refs)

-- A rule without a usable backend answers with status 500.
unfoldable pub direct_response_for : List Model.Backend → Option Model.DirectResponse
direct_response_for [] = some (record { status_code = 500; body = "" })
direct_response_for (_ ∷ _) = none

-- A parent reference that names the listener, or no section.
abbrev pub names_listener : Listener → ParentReference → Bool
names_listener listener parent = nil_or (λ s. s == listener.name) parent.section_name

-- `nil` for the one hostname that matches every host.
abbrev pub drop_all_hosts : List String → List String
drop_all_hosts [] = []
drop_all_hosts (h ∷ []) = if h == all_hosts then [] else h ∷ []
drop_all_hosts (h ∷ (g ∷ hs)) = h ∷ (g ∷ hs)
