-- ===== src/Helpers/Kinds.antt =====
-- pkg/gateway_api/helpers/types.go: which kind a reference names.
use controller_powered_by_di.Base.{String, Bool, ◌&&◌, ◌||◌, ◌==◌, nil_or, some_and}
use controller_powered_by_di.Api.{
  GroupVersionKind, ParentReference, BackendObjectReference, SecretObjectReference,
}

-- Names that the Kubernetes and Gateway API packages export.
abbrev pub gateway_group_name : String
gateway_group_name = "gateway.networking.k8s.io"

abbrev pub core_group_name : String
core_group_name = ""

abbrev pub multicluster_group_name : String
multicluster_group_name = "multicluster.x-k8s.io"

abbrev pub kind_gateway : String
kind_gateway = "Gateway"

abbrev pub kind_secret : String
kind_secret = "Secret"

abbrev pub kind_service : String
kind_service = "Service"

abbrev pub kind_service_import : String
kind_service_import = "ServiceImport"

abbrev pub kind_listener_set : String
kind_listener_set = "ListenerSet"

abbrev pub kind_config_map : String
kind_config_map = "ConfigMap"

unfoldable pub gateway_v1_gvk : String → GroupVersionKind
gateway_v1_gvk kind = record { group = gateway_group_name; version = "v1"; kind = kind }

unfoldable pub is_gateway : ParentReference → Bool
is_gateway parent =
    nil_or (λ k. k == kind_gateway) parent.kind
    && nil_or (λ g. g == gateway_group_name) parent.group

unfoldable pub is_listener_set : ParentReference → Bool
is_listener_set parent =
    some_and (λ k. k == kind_listener_set) parent.kind
    && nil_or (λ g. g == gateway_group_name) parent.group

unfoldable pub is_gamma_service : ParentReference → Bool
is_gamma_service parent =
    some_and (λ k. k == kind_service) parent.kind
    && some_and (λ g. g == core_group_name || g == "core") parent.group

unfoldable pub is_service : BackendObjectReference → Bool
is_service be =
    nil_or (λ k. k == kind_service) be.kind && nil_or (λ g. g == core_group_name) be.group

unfoldable pub is_secret : SecretObjectReference → Bool
is_secret secret =
    nil_or (λ k. k == kind_secret) secret.kind && nil_or (λ g. g == core_group_name) secret.group

unfoldable pub is_service_import : BackendObjectReference → Bool
is_service_import be =
    some_and (λ k. k == kind_service_import) be.kind
    && some_and (λ g. g == multicluster_group_name) be.group
