-- ===== src/Helpers/Grants.antt =====
-- pkg/gateway_api/helpers/referencegrants.go, and `NamespaceDerefOr` of namespaces.go.
pub mod Laws
use controller_powered_by_di.Base.{
  String, Bool, true, false, ◌&&◌, Option, none, some, List, [], ◌∷◌, ◌==◌, if◌then◌else◌, nil_or,
  any,
}
use controller_powered_by_di.Base.Text.{is_empty}
use controller_powered_by_di.Api.{
  GroupVersionKind, BackendObjectReference, SecretObjectReference, ReferenceGrantFrom,
  ReferenceGrantTo, ReferenceGrant,
}
use controller_powered_by_di.Helpers.Kinds.{core_group_name, kind_service, kind_secret}

unfoldable pub namespace_deref_or : Option String → String → String
namespace_deref_or none default_namespace = default_namespace
namespace_deref_or (some namespace) default_namespace =
    if is_empty namespace then default_namespace else namespace

unfoldable pub from_matches : String → GroupVersionKind → ReferenceGrantFrom → Bool
from_matches originating_namespace from_gvk from =
    from.group == from_gvk.group
    && from.kind == from_gvk.kind
    && from.namespace == originating_namespace

unfoldable pub to_matches : String → GroupVersionKind → ReferenceGrantTo → Bool
to_matches name to_gvk to =
    to.group == to_gvk.group && to.kind == to_gvk.kind && nil_or (λ n. n == name) to.name

unfoldable pub is_reference_allowed :
    String
    → String
    → Option String
    → GroupVersionKind
    → GroupVersionKind
    → List ReferenceGrant
    → Bool
unfolding namespace_deref_or from_matches to_matches
is_reference_allowed originating_namespace name namespace from_gvk to_gvk grants =
    let ns = namespace_deref_or namespace originating_namespace in
    if originating_namespace == ns
    then true
    else any
        (λ g.
          g.namespace == ns
          && any
              (λ from.
                from_matches originating_namespace from_gvk from
                && any (to_matches name to_gvk) g.to)
              g.from)
        grants

abbrev pub service_gvk : GroupVersionKind
service_gvk = record { group = core_group_name; version = "v1"; kind = kind_service }

abbrev secret_gvk : GroupVersionKind
secret_gvk = record { group = core_group_name; version = "v1"; kind = kind_secret }

unfoldable pub is_backend_reference_allowed :
    String → BackendObjectReference → GroupVersionKind → List ReferenceGrant → Bool
unfolding is_reference_allowed
is_backend_reference_allowed originating_namespace be gvk grants =
    is_reference_allowed originating_namespace be.name be.namespace gvk service_gvk grants

unfoldable pub is_secret_reference_allowed :
    String → SecretObjectReference → GroupVersionKind → List ReferenceGrant → Bool
unfolding is_reference_allowed
is_secret_reference_allowed originating_namespace sr gvk grants =
    is_reference_allowed originating_namespace sr.name sr.namespace gvk secret_gvk grants
