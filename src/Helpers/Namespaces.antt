-- ===== src/Helpers/Namespaces.antt =====
-- pkg/gateway_api/helpers/namespaces.go: the index of namespace labels, and which namespaces a
-- listener admits.
pub mod Laws
use controller_powered_by_di.Base.{
  String, Bool, true, false, Option, none, some, List, [], ◌∷◌, ◌==◌, if◌then◌else◌,
}
use controller_powered_by_di.Api.{
  Listener, AllowedRoutes, RouteNamespaces, LabelSelector, FromNamespaces, Namespace,
}

abbrev pub Labels : Type 0
Labels = List (String × String)

-- A Go map from namespaces to their labels. The entry written last stands first.
abbrev pub NamespaceLabelIndex : Type 0
NamespaceLabelIndex = List (String × Labels)

unfoldable pub labels_of : NamespaceLabelIndex → String → Option Labels
labels_of [] ns = none
labels_of ((n, labels) ∷ index) ns = if n == ns then some labels else labels_of index ns

index_from : NamespaceLabelIndex → List Namespace → NamespaceLabelIndex
index_from index [] = index
index_from index (n ∷ namespaces) = index_from ((n.name, n.labels) ∷ index) namespaces

unfoldable pub new_namespace_label_index : List Namespace → NamespaceLabelIndex
unfolding index_from
new_namespace_label_index namespaces = index_from [] namespaces

-- `LabelSelectorAsSelector` is a parameter: it fails, or gives the test of a set of labels.
module _ (as_selector : Option LabelSelector → Option (Labels → Bool)) where
  unfoldable pub is_namespace_selected : Option LabelSelector → String → NamespaceLabelIndex → Bool
  unfolding labels_of
  is_namespace_selected selector route_namespace namespaces =
      elim (labels_of namespaces route_namespace) [
        | none ↦ false
        | some labels ↦ elim (as_selector selector) [ none ↦ false | some matches ↦ matches labels ]
      ]

  from_test :
      Option FromNamespaces → Option LabelSelector → String → String → NamespaceLabelIndex → Bool
  unfolding is_namespace_selected
  from_test none none route_namespace gateway_namespace namespaces =
      route_namespace == gateway_namespace
  from_test none (some selector) route_namespace gateway_namespace namespaces =
      is_namespace_selected (some selector) route_namespace namespaces
  from_test (some FromNamespaces.all) selector route_namespace gateway_namespace namespaces = true
  from_test (some FromNamespaces.same) selector route_namespace gateway_namespace namespaces =
      route_namespace == gateway_namespace
  from_test (some FromNamespaces.none_allowed) selector route_namespace gateway_namespace
        namespaces =
      false
  from_test (some FromNamespaces.selector) selector route_namespace gateway_namespace namespaces =
      is_namespace_selected selector route_namespace namespaces
  from_test (some (FromNamespaces.other _)) selector route_namespace gateway_namespace namespaces =
      false

  namespaces_test : Option RouteNamespaces → String → String → NamespaceLabelIndex → Bool
  unfolding from_test
  namespaces_test none route_namespace gateway_namespace namespaces =
      route_namespace == gateway_namespace
  namespaces_test (some r) route_namespace gateway_namespace namespaces =
      from_test r.from r.selector route_namespace gateway_namespace namespaces

  allowed_test : Option AllowedRoutes → String → String → NamespaceLabelIndex → Bool
  unfolding namespaces_test
  allowed_test none route_namespace gateway_namespace namespaces =
      route_namespace == gateway_namespace
  allowed_test (some a) route_namespace gateway_namespace namespaces =
      namespaces_test a.namespaces route_namespace gateway_namespace namespaces

  unfoldable pub is_listener_namespace_allowed :
      Listener → String → String → NamespaceLabelIndex → Bool
  unfolding allowed_test
  is_listener_namespace_allowed listener route_namespace gateway_namespace namespaces =
      allowed_test listener.allowed_routes route_namespace gateway_namespace namespaces
