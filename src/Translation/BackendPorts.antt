-- ===== src/Translation/BackendPorts.antt =====
-- pkg/model/translation/translator.go: the ports of the backends, by namespace and name.
pub mod Members
use controller_powered_by_di.Base.{
  String, Option, none, some, List, [], ◌∷◌, ◌++◌, ◌==◌, fold, deref_or,
}
use controller_powered_by_di.Base.Assoc.{find, upsert}
use controller_powered_by_di.Model
use controller_powered_by_di.Model.{
  Backend, HttpRoute, HttpListener, HttpRequestMirror, TlsRoute, TlsListener, TcpRoute, TcpListener,
}
use controller_powered_by_di.Model.Ports.{get_port}
use controller_powered_by_di.Translation.Infra.{Infra}

-- `map[string][]string` and `map[string]map[string][]string`
abbrev pub NamePorts : Type 0
NamePorts = List (String × List String)

abbrev pub NamespaceNamePorts : Type 0
NamespaceNamePorts = List (String × NamePorts)

-- `m[k]` where a missing key gives an empty value.
abbrev pub at : {V : Type 0} → String → V → List (String × V) → V
at k empty m = deref_or (find (λ a b. a == b) k m) empty

abbrev pub put : {V : Type 0} → String → V → List (String × V) → List (String × V)
put k v m = upsert (λ a b. a == b) k v m

module _ (infra : Infra) where
  -- The body of the loop over the backends.
  unfoldable pub merge_backend : Backend → NamespaceNamePorts → NamespaceNamePorts
  unfolding get_port
  merge_backend be m = elim be.port [
    | none ↦ m
    | some port ↦
        let ports = at be.namespace [] m in
        put be.namespace
          (put be.name (infra.sorted_uniqs (at be.name [] ports ++ get_port port ∷ [])) ports) m
  ]

  unfoldable pub merge_backends_in_namespace_name_port_map :
      List Backend → NamespaceNamePorts → NamespaceNamePorts
  unfolding merge_backend
  merge_backends_in_namespace_name_port_map backends m = fold merge_backend backends m

  abbrev merge_mirror : HttpRequestMirror → NamespaceNamePorts → NamespaceNamePorts
  unfolding merge_backends_in_namespace_name_port_map
  merge_mirror mirror m = elim mirror.backend [
    | none ↦ m
    | some be ↦ merge_backends_in_namespace_name_port_map (be ∷ []) m
  ]

  abbrev merge_http_route : HttpRoute → NamespaceNamePorts → NamespaceNamePorts
  unfolding merge_mirror
  merge_http_route r m =
      fold merge_mirror r.request_mirrors (merge_backends_in_namespace_name_port_map r.backends m)

  abbrev merge_http : List HttpListener → NamespaceNamePorts → NamespaceNamePorts
  unfolding merge_http_route
  merge_http listeners m = fold (λ l. fold merge_http_route l.routes) listeners m

  abbrev merge_tls : List TlsListener → NamespaceNamePorts → NamespaceNamePorts
  unfolding merge_backends_in_namespace_name_port_map
  merge_tls listeners m =
      fold (λ l. fold (λ r. merge_backends_in_namespace_name_port_map r.backends) l.routes)
        listeners m

  abbrev merge_tcp : List TcpListener → NamespaceNamePorts → NamespaceNamePorts
  unfolding merge_backends_in_namespace_name_port_map
  merge_tcp listeners m =
      fold (λ l. fold (λ r. merge_backends_in_namespace_name_port_map r.backends) l.routes)
        listeners m

  unfoldable pub get_namespace_name_ports_map : Model.Model → NamespaceNamePorts
  unfolding merge_http merge_tls merge_tcp
  get_namespace_name_ports_map m = merge_tcp m.tcp (merge_tls m.tls (merge_http m.http []))

  unfoldable pub get_namespace_name_ports_map_for_http : Model.Model → NamespaceNamePorts
  unfolding merge_http
  get_namespace_name_ports_map_for_http m = merge_http m.http []

  unfoldable pub get_namespace_name_ports_map_for_tls : Model.Model → NamespaceNamePorts
  unfolding merge_tls
  get_namespace_name_ports_map_for_tls m = merge_tls m.tls []

  unfoldable pub get_namespace_name_ports_map_for_tcp : Model.Model → NamespaceNamePorts
  unfolding merge_tcp
  get_namespace_name_ports_map_for_tcp m = merge_tcp m.tcp []
