-- ===== src/Ingestion/Ingress/Passthrough.antt =====
-- pkg/model/ingestion/ingress.go: the listeners of an Ingress that pass TLS through.
use controller_powered_by_di.Base.{
  String, Option, none, some, List, [], ◌∷◌, ◌++◌, ◌==◌, ◌>>=◌, if◌then◌else◌, is_nil, is_some,
  deref_or,
}
use controller_powered_by_di.Base.Assoc.{find, upsert}
use controller_powered_by_di.Api.{Ingress, IngressRule, HttpIngressPath}
use controller_powered_by_di.Model.{TlsListener, TlsRoute}
use controller_powered_by_di.Ingestion.Annotations.{Lookups}
use controller_powered_by_di.Ingestion.Ingress.{
  get_service, listener_name, ingress_source, backend_of, append_values_in_key_order, add_source,
}

abbrev zero_tls_listener : TlsListener
zero_tls_listener = record {
  name = "";
  sources = [];
  address = "";
  port = 0;
  hostname = "";
  routes = [];
  service = none;
  infrastructure = none;
}

module _ (lookups : Lookups) (ing : Ingress) where
  -- The routes of the paths that are the slash; a path of another kind is skipped.
  pub passthrough_routes : List HttpIngressPath → Option (List TlsRoute)
  passthrough_routes [] = some []
  passthrough_routes (p ∷ paths) =
      if p.path == "/"
      then (do
        service ← p.service
        rest ← passthrough_routes paths
        some (
            record { name = ""; hostnames = []; backends = backend_of ing.namespace service ∷ [] }
            ∷ rest))
      else passthrough_routes paths

  unfoldable pub passthrough_listener :
      String → List TlsRoute → List (String × TlsListener) → TlsListener
  unfolding find add_source get_service
  passthrough_listener host routes m =
      let found = find (λ a b. a == b) host m in
      let l = deref_or found zero_tls_listener in
      record l {
        port = 443;
        sources = add_source l.sources (ingress_source ing);
        name = if is_some found then l.name else listener_name ing host;
        hostname = host;
        routes = l.routes ++ routes;
        service = if is_nil routes then l.service else get_service lookups ing;
      }

  -- A rule without a host, without paths or without a route is skipped.
  unfoldable pub add_passthrough_rules :
      List IngressRule → List (String × TlsListener) → Option (List (String × TlsListener))
  unfolding passthrough_listener passthrough_routes upsert
  add_passthrough_rules [] m = some m
  add_passthrough_rules (rule ∷ rules) m =
      if rule.host == "" then add_passthrough_rules rules m else elim rule.http [
        | none ↦ add_passthrough_rules rules m
        | some paths ↦ do
          routes ← passthrough_routes paths
          let l = passthrough_listener rule.host routes m
          add_passthrough_rules rules
              (if is_nil l.routes then m else upsert (λ a b. a == b) rule.host l m)
      ]

  unfoldable pub ingress_passthrough : Option (List TlsListener)
  unfolding add_passthrough_rules append_values_in_key_order
  ingress_passthrough = do
    m ← add_passthrough_rules ing.rules []
    some (append_values_in_key_order m [])
