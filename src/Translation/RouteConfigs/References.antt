-- ===== src/Translation/RouteConfigs/References.antt =====
-- `getEnvoyHTTPRouteConfiguration` and `getClusters` of pkg/model/translation/translator.go: every
-- cluster that the routes name is made.
use controller_powered_by_di.Base.{
  ℕ, String, Bool, true, false, ◌&&◌, ◌||◌, not, some, List, [], ◌∷◌, ◌++◌, ◌==◌, ◌≡◌, refl, subst,
  fold, gather, traverse, is_nil, keep, if◌then◌else◌, Option-cases, inl, inr, arith, All, All-map,
  All-any, All-append, All-traverse, >>=-eq-some, some_inj, fold-keeps, any, eq_refl,
}
use controller_powered_by_di.Base.Sort.{text_lt}
use controller_powered_by_di.Base.StableSort.{stable_sort, All-stable_sort}
use controller_powered_by_di.Base.Assoc.{find, All-find, All-upsert}
use controller_powered_by_di.Model
use controller_powered_by_di.Model.{HttpRoute, HttpListener, HttpRequestMirror, Backend}
use controller_powered_by_di.Translation.Envoy.{VirtualHost, RouteConfiguration}
use controller_powered_by_di.Translation.Infra.{Infra, IsInfra}
use controller_powered_by_di.Translation.VirtualHost.References.{
  IsRouteCovered, host_clusters, new_virtual_host-All,
}
use controller_powered_by_di.Translation.Actions.References.{IsCovered, IsMirrorCovered}
use controller_powered_by_di.Translation.BackendPorts.{at}
use controller_powered_by_di.Translation.BackendPorts.Members.{is_backend, is_mirror, is_of_route}
use controller_powered_by_di.Translation.Clusters.{get_clusters}
use controller_powered_by_di.Translation.Clusters.Members.{HasCluster, get_clusters-HasCluster}
use controller_powered_by_di.Translation.Actions.{backend_cluster}
use controller_powered_by_di.Model.Ports.{backend_port, get_port}
use controller_powered_by_di.Translation.Settings.{DefaultTranslator}
use controller_powered_by_di.Translation.RouteConfigs.{
  PortHosts, HostRoutes, add_host, add_route, hosts_and_routes, first_port, host_for, redirected,
  is_served, configuration_for, hosts_of, parameter_for, get_envoy_http_route_configuration,
  port_of,
}

-- The clusters that a route configuration names.
abbrev pub configuration_clusters : RouteConfiguration → List String
configuration_clusters rc = gather host_clusters rc.virtual_hosts

module _ (P : String → Type 0) where
  abbrev IsPortsCovered : List (String × List HttpRoute) → Type 0
  IsPortsCovered ports = All (λ e. All (IsRouteCovered P) e.1) ports

  abbrev IsHostsCovered : HostRoutes → Type 0
  IsHostsCovered routes = All (λ e. IsPortsCovered e.1) routes

  at-IsPortsCovered :
      (h : String) (routes : HostRoutes) → IsHostsCovered routes → IsPortsCovered (at h [] routes)
  unfolding find
  at-IsPortsCovered h routes ok = elim (Option-cases (find (λ a b. a == b) h routes)) [
    | inl absent ↦ rw absent tt
    | inr (ports, found) ↦
        rw found (All-find (λ a b. a == b) (λ _ ports. IsPortsCovered ports) h routes ok found).1
  ]

  at-All :
      (port : String) (ports : List (String × List HttpRoute))
      → IsPortsCovered ports
      → All (IsRouteCovered P) (at port [] ports)
  unfolding find
  at-All port ports ok = elim (Option-cases (find (λ a b. a == b) port ports)) [
    | inl absent ↦ rw absent tt
    | inr (rs, found) ↦
        rw found
          (All-find (λ a b. a == b) (λ _ rs. All (IsRouteCovered P) rs) port ports ok found).1
  ]

  add_host-IsHostsCovered :
      (port : String) (r : HttpRoute)
      → IsRouteCovered P r
      → (h : String) (state : PortHosts × HostRoutes) → IsHostsCovered state.1
      → IsHostsCovered (add_host port r h state).1
  unfolding add_host
  add_host-IsHostsCovered port r hr h (hosts, routes) ok =
      let at_h = at-IsPortsCovered h routes ok in
      All-upsert (λ a b. a == b) (λ _ ports. IsPortsCovered ports) h _ routes ok
        (λ _.
          All-upsert (λ a b. a == b) (λ _ rs. All (IsRouteCovered P) rs) port _ _ at_h
            (λ _. All-append (IsRouteCovered P) _ (r ∷ []) (at-All port _ at_h) (hr, tt)))

  fold-All :
      {A S : Type 0} (Q : A → Type 0) (R : S → Type 0) (f : A → S → S)
      → ((a : A) → Q a → (s : S) → R s → R (f a s))
      → (xs : List A) → All Q xs
      → (s : S) → R s
      → R (fold f xs s)
  fold-All Q R f step [] h s ok = ok
  fold-All Q R f step (x ∷ xs) h s ok = fold-All Q R f step xs h.1 (f x s) (step x h.0 s ok)

  abbrev IsListenerCovered : HttpListener → Type 0
  IsListenerCovered l = All (IsRouteCovered P) l.routes

  hosts_and_routes-IsHostsCovered :
      (listeners : List HttpListener)
      → All IsListenerCovered listeners
      → IsHostsCovered (hosts_and_routes listeners).1
  unfolding hosts_and_routes add_route
  hosts_and_routes-IsHostsCovered listeners h =
      let R = λ (s : PortHosts × HostRoutes). IsHostsCovered s.1 in
      fold-All IsListenerCovered R _
        (λ l hl s ok.
          fold-All (IsRouteCovered P) R (add_route l)
            (λ r hr s' ok'.
              fold-keeps R (add_host (port_of l) r) (add_host-IsHostsCovered (port_of l) r hr)
                (hosts_of l r) s' ok')
            l.routes hl s ok)
        listeners h ([], []) tt

  module _ (infra : Infra) (translator : DefaultTranslator) (listeners : List HttpListener)
      (hosts : PortHosts) (routes : HostRoutes) (ok : IsHostsCovered routes) where
    host_for-All :
        (redirect : Bool) (port h : String) (vh : VirtualHost)
        → host_for infra translator listeners hosts routes redirect port h ≡ some vh
        → All P (host_clusters vh)
    unfolding host_for
    host_for-All redirect port h vh e =
        let (listener_port, e1, e2) = >>=-eq-some (first_port listeners) _ e in
        new_virtual_host-All P infra (at port [] (at h [] routes))
          (parameter_for translator redirect h listener_port) vh e2
          (at-All port (at h [] routes) (at-IsPortsCovered h routes ok))

    abbrev IsConfigurationCovered : RouteConfiguration → Type 0
    IsConfigurationCovered rc = All P (configuration_clusters rc)

    configuration_for-All :
        (port : String) (rcs : List RouteConfiguration)
        → configuration_for infra translator listeners hosts routes port ≡ some rcs
        → All IsConfigurationCovered rcs
    unfolding configuration_for
    configuration_for-All port rcs e = elim (Option-cases (find (λ a b. a == b) port hosts)) [
      | inl absent ↦
          subst (All IsConfigurationCovered) (some_inj (rw (absent, configuration_for) at e))
            (empty-All ((port == "insecure") && not (is_nil listeners)))
      | inr (names, found) ↦
          let (first, e1, e2) =
            >>=-eq-some
              (traverse (host_for infra translator listeners hosts routes true "secure")
                (redirected infra translator listeners hosts routes port))
              _ (rw (found, configuration_for) at e) in
          let (second, e3, e4) =
            >>=-eq-some
              (traverse (host_for infra translator listeners hosts routes false port) (
                keep (is_served infra translator listeners hosts routes port) (infra.unique names)))
              _ e2 in
          subst (All IsConfigurationCovered) (some_inj e4) (
            vhs-All (stable_sort (λ a b. text_lt a.name b.name) (first ++ second)) (
                All-stable_sort (λ a b. text_lt a.name b.name) IsHostCovered (first ++ second)
                  (All-append IsHostCovered first second
                    (All-traverse IsHostCovered _ (host_for-All true "secure") _ first e1)
                    (All-traverse IsHostCovered _ (host_for-All false port) _ second e3))),
            tt,
          )
    ]
      where
        empty-All :
            (b : Bool)
            → All IsConfigurationCovered
                (if b then record { name = "listener-insecure"; virtual_hosts = [] } ∷ [] else [])
        empty-All true = (tt, tt)
        empty-All false = tt

        IsHostCovered : VirtualHost → Type 0
        IsHostCovered vh = All P (host_clusters vh)

        vhs-All :
            (vhs : List VirtualHost) → All IsHostCovered vhs → All P (gather host_clusters vhs)
        vhs-All [] h = tt
        vhs-All (vh ∷ vhs) h = All-append P (host_clusters vh) _ h.0 (vhs-All vhs h.1)

  pub get_envoy_http_route_configuration-All :
      (infra : Infra) (translator : DefaultTranslator) (m : Model.Model)
      → (rcs : List RouteConfiguration)
      → get_envoy_http_route_configuration infra translator m ≡ some rcs
      → All IsListenerCovered m.http
      → All P (gather configuration_clusters rcs)
  unfolding get_envoy_http_route_configuration
  get_envoy_http_route_configuration-All infra translator m rcs e h =
      let (hosts, routes) = hosts_and_routes m.http in
      let ok = hosts_and_routes-IsHostsCovered m.http h in
      let (insecure, e1, e2) =
        >>=-eq-some (configuration_for infra translator m.http hosts routes "insecure") _ e in
      let (secure, e3, e4) =
        >>=-eq-some (configuration_for infra translator m.http hosts routes "secure") _ e2 in
      let covered = configuration_for-All infra translator m.http hosts routes ok in
      subst (λ x. All P (gather configuration_clusters x)) (some_inj e4)
        (rcs-All (insecure ++ secure) (
          All-append _ insecure secure (covered "insecure" insecure e1)
            (covered "secure" secure e3)))
    where
      rcs-All :
          (rcs : List RouteConfiguration)
          → All (λ rc. All P (configuration_clusters rc)) rcs
          → All P (gather configuration_clusters rcs)
      rcs-All [] h = tt
      rcs-All (rc ∷ rcs) h = All-append P (configuration_clusters rc) _ h.0 (rcs-All rcs h.1)

module _ (infra : Infra) (lawful : IsInfra infra) (secrets_namespace : String) (idle : ℕ)
    (m : Model.Model) where
  abbrev IsMade : String → Type 0
  IsMade n = HasCluster (get_clusters infra secrets_namespace idle m) n

  backend-IsCovered :
      (be : Backend)
      → ((ns name port : String)
          → is_backend ns name port be ≡ true
          → any (λ l. any (is_of_route ns name port) l.routes) m.http ≡ true)
      → IsCovered IsMade be
  unfolding backend_cluster backend_port
  backend-IsCovered be found n e = elim (Option-cases be.port) [
    | inl nil ↦ cc (rw nil at e)
    | inr (p, has) ↦ subst IsMade (some_inj (rw has at e)) (
        get_clusters-HasCluster infra secrets_namespace idle m lawful be.namespace be.name
          (get_port p)
          (found be.namespace be.name (get_port p)
            (rw has (rw (eq_refl be.namespace, eq_refl be.name, eq_refl (get_port p)) refl))))
  ]

  mirror-IsMirrorCovered :
      (mirror : HttpRequestMirror)
      → ((ns name port : String)
          → is_mirror ns name port mirror ≡ true
          → any (λ l. any (is_of_route ns name port) l.routes) m.http ≡ true)
      → IsMirrorCovered IsMade mirror
  mirror-IsMirrorCovered mirror found = elim (Option-cases mirror.backend) [
    | inl nil ↦ rw nil tt
    | inr (be, has) ↦
        rw has (backend-IsCovered be (λ ns name port h. found ns name port (rw has h)))
  ]

  route-IsRouteCovered :
      (r : HttpRoute)
      → ((ns name port : String)
          → is_of_route ns name port r ≡ true
          → any (λ l. any (is_of_route ns name port) l.routes) m.http ≡ true)
      → IsRouteCovered IsMade r
  route-IsRouteCovered r found = record {
    backends =
        All-map
          (λ be among. backend-IsCovered be (λ ns name port h. found ns name port (
            or_left (any (is_mirror ns name port) r.request_mirrors)
              (among (is_backend ns name port) h))))
          r.backends (All-any r.backends);
    mirrors =
        All-map
          (λ mirror among. mirror-IsMirrorCovered mirror (λ ns name port h. found ns name port (
            or_right (any (is_backend ns name port) r.backends)
              (among (is_mirror ns name port) h))))
          r.request_mirrors (All-any r.request_mirrors);
  }
    where
      or_left : {a : Bool} (b : Bool) → a ≡ true → (a || b) ≡ true
      or_left b h = rw h refl

      or_right : (a : Bool) {b : Bool} → b ≡ true → (a || b) ≡ true
      or_right a h = ground (arith, h)

  -- Where the route configurations of a model are built, every cluster that one of their routes
  -- sends or mirrors requests to is among the clusters that are made for the model, whatever the
  -- settings of the two functions.
  pub get_envoy_http_route_configuration-HasCluster :
      (translator : DefaultTranslator) (configurations : List RouteConfiguration)
      → get_envoy_http_route_configuration infra translator m ≡ some configurations
      → All
          (HasCluster (get_clusters infra secrets_namespace idle m))
          (gather configuration_clusters configurations)
  get_envoy_http_route_configuration-HasCluster translator configurations e =
      get_envoy_http_route_configuration-All IsMade infra translator m configurations e (
        All-map
          (λ l in_model.
            All-map
              (λ r in_routes. route-IsRouteCovered r (λ ns name port h.
                in_model (λ l. any (is_of_route ns name port) l.routes)
                  (in_routes (is_of_route ns name port) h)))
              l.routes (All-any l.routes))
          m.http (All-any m.http))
