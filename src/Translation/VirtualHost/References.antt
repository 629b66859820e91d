-- ===== src/Translation/VirtualHost/References.antt =====
-- pkg/model/translation/envoy_virtual_host.go: the clusters that the routes of a virtual host name.
use controller_powered_by_di.Base.{
  ℕ, String, Bool, true, false, ◌&&◌, not, Option, none, some, List, [], ◌∷◌, ◌==◌, ◌≡◌, ap, subst,
  map, gather, traverse, deref_or, is_nil, is_some, if◌then◌else◌, Bool-cases, Option-cases, inl,
  inr, All, All-append, >>=-eq-some, some_inj,
}
use controller_powered_by_di.Base.StableSort.{All-stable_sort}
use controller_powered_by_di.Base.Assoc.{find, remove, All-find, All-upsert, All-remove}
use controller_powered_by_di.Model.{HttpRoute, Backend}
use controller_powered_by_di.Model.MatchKey.{get_match_key}
use controller_powered_by_di.Translation.Envoy.{Route, VirtualHost, Action}
use controller_powered_by_di.Translation.Infra.{Infra}
use controller_powered_by_di.Translation.Actions.References.{
  action_clusters, IsCovered, IsMirrorCovered, get_route_action-All,
}
use controller_powered_by_di.Translation.Actions.{get_route_action}
use controller_powered_by_di.Translation.VirtualHost.{
  VirtualHostParameter, less, sort_routes, group_routes, group_loop, keyed,
  envoy_http_route_no_backend, https_step, http_step, route_action, envoy_http_routes,
  envoy_https_routes, routes_for, host_with, domains_loop, new_virtual_host,
}

abbrev action_names : Action → List String
action_names (Action.route a) = action_clusters a
action_names _ = []

abbrev pub route_clusters : Option Route → List String
route_clusters none = []
route_clusters (some r) = action_names r.action

abbrev pub host_clusters : VirtualHost → List String
host_clusters vh = gather route_clusters vh.routes

module _ (P : String → Type 0) where
  -- The clusters of a route's backends, and of those that it mirrors to, have the property.
  pub record IsRouteCovered (r : HttpRoute) : Type 0 where
    pub backends : All (IsCovered P) r.backends
    pub mirrors : All (IsMirrorCovered P) r.request_mirrors

  -- The clusters that a route of Envoy names have it.
  abbrev IsNamingCovered : Option Route → Type 0
  IsNamingCovered o = All P (route_clusters o)

  abbrev IsKeyedCovered : String × HttpRoute → Type 0
  IsKeyedCovered e = IsRouteCovered e.1

  abbrev IsGroupsCovered : List (String × List HttpRoute) → Type 0
  IsGroupsCovered groups = All (λ e. All IsRouteCovered e.1) groups

  keyed-All : (rs : List HttpRoute) → All IsRouteCovered rs → All IsKeyedCovered (keyed rs)
  unfolding keyed get_match_key
  keyed-All [] h = tt
  keyed-All (r ∷ rs) h =
      (record { backends = h.0.backends; mirrors = h.0.mirrors }, keyed-All rs h.1)

  deref-All :
      (k : String) (groups : List (String × List HttpRoute))
      → IsGroupsCovered groups
      → All IsRouteCovered (deref_or (find (λ a b. a == b) k groups) [])
  deref-All k groups h = elim (Option-cases (find (λ a b. a == b) k groups)) [
    | inl absent ↦ rw absent tt
    | inr (group, found) ↦
        rw found (All-find (λ a b. a == b) (λ _ g. All IsRouteCovered g) k groups h found).1
  ]

  group_routes-All :
      (rs : List (String × HttpRoute)) (groups : List (String × List HttpRoute))
      → All IsKeyedCovered rs
      → IsGroupsCovered groups
      → IsGroupsCovered (group_routes rs groups)
  unfolding group_routes
  group_routes-All [] groups hr hg = hg
  group_routes-All ((k, r) ∷ rs) groups hr hg = group_routes-All rs _ hr.1 (
      All-upsert (λ a b. a == b) (λ _ g. All IsRouteCovered g) k _ groups hg
        (λ _. All-append IsRouteCovered _ (r ∷ []) (deref-All k groups hg) (hr.0, tt)))

  abbrev IsStepCovered : (HttpRoute → List HttpRoute → Option (Option Route × Bool)) → Type 0
  IsStepCovered step =
      (r : HttpRoute) (group : List HttpRoute) (made : Option Route × Bool)
      → step r group ≡ some made
      → IsRouteCovered r
      → All IsRouteCovered group
      → All P (route_clusters made.0)

  group_loop-All :
      (step : HttpRoute → List HttpRoute → Option (Option Route × Bool))
      → IsStepCovered step
      → (rs : List (String × HttpRoute)) (groups : List (String × List HttpRoute))
      → (out : List (Option Route)) → group_loop step rs groups ≡ some out
      → All IsKeyedCovered rs
      → IsGroupsCovered groups
      → All IsNamingCovered out
  unfolding group_loop
  group_loop-All step ok [] groups out e hr hg = subst (All IsNamingCovered) (some_inj e) tt
  group_loop-All step ok ((k, r) ∷ rs) groups out e hr hg =
      elim (Option-cases (find (λ a b. a == b) k groups)) [
        | inl absent ↦ group_loop-All step ok rs groups out (rw (absent, group_loop) at e) hr.1 hg
        | inr (group, found) ↦
            let (made, e1, e2) = >>=-eq-some (step r group) _ (rw (found, group_loop) at e) in
            let left = if made.1 then remove (λ a b. a == b) k groups else groups in
            let (rest, e3, e4) = >>=-eq-some (group_loop step rs left) _ e2 in
            let covered =
              (All-find (λ a b. a == b) (λ _ g. All IsRouteCovered g) k groups hg found).1 in
            subst (All IsNamingCovered) (some_inj e4) (
              ok r group made e1 hr.0 covered,
              group_loop-All step ok rs left rest e3 hr.1 (kept made.1),
            )
      ]
    where
      kept : (b : Bool) → IsGroupsCovered (if b then remove (λ a b. a == b) k groups else groups)
      kept true = All-remove (λ a b. a == b) (λ _ g. All IsRouteCovered g) k groups hg
      kept false = hg

  https_step-IsStepCovered :
      (hosts : List String) (suffix : Bool) → IsStepCovered (https_step hosts suffix)
  unfolding https_step
  https_step-IsStepCovered hosts suffix r [] made e hr hg = cc
  https_step-IsStepCovered hosts suffix r (h ∷ group) made e hr hg =
      subst (λ x. All P (route_clusters x.0)) (some_inj e) tt

  backends-All :
      (rs : List HttpRoute)
      → All IsRouteCovered rs
      → All (IsCovered P) (gather (λ r. r.backends) rs)
  backends-All [] h = tt
  backends-All (r ∷ rs) h = All-append (IsCovered P) r.backends _ h.0.backends (backends-All rs h.1)

  no_backend-All :
      (r : HttpRoute) (hosts : List String) (suffix : Bool)
      → All P (route_clusters (envoy_http_route_no_backend r hosts suffix))
  unfolding envoy_http_route_no_backend
  no_backend-All r hosts suffix = elim (Option-cases r.direct_response) [
    | inl nil ↦ rw nil tt
    | inr (response, found) ↦ rw found tt
  ]

  route_action-All :
      (r h : HttpRoute) (backends : List Backend) (port : ℕ) (a : Action)
      → route_action r h backends port ≡ some a
      → IsRouteCovered r
      → All (IsCovered P) backends
      → All P (action_names a)
  unfolding route_action
  route_action-All r h backends port a e hr hb = elim (Option-cases h.request_redirect) [
    | inl nil ↦
        let (action, e1, e2) =
          >>=-eq-some
            (get_route_action r backends r.backend_http_filters r.rewrite r.request_mirrors) _
            (rw nil at e) in
        subst (λ x. All P (action_names x)) (some_inj e2)
          (get_route_action-All P r backends r.backend_http_filters r.rewrite r.request_mirrors
            action e1 hb hr.mirrors)
    | inr (redirect, found) ↦ subst (λ x. All P (action_names x)) (some_inj (rw found at e)) tt
  ]

  http_step-IsStepCovered :
      (hosts : List String) (suffix : Bool) (port : ℕ) → IsStepCovered (http_step hosts suffix port)
  unfolding http_step
  http_step-IsStepCovered hosts suffix port r [] made e hr hg = cc
  http_step-IsStepCovered hosts suffix port r (h ∷ group) made e hr hg =
      let backends = gather (λ r. r.backends) (h ∷ group) in
      elim (Bool-cases (is_nil backends && not (is_some h.request_redirect))) [
        | inl empty ↦
            subst (λ x. All P (route_clusters x.0)) (some_inj (rw empty at e))
              (no_backend-All h hosts suffix)
        | inr served ↦
            let (action, e1, e2) =
              >>=-eq-some (route_action r h backends port) _ (rw served at e) in
            subst (λ x. All P (route_clusters x.0)) (some_inj e2)
              (route_action-All r h backends port action e1 hr (backends-All (h ∷ group) hg))
      ]

  routes_for-All :
      (rs : List HttpRoute) (param : VirtualHostParameter) (out : List (Option Route))
      → routes_for rs param ≡ some out
      → All IsRouteCovered rs
      → All IsNamingCovered out
  unfolding routes_for envoy_http_routes envoy_https_routes
  routes_for-All rs param out e h =
      let hk = keyed-All rs h in
      let hg = group_routes-All (keyed rs) [] hk tt in
      elim (Bool-cases param.https_redirect) [
        | inl redirect ↦
            group_loop-All (https_step param.host_names param.host_name_suffix_match)
              (https_step-IsStepCovered param.host_names param.host_name_suffix_match) (keyed rs) _
              out (rw redirect at e) hk hg
        | inr direct ↦
            group_loop-All
              (http_step param.host_names param.host_name_suffix_match param.listener_port)
              (http_step-IsStepCovered param.host_names param.host_name_suffix_match
                param.listener_port)
              (keyed rs) _ out (rw direct at e) hk hg
      ]

  present-All :
      (os : List (Option Route)) (rs : List Route)
      → traverse (λ o. o) os ≡ some rs
      → All IsNamingCovered os
      → All (λ r. IsNamingCovered (some r)) rs
  present-All [] rs e h = subst (All (λ r. IsNamingCovered (some r))) (some_inj e) tt
  present-All (none ∷ os) rs e h = cc
  present-All (some r ∷ os) rs e h =
      let (rest, e1, e2) = >>=-eq-some (traverse (λ o. o) os) _ e in
      subst (All (λ r. IsNamingCovered (some r))) (some_inj e2) (h.0, present-All os rest e1 h.1)

  map-some-All :
      (rs : List Route) → All (λ r. IsNamingCovered (some r)) rs → All IsNamingCovered (map some rs)
  map-some-All [] h = tt
  map-some-All (r ∷ rs) h = (h.0, map-some-All rs h.1)

  sort_routes-All :
      (infra : Infra) (os out : List (Option Route))
      → sort_routes infra os ≡ some out
      → All IsNamingCovered os
      → All IsNamingCovered out
  unfolding sort_routes
  sort_routes-All infra [] out e h = subst (All IsNamingCovered) (some_inj e) h
  sort_routes-All infra (o ∷ []) out e h = subst (All IsNamingCovered) (some_inj e) h
  sort_routes-All infra (o ∷ (o' ∷ os)) out e h =
      let (rs, e1, e2) = >>=-eq-some (traverse (λ x. x) (o ∷ (o' ∷ os))) _ e in
      subst (All IsNamingCovered) (some_inj e2) (
        map-some-All _ (
          All-stable_sort (less infra) (λ r. IsNamingCovered (some r)) rs
            (present-All (o ∷ (o' ∷ os)) rs e1 h)))

  gather-All :
      (os : List (Option Route)) → All IsNamingCovered os → All P (gather route_clusters os)
  gather-All [] h = tt
  gather-All (o ∷ os) h = All-append P (route_clusters o) _ h.0 (gather-All os h.1)

  host_with-routes :
      (domains : List String) (rs : List (Option Route)) (vh : VirtualHost)
      → host_with domains rs ≡ some vh
      → rs ≡ vh.routes
  unfolding host_with
  host_with-routes [] rs vh e = cc
  host_with-routes (d ∷ domains) rs vh e = ap (λ v. v.routes) (some_inj e)

  -- Where the backends of the routes that a virtual host is made of, and those that they mirror to,
  -- have clusters with a property, so have all clusters that the virtual host names.
  pub new_virtual_host-All :
      (infra : Infra) (rs : List HttpRoute) (param : VirtualHostParameter) (vh : VirtualHost)
      → new_virtual_host infra rs param ≡ some vh
      → All IsRouteCovered rs
      → All P (host_clusters vh)
  unfolding new_virtual_host
  new_virtual_host-All infra rs param vh e h =
      let (os, e1, e2) = >>=-eq-some (routes_for rs param) _ e in
      let (ordered, e3, e4) = >>=-eq-some (sort_routes infra os) _ e2 in
      subst (λ xs. All P (gather route_clusters xs))
        (host_with-routes (domains_loop [] param.host_names) ordered vh e4)
        (gather-All ordered (sort_routes-All infra os ordered e3 (routes_for-All rs param os e1 h)))
