-- ===== src/Translation/Actions/References.antt =====
-- pkg/model/translation/envoy_virtual_host.go: the clusters that an action names.
use controller_powered_by_di.Base.{
  ℕ, String, Option, none, some, List, [], ◌∷◌, ◌++◌, ◌≡◌, refl, ◌∙◌, ap, sym, subst, map, traverse,
  Option-cases, inl, inr, arith, All, All-append, >>=-eq-some, some_inj,
}
use controller_powered_by_di.Model.{
  HttpRoute, Backend, HttpRequestMirror, HttpUrlRewriteFilter, BackendHttpFilter,
}
use controller_powered_by_di.Translation.Envoy.{
  RouteAction, ClusterSpecifier, ClusterWeight, RequestMirrorPolicy,
}
use controller_powered_by_di.Translation.Actions.{
  backend_cluster, clusters_for, cluster_weight, filter_map, mutate, mirror_policies,
  request_mirror_mutation, timeout_mutation, path_full_replace_mutation, path_prefix_mutation,
  host_rewrite_mutation, replace_prefix, get_route_action,
}

-- The names of the clusters of an action, with those that requests are mirrored to.
abbrev specified : ClusterSpecifier → List String
specified (ClusterSpecifier.cluster name) = name ∷ []
specified (ClusterSpecifier.weighted_clusters clusters) = map (λ c. c.name) clusters

abbrev mirrored : List RequestMirrorPolicy → List String
mirrored policies = map (λ p. p.cluster) policies

abbrev pub action_clusters : RouteAction → List String
action_clusters a = specified a.cluster_specifier ++ mirrored a.request_mirror_policies

module _ (P : String → Type 0) where
  -- The clusters of a route's backends and of those that it mirrors to.
  abbrev pub IsCovered : Backend → Type 0
  IsCovered be = (n : String) → backend_cluster be ≡ some n → P n

  abbrev pub IsMirrorCovered : HttpRequestMirror → Type 0
  IsMirrorCovered mirror = elim mirror.backend [ none ↦ Unit | some be ↦ IsCovered be ]

  weights-All :
      (filters : List (String × BackendHttpFilter)) (backends : List Backend)
      (clusters : List ClusterWeight)
      → traverse (cluster_weight filters) backends ≡ some clusters
      → All IsCovered backends
      → All P (map (λ c. c.name) clusters)
  unfolding cluster_weight
  weights-All filters [] clusters e h = subst (λ cs. All P (map (λ c. c.name) cs)) (some_inj e) tt
  weights-All filters (be ∷ backends) clusters e h =
      let (c, made, e') = >>=-eq-some (cluster_weight filters be) _ e in
      let (rest, made_rest, e'') = >>=-eq-some (traverse (cluster_weight filters) backends) _ e' in
      let (name, at_name, made_c) = >>=-eq-some (backend_cluster be) _ made in
      subst (λ cs. All P (map (λ c. c.name) cs)) (some_inj e'')
        (
          subst P (ap (λ c. c.name) (some_inj made_c)) (h.0 name at_name),
          weights-All filters backends rest made_rest h.1,
        )

  clusters_for-All :
      (backends : List Backend) (filters : List BackendHttpFilter) (a : RouteAction)
      → clusters_for backends filters ≡ some a
      → All IsCovered backends
      → All P (specified a.cluster_specifier) × (a.request_mirror_policies ≡ [])
  unfolding clusters_for
  clusters_for-All [] filters a e h =
      subst (λ x. All P (specified x.cluster_specifier) × (x.request_mirror_policies ≡ []))
        (some_inj e) (tt, refl)
  clusters_for-All (be ∷ []) filters a e h =
      let (name, at_name, e') = >>=-eq-some (backend_cluster be) _ e in
      subst (λ x. All P (specified x.cluster_specifier) × (x.request_mirror_policies ≡ []))
        (some_inj e') ((h.0 name at_name, tt), refl)
  clusters_for-All (be ∷ (other ∷ backends)) filters a e h =
      let fs = filter_map filters [] in
      let (cs, made, e') =
        >>=-eq-some (traverse (cluster_weight fs) (be ∷ (other ∷ backends))) _ e in
      subst (λ x. All P (specified x.cluster_specifier) × (x.request_mirror_policies ≡ []))
        (some_inj e') (weights-All fs (be ∷ (other ∷ backends)) cs made h, refl)

  mirror_policies-All :
      (mirrors : List HttpRequestMirror) (policies : List RequestMirrorPolicy)
      → mirror_policies mirrors ≡ some policies
      → All IsMirrorCovered mirrors
      → All P (mirrored policies)
  unfolding mirror_policies
  mirror_policies-All [] policies e h = subst (λ ps. All P (mirrored ps)) (some_inj e) tt
  mirror_policies-All (m ∷ mirrors) policies e h =
      let (rest, made_rest, e') = >>=-eq-some (mirror_policies mirrors) _ e in
      let rest_covered = mirror_policies-All mirrors rest made_rest h.1 in
      elim (Option-cases m.backend) [
        | inl nil ↦ subst (λ ps. All P (mirrored ps)) (some_inj (rw nil at e')) rest_covered
        | inr (be, found) ↦
            let (name, at_name, e'') = >>=-eq-some (backend_cluster be) _ (rw found at e') in
            let covered = rw found at h.0 in
            subst (λ ps. All P (mirrored ps)) (some_inj e'') (covered name at_name, rest_covered)
      ]

-- What the mutators leave as it is.
abbrev rewritten : Option HttpUrlRewriteFilter → HttpRoute → RouteAction → RouteAction
rewritten rewrite r a =
    path_full_replace_mutation rewrite
      (path_prefix_mutation rewrite r (host_rewrite_mutation rewrite a))

rewritten-specifier :
    (rewrite : Option HttpUrlRewriteFilter) (r : HttpRoute) (a : RouteAction)
    → (rewritten rewrite r a).cluster_specifier ≡ a.cluster_specifier
unfolding path_full_replace_mutation path_prefix_mutation host_rewrite_mutation replace_prefix
rewritten-specifier rewrite r a = ground arith

rewritten-policies :
    (rewrite : Option HttpUrlRewriteFilter) (r : HttpRoute) (a : RouteAction)
    → (rewritten rewrite r a).request_mirror_policies ≡ a.request_mirror_policies
unfolding path_full_replace_mutation path_prefix_mutation host_rewrite_mutation replace_prefix
rewritten-policies rewrite r a = ground arith

request_mirror_mutation-All :
    (P : String → Type 0) (mirrors : List HttpRequestMirror) (a b : RouteAction)
    → request_mirror_mutation mirrors a ≡ some b
    → All P (specified a.cluster_specifier)
    → a.request_mirror_policies ≡ []
    → All (IsMirrorCovered P) mirrors
    → All P (action_clusters b)
unfolding request_mirror_mutation
request_mirror_mutation-All P [] a b e ok none_yet hm =
    subst (λ x. All P (action_clusters x)) (some_inj e)
      (All-append P (specified a.cluster_specifier) (mirrored a.request_mirror_policies) ok
        (subst (λ ps. All P (mirrored ps)) (sym none_yet) tt))
request_mirror_mutation-All P (m ∷ mirrors) a b e ok none_yet hm =
    let (policies, made, e') = >>=-eq-some (mirror_policies (m ∷ mirrors)) _ e in
    subst (λ x. All P (action_clusters x)) (some_inj e')
      (All-append P (specified a.cluster_specifier) (mirrored policies) ok
        (mirror_policies-All P (m ∷ mirrors) policies made hm))

timeout_mutation-clusters :
    (backend request : Option ℕ) (a : RouteAction)
    → action_clusters (timeout_mutation backend request a) ≡ action_clusters a
unfolding timeout_mutation
timeout_mutation-clusters none none a = refl
timeout_mutation-clusters none (some request) a = refl
timeout_mutation-clusters (some backend) none a = refl
timeout_mutation-clusters (some backend) (some request) a = refl

-- Where the backends of an action, and those that it mirrors to, have clusters with a property, so
-- have all clusters that the action names.
pub get_route_action-All :
    (P : String → Type 0) (r : HttpRoute) (backends : List Backend)
    (filters : List BackendHttpFilter) (rewrite : Option HttpUrlRewriteFilter)
    (mirrors : List HttpRequestMirror) (a : RouteAction)
    → get_route_action r backends filters rewrite mirrors ≡ some a
    → All (IsCovered P) backends
    → All (IsMirrorCovered P) mirrors
    → All P (action_clusters a)
unfolding get_route_action mutate
get_route_action-All P r backends filters rewrite mirrors a e hb hm =
    let (base, made, e') = >>=-eq-some (clusters_for backends filters) _ e in
    let (ok, none_yet) = clusters_for-All P backends filters base made hb in
    let (b, made_b, e'') =
      >>=-eq-some (request_mirror_mutation mirrors (rewritten rewrite r base)) _ e' in
    let all_b =
      request_mirror_mutation-All P mirrors (rewritten rewrite r base) b made_b
        (subst (λ s. All P (specified s)) (sym (rewritten-specifier rewrite r base)) ok)
        (rewritten-policies rewrite r base ∙ none_yet) hm in
    subst (λ x. All P (action_clusters x)) (some_inj e'')
      (subst (All P) (sym (timeout_mutation-clusters r.timeout.backend r.timeout.request b)) all_b)
