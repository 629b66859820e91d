-- ===== src/Translation/Actions/Total.antt =====
-- pkg/model/translation/envoy_virtual_host.go: when an action is built without a panic.
use controller_powered_by_di.Base.{
  String, true, Option, none, some, List, [], ◌∷◌, ◌≡◌, refl, traverse, is_some, Option-cases, inl,
  inr, All, traverse-total, >>=-total,
}
use controller_powered_by_di.Model.{
  HttpRoute, Backend, HttpRequestMirror, HttpUrlRewriteFilter, BackendHttpFilter,
}
use controller_powered_by_di.Model.Ports.{backend_port, get_port}
use controller_powered_by_di.Translation.Envoy.{RouteAction, ClusterWeight, RequestMirrorPolicy}
use controller_powered_by_di.Translation.Actions.{
  get_cluster_name, backend_cluster, clusters_for, cluster_weight, filter_map, mutate,
  mirror_policies, request_mirror_mutation, get_route_action,
}

abbrev pub HasPort : Backend → Type 0
HasPort be = is_some be.port ≡ true

abbrev pub IsMirrorPorted : HttpRequestMirror → Type 0
IsMirrorPorted mirror = elim mirror.backend [ none ↦ Unit | some be ↦ HasPort be ]

backend_cluster-total : (be : Backend) → HasPort be → (n : String) × (backend_cluster be ≡ some n)
unfolding backend_cluster backend_port
backend_cluster-total be h = elim (Option-cases be.port) [
  | inl nil ↦ cc (rw nil at h)
  | inr (p, has) ↦ (get_cluster_name be.namespace be.name (get_port p), rw has refl)
]

cluster_weight-total :
    (filters : List (String × BackendHttpFilter)) (be : Backend)
    → HasPort be
    → (c : ClusterWeight) × (cluster_weight filters be ≡ some c)
unfolding cluster_weight
cluster_weight-total filters be h =
    >>=-total (backend_cluster be) _ (backend_cluster-total be h) (λ n. (_, refl))

clusters_for-total :
    (backends : List Backend) (filters : List BackendHttpFilter)
    → All HasPort backends
    → (a : RouteAction) × (clusters_for backends filters ≡ some a)
unfolding clusters_for
clusters_for-total [] filters h = (_, refl)
clusters_for-total (be ∷ []) filters h =
    >>=-total (backend_cluster be) _ (backend_cluster-total be h.0) (λ n. (_, refl))
clusters_for-total (be ∷ (other ∷ backends)) filters h =
    let weight = cluster_weight (filter_map filters []) in
    >>=-total (traverse weight (be ∷ (other ∷ backends))) _
      (traverse-total HasPort weight (cluster_weight-total (filter_map filters []))
        (be ∷ (other ∷ backends)) h)
      (λ cs. (_, refl))

mirror_policies-total :
    (mirrors : List HttpRequestMirror)
    → All IsMirrorPorted mirrors
    → (ps : List RequestMirrorPolicy) × (mirror_policies mirrors ≡ some ps)
unfolding mirror_policies
mirror_policies-total [] h = ([], refl)
mirror_policies-total (m ∷ mirrors) h =
    let (rest, e) = mirror_policies-total mirrors h.1 in
    elim (Option-cases m.backend) [
      | inl nil ↦ (rest, rw (e, nil) refl)
      | inr (be, has) ↦
          let (n, e') = backend_cluster-total be (rw has at h.0) in
          (record { cluster = n; numerator = 100 } ∷ rest, rw (e, has) (rw e' refl))
    ]

request_mirror_mutation-total :
    (mirrors : List HttpRequestMirror) (a : RouteAction)
    → All IsMirrorPorted mirrors
    → (b : RouteAction) × (request_mirror_mutation mirrors a ≡ some b)
unfolding request_mirror_mutation
request_mirror_mutation-total [] a h = (a, refl)
request_mirror_mutation-total (m ∷ mirrors) a h =
    >>=-total (mirror_policies (m ∷ mirrors)) _ (mirror_policies-total (m ∷ mirrors) h)
      (λ ps. (_, refl))

-- An action is built where every backend, and every one that is mirrored to, has a port.
pub get_route_action-total :
    (r : HttpRoute) (backends : List Backend) (filters : List BackendHttpFilter)
    (rewrite : Option HttpUrlRewriteFilter) (mirrors : List HttpRequestMirror)
    → All HasPort backends
    → All IsMirrorPorted mirrors
    → (a : RouteAction) × (get_route_action r backends filters rewrite mirrors ≡ some a)
unfolding get_route_action mutate
get_route_action-total r backends filters rewrite mirrors hb hm =
    >>=-total (clusters_for backends filters) _ (clusters_for-total backends filters hb)
      (λ base. >>=-total _ _ (request_mirror_mutation-total mirrors _ hm) (λ b. (_, refl)))
