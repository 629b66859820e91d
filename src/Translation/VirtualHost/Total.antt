-- ===== src/Translation/VirtualHost/Total.antt =====
-- pkg/model/translation/envoy_virtual_host.go: when the routes of a virtual host are built without a
-- panic.
use controller_powered_by_di.Base.{
  ℕ, String, Bool, true, false, ◌&&◌, not, Option, some, List, [], ◌∷◌, ◌++◌, ◌==◌, ◌≡◌, refl,
  ◌>>=◌, map, gather, deref_or, is_nil, is_some, Bool-cases, Option-cases, inl, inr, All,
  All-append,
}
use controller_powered_by_di.Base.Assoc.{find, remove, All-find, All-upsert, All-remove}
use controller_powered_by_di.Model.{HttpRoute, Backend}
use controller_powered_by_di.Model.MatchKey.{get_match_key}
use controller_powered_by_di.Translation.Envoy.{Route, Action}
use controller_powered_by_di.Translation.Actions.Total.{
  HasPort, IsMirrorPorted, get_route_action-total,
}
use controller_powered_by_di.Translation.Actions.{get_route_redirect}
use controller_powered_by_di.Translation.VirtualHost.{
  VirtualHostParameter, group_routes, group_loop, keyed, https_step, http_step, route_action,
  envoy_http_routes, envoy_https_routes, routes_for,
}

-- A route with a port at each of its backends, also of the mirrors, that has a backend or redirects.
pub record IsServable (r : HttpRoute) : Type 0 where
  pub backends : All HasPort r.backends
  pub mirrors : All IsMirrorPorted r.request_mirrors
  pub served : (is_nil r.backends && not (is_some r.request_redirect)) ≡ false

abbrev IsKeyedServable : String × HttpRoute → Type 0
IsKeyedServable e = IsServable e.1

-- A group has a route.
abbrev IsGroup : List HttpRoute → Type 0
IsGroup group = All IsServable group × (is_nil group ≡ false)

abbrev IsGroups : List (String × List HttpRoute) → Type 0
IsGroups groups = All (λ e. IsGroup e.1) groups

keyed-All : (rs : List HttpRoute) → All IsServable rs → All IsKeyedServable (keyed rs)
unfolding keyed get_match_key
keyed-All [] h = tt
keyed-All (r ∷ rs) h = (
  record { backends = h.0.backends; mirrors = h.0.mirrors; served = h.0.served },
  keyed-All rs h.1,
)

deref-All :
    (k : String) (groups : List (String × List HttpRoute))
    → IsGroups groups
    → All IsServable (deref_or (find (λ a b. a == b) k groups) [])
deref-All k groups h = elim (Option-cases (find (λ a b. a == b) k groups)) [
  | inl absent ↦ rw absent tt
  | inr (group, found) ↦ rw found (All-find (λ a b. a == b) (λ _ g. IsGroup g) k groups h found).1.0
]

append-not-nil : (xs : List HttpRoute) (r : HttpRoute) → is_nil (xs ++ r ∷ []) ≡ false
append-not-nil [] r = refl
append-not-nil (x ∷ xs) r = refl

group_routes-IsGroups :
    (rs : List (String × HttpRoute)) (groups : List (String × List HttpRoute))
    → All IsKeyedServable rs
    → IsGroups groups
    → IsGroups (group_routes rs groups)
unfolding group_routes
group_routes-IsGroups [] groups hr hg = hg
group_routes-IsGroups ((k, r) ∷ rs) groups hr hg = group_routes-IsGroups rs _ hr.1 (
    All-upsert (λ a b. a == b) (λ _ g. IsGroup g) k _ groups hg
      (λ _. (
        All-append IsServable _ (r ∷ []) (deref-All k groups hg) (hr.0, tt),
        append-not-nil (deref_or (find (λ a b. a == b) k groups) []) r,
      )))

-- A step that makes a route of every group.
abbrev IsStepTotal : (HttpRoute → List HttpRoute → Option (Option Route × Bool)) → Type 0
IsStepTotal step =
    (r : HttpRoute) (group : List HttpRoute)
    → IsServable r
    → IsGroup group
    → (made : Route) × (step r group ≡ some (some made, true))

group_loop-total :
    (step : HttpRoute → List HttpRoute → Option (Option Route × Bool))
    → IsStepTotal step
    → (rs : List (String × HttpRoute)) (groups : List (String × List HttpRoute))
    → All IsKeyedServable rs
    → IsGroups groups
    → (built : List Route) × (group_loop step rs groups ≡ some (map some built))
unfolding group_loop
group_loop-total step ok [] groups hr hg = ([], refl)
group_loop-total step ok ((k, r) ∷ rs) groups hr hg =
    elim (Option-cases (find (λ a b. a == b) k groups)) [
      | inl absent ↦
          let (built, e) = group_loop-total step ok rs groups hr.1 hg in
          (built, rw (absent, group_loop) e)
      | inr (group, found) ↦
          let covered = (All-find (λ a b. a == b) (λ _ g. IsGroup g) k groups hg found).1 in
          let (made, e) = ok r group hr.0 covered in
          let (built, e') =
            group_loop-total step ok rs (remove (λ a b. a == b) k groups) hr.1
              (All-remove (λ a b. a == b) (λ _ g. IsGroup g) k groups hg) in
          (made ∷ built, rw (found, group_loop) (rw e (rw e' refl)))
    ]

https_step-total : (hosts : List String) (suffix : Bool) → IsStepTotal (https_step hosts suffix)
unfolding https_step
https_step-total hosts suffix r [] hr hg = cc
https_step-total hosts suffix r (h ∷ group) hr hg = (_, refl)

backends-All : (rs : List HttpRoute) → All IsServable rs → All HasPort (gather (λ r. r.backends) rs)
backends-All [] h = tt
backends-All (r ∷ rs) h = All-append HasPort r.backends _ h.0.backends (backends-All rs h.1)

route_action-total :
    (r h : HttpRoute) (backends : List Backend) (port : ℕ)
    → IsServable r
    → All HasPort backends
    → (a : Action) × (route_action r h backends port ≡ some a)
unfolding route_action
route_action-total r h backends port hr hb = elim (Option-cases h.request_redirect) [
  | inl nil ↦
      let (a, e) =
        get_route_action-total r backends r.backend_http_filters r.rewrite r.request_mirrors hb
          hr.mirrors in
      (Action.route a, rw nil (rw e refl))
  | inr (redirect, found) ↦ (Action.redirect (get_route_redirect redirect port), rw found refl)
]

is_nil-append :
    (xs ys : List Backend) (b : Bool) → (is_nil xs && b) ≡ false → (is_nil (xs ++ ys) && b) ≡ false
is_nil-append [] [] b h = h
is_nil-append [] (y ∷ ys) b h = refl
is_nil-append (x ∷ xs) ys b h = refl

made_of :
    (m : Option Action) (f : Action → Route)
    → (a : Action) × (m ≡ some a)
    → (made : Route) × ((◌>>=◌ {B = Option Route × Bool} m (λ a. some (some (f a), true)))
        ≡ some (some made, true))
made_of m f (a, e) = (f a, rw e refl)

http_step-total :
    (hosts : List String) (suffix : Bool) (port : ℕ) → IsStepTotal (http_step hosts suffix port)
unfolding http_step
http_step-total hosts suffix port r [] hr hg = cc
http_step-total hosts suffix port r (h ∷ group) hr hg =
    let backends = gather (λ r. r.backends) (h ∷ group) in
    let served =
      is_nil-append h.backends (gather (λ r. r.backends) group) (not (is_some h.request_redirect))
        hg.0.0.served in
    rw served (
      made_of (route_action r h backends port) _
        (route_action-total r h backends port hr (backends-All (h ∷ group) hg.0)))

-- Where every backend of the routes has a port, also the ones that they mirror to, and every route
-- has a backend or redirects, the routes of Envoy are built, and none of them is nil.
pub routes_for-total :
    (rs : List HttpRoute) (param : VirtualHostParameter)
    → All IsServable rs
    → (built : List Route) × (routes_for rs param ≡ some (map some built))
unfolding routes_for envoy_http_routes envoy_https_routes
routes_for-total rs param h =
    let hk = keyed-All rs h in
    let hg = group_routes-IsGroups (keyed rs) [] hk tt in
    elim (Bool-cases param.https_redirect) [
      | inl redirect ↦
          let (built, e) =
            group_loop-total (https_step param.host_names param.host_name_suffix_match)
              (https_step-total param.host_names param.host_name_suffix_match) (keyed rs)
              (group_routes (keyed rs) []) hk hg in
          (built, rw redirect e)
      | inr direct ↦
          let (built, e) =
            group_loop-total
              (http_step param.host_names param.host_name_suffix_match param.listener_port)
              (http_step-total param.host_names param.host_name_suffix_match param.listener_port)
              (keyed rs) (group_routes (keyed rs) []) hk hg in
          (built, rw direct e)
    ]
