-- ===== src/Translation/Clusters/Members.antt =====
-- `getClusters` of pkg/model/translation/translator.go: which clusters there are.
use controller_powered_by_di.Base.{
  ℕ, String, Bool, true, false, ◌||◌, Option, some, List, [], ◌∷◌, ◌++◌, ◌==◌, ◌≡◌, refl, ◌∙◌, ap,
  sym, map, fold, any, any-append, is_some, contains, Bool-cases, Option-cases, inl, inr, arith,
  All, All-map, All-Any, ap₂, subst, All-append, fold-keeps, fold-reaches, Any-gather, Any-of-map,
  Any, any_sound, eq_iff, eq_refl,
}
use controller_powered_by_di.Base.Sort.{
  sort_texts, any-sort_texts, All-sort_texts, IsAscending, sort_texts-IsAscending,
}
use controller_powered_by_di.Base.Assoc.{find, upsert, find-upsert-text, find-text-Any}
use controller_powered_by_di.Model
use controller_powered_by_di.Translation.Infra.{Infra, IsInfra}
use controller_powered_by_di.Translation.BackendPorts.{
  NamespaceNamePorts, get_namespace_name_ports_map_for_http, get_namespace_name_ports_map_for_tls,
  get_namespace_name_ports_map_for_tcp,
}
use controller_powered_by_di.Translation.BackendPorts.Members.{
  has_port, is_of_route, get_namespace_name_ports_map_for_http-has_port,
}
use controller_powered_by_di.Translation.Actions.{get_cluster_name}
use controller_powered_by_di.Translation.Clusters.{
  Cluster, ClusterState, entry_name, entries, add_http_cluster, add_tcp_cluster, cluster_state,
  get_clusters, new_http_cluster, new_tcp_cluster, new_tcp_cluster_with_defaults, http_mutators,
  get_cluster_service_name,
}

-- Every name has a cluster of that name.
abbrev IsNamed : ClusterState → Type 0
unfolding find
IsNamed (clusters, names) =
    All (λ n. (c : Cluster) × (find (λ a b. a == b) n clusters ≡ some c) × (c.name ≡ n)) names

-- Another cluster of its own name keeps that.
upsert-IsNamed :
    (c : Cluster) (state : ClusterState)
    → IsNamed state
    → IsNamed (upsert (λ a b. a == b) c.name c state.0, state.1)
unfolding IsNamed
upsert-IsNamed c (clusters, names) h =
    All-map
      (λ n (d, found, named). elim (Bool-cases (c.name == n)) [
        | inl hit ↦ (c, find-upsert-text c.name n c clusters ∙ rw hit refl, (eq_iff c.name n).0 hit)
        | inr miss ↦ (d, find-upsert-text c.name n c clusters ∙ rw miss found, named)
      ])
      names h

append-IsNamed :
    (n : String) (c : Cluster) (state : ClusterState)
    → c.name ≡ n
    → IsNamed state
    → IsNamed (upsert (λ a b. a == b) n c state.0, state.1 ++ n ∷ [])
unfolding IsNamed
append-IsNamed n c (clusters, names) e h = rw (sym e) (
    All-append _ names (c.name ∷ []) (upsert-IsNamed c (clusters, names) h)
      ((c, find-upsert-text c.name c.name c clusters ∙ rw (eq_refl c.name) refl, refl), tt))

or_true : (b : Bool) → (b || (true || false)) ≡ true
or_true b = ground arith

module _ (infra : Infra) (secrets_namespace : String) (idle : ℕ) (m : Model.Model) where
  http_mutators-name :
      (n service port : String)
      → (new_http_cluster n service (http_mutators infra secrets_namespace idle m port)).name ≡ n
  unfolding new_http_cluster http_mutators
  http_mutators-name n service port = elim (Bool-cases (port == "443")) [
    | inl tls ↦ rw tls refl
    | inr plain ↦ rw plain refl
  ]

  add_http_cluster-IsNamed :
      (e : String × (String × String)) (state : ClusterState)
      → IsNamed state
      → IsNamed (add_http_cluster infra secrets_namespace idle m e state)
  unfolding add_http_cluster
  add_http_cluster-IsNamed (ns, (name, port)) state h =
      append-IsNamed (entry_name (ns, (name, port))) _ state (http_mutators-name _ _ port) h

  add_tcp_cluster-IsNamed :
      (e : String × (String × String)) (state : ClusterState)
      → IsNamed state
      → IsNamed (add_tcp_cluster infra secrets_namespace idle e state)
  unfolding add_tcp_cluster new_tcp_cluster_with_defaults new_tcp_cluster
  add_tcp_cluster-IsNamed (ns, (name, port)) (clusters, names) h =
      let n = entry_name (ns, (name, port)) in
      elim (Bool-cases (is_some (find (λ a b. a == b) n clusters))) [
        | inl old ↦ rw old h
        | inr new ↦ rw new (
            append-IsNamed n
              (new_tcp_cluster_with_defaults n (get_cluster_service_name ns name port))
              (clusters, names) refl h)
      ]

  -- The loops over the TLS and the TCP listeners keep what the one over the HTTP listeners gives.
  cluster_state-keeps :
      (P : ClusterState → Type 0)
      → ((e : String × (String × String)) (state : ClusterState)
          → P state
          → P (add_tcp_cluster infra secrets_namespace idle e state))
      → P (
          fold
            (add_http_cluster infra secrets_namespace idle m)
            (entries (get_namespace_name_ports_map_for_http infra m))
            ([], []))
      → P (cluster_state infra secrets_namespace idle m)
  unfolding cluster_state
  cluster_state-keeps P keeps h =
      let add_tcp = add_tcp_cluster infra secrets_namespace idle in
      fold-keeps P add_tcp keeps (entries (get_namespace_name_ports_map_for_tcp infra m)) _
        (fold-keeps P add_tcp keeps (entries (get_namespace_name_ports_map_for_tls infra m)) _ h)

  cluster_state-IsNamed : IsNamed (cluster_state infra secrets_namespace idle m)
  unfolding IsNamed
  cluster_state-IsNamed = cluster_state-keeps IsNamed add_tcp_cluster-IsNamed (
      fold-keeps IsNamed (add_http_cluster infra secrets_namespace idle m) add_http_cluster-IsNamed
        (entries (get_namespace_name_ports_map_for_http infra m)) ([], []) tt)

  -- A name that is there stays.
  add_http_cluster-contains :
      (n : String) (e : String × (String × String)) (state : ClusterState)
      → contains state.1 n ≡ true
      → contains (add_http_cluster infra secrets_namespace idle m e state).1 n ≡ true
  unfolding add_http_cluster
  add_http_cluster-contains n (ns, (name, port)) (clusters, names) h =
      rw (any-append (λ x. x == n) names (entry_name (ns, (name, port)) ∷ []), h) refl

  add_tcp_cluster-contains :
      (n : String) (e : String × (String × String)) (state : ClusterState)
      → contains state.1 n ≡ true
      → contains (add_tcp_cluster infra secrets_namespace idle e state).1 n ≡ true
  unfolding add_tcp_cluster
  add_tcp_cluster-contains n (ns, (name, port)) (clusters, names) h =
      elim (Bool-cases (is_some (find (λ a b. a == b) (entry_name (ns, (name, port))) clusters))) [
        | inl old ↦ rw old h
        | inr new ↦
            rw new (any-append (λ x. x == n) names (entry_name (ns, (name, port)) ∷ []) ∙ rw h refl)
      ]

  add_http_cluster-adds :
      (e : String × (String × String)) (s : ClusterState)
      → contains (add_http_cluster infra secrets_namespace idle m e s).1 (entry_name e) ≡ true
  unfolding add_http_cluster
  add_http_cluster-adds (ns, (name, port)) (clusters, names) =
      let n = entry_name (ns, (name, port)) in
      any-append (λ x. x == n) names (n ∷ [])
      ∙ (ap (λ b. any (λ x. x == n) names || (b || false)) (eq_refl n)
          ∙ or_true (any (λ x. x == n) names))

  cluster_state-contains :
      (e : String × (String × String))
      → Any (λ x. x ≡ e) (entries (get_namespace_name_ports_map_for_http infra m))
      → contains (cluster_state infra secrets_namespace idle m).1 (entry_name e) ≡ true
  cluster_state-contains e h =
      let P = λ (s : ClusterState). contains s.1 (entry_name e) ≡ true in
      cluster_state-keeps P (add_tcp_cluster-contains (entry_name e)) (
        fold-reaches P (add_http_cluster infra secrets_namespace idle m)
          (add_http_cluster-contains (entry_name e)) (add_http_cluster-adds e) h ([], []))

-- The entries of a map have its ports.
entries-Any :
    (ns name port : String) (ports : NamespaceNamePorts)
    → has_port ns name port ports ≡ true
    → Any (λ x. x ≡ (ns, (name, port))) (entries ports)
unfolding entries find
entries-Any ns name port ports h = elim (Option-cases (find (λ a b. a == b) ns ports)) [
  | inl no_names ↦ cc (rw no_names at h)
  | inr (names, found) ↦ elim (Option-cases (find (λ a b. a == b) name names)) [
    | inl no_ports ↦ cc (rw (found, no_ports) at h)
    | inr (list, at_name) ↦
        Any-gather _ _
          (λ e same. rw same (
            Any-gather _ _
              (λ e' same'. rw same' (
                Any-of-map _ _ (λ q hit. ap (λ q'. (ns, (name, q'))) ((eq_iff q port).0 hit))
                  (any_sound (λ x. x == port) list (rw (found, at_name) at h))))
              (find-text-Any name names at_name)))
          (find-text-Any ns ports found)
  ]
]

abbrev pub IsCluster : String → Option Cluster → Type 0
IsCluster n o = (c : Cluster) × (o ≡ some c) × (c.name ≡ n)

-- A cluster of the name is among the resources.
abbrev pub HasCluster : List (Option Cluster) → String → Type 0
HasCluster resources n = Any (IsCluster n) resources

module _ (infra : Infra) (secrets_namespace : String) (idle : ℕ) (m : Model.Model) where
  sorted-IsNamed :
      let state = cluster_state infra secrets_namespace idle m in
      All
        (λ n. (c : Cluster) × (find (λ a b. a == b) n state.0 ≡ some c) × (c.name ≡ n))
        (sort_texts state.1)
  unfolding IsNamed
  sorted-IsNamed = All-sort_texts _ _ (cluster_state-IsNamed infra secrets_namespace idle m)

  -- For every port of a backend of a route of an HTTP listener, or of a backend that one mirrors to,
  -- a cluster is made whose name is that of the backend with this port.
  pub get_clusters-HasCluster :
      IsInfra infra
      → (ns name port : String) → any (λ l. any (is_of_route ns name port) l.routes) m.http ≡ true
      → HasCluster (get_clusters infra secrets_namespace idle m) (get_cluster_name ns name port)
  unfolding get_clusters entry_name
  get_clusters-HasCluster lawful ns name port h =
      let state = cluster_state infra secrets_namespace idle m in
      let n = get_cluster_name ns name port in
      let there_is =
        cluster_state-contains infra secrets_namespace idle m (ns, (name, port))
          (entries-Any ns name port (get_namespace_name_ports_map_for_http infra m)
            (get_namespace_name_ports_map_for_http-has_port infra lawful ns name port m ∙ h)) in
      Any-of-map _ _ (λ x ((c, found, named), same). (c, found, named ∙ (eq_iff x n).0 same))
        (All-Any sorted-IsNamed (
          any_sound (λ x. x == n) (sort_texts state.1)
            (any-sort_texts (λ x. x == n) state.1 ∙ there_is)))

  -- Every resource is a cluster, and the clusters stand in the ascending order of their names.
  pub get_clusters-IsAscending :
      (cs : List Cluster) × (get_clusters infra secrets_namespace idle m ≡ map some cs)
      × IsAscending (map (λ c. c.name) cs)
  unfolding get_clusters
  get_clusters-IsAscending =
      let state = cluster_state infra secrets_namespace idle m in
      let (cs, made, names) = found_all state.0 (sort_texts state.1) sorted-IsNamed in
      (cs, made, subst IsAscending (sym names) (sort_texts-IsAscending state.1))
    where
      found_all :
          (clusters : List (String × Cluster)) (ns : List String)
          → All (λ n. (c : Cluster) × (find (λ a b. a == b) n clusters ≡ some c) × (c.name ≡ n)) ns
          → (cs : List Cluster) × (map (λ n. find (λ a b. a == b) n clusters) ns ≡ map some cs)
            × (map (λ c. c.name) cs ≡ ns)
      found_all clusters [] h = ([], refl, refl)
      found_all clusters (n ∷ ns) ((c, found, named), h) =
          let (cs, made, names) = found_all clusters ns h in
          (c ∷ cs, ap₂ (λ x xs. x ∷ xs) found made, ap₂ (λ x xs. x ∷ xs) named names)
