-- ===== src/Translation/BackendPorts/Members.antt =====
-- pkg/model/translation/translator.go: which ports the map of the backends has.
use controller_powered_by_di.Base.{
  String, Bool, false, ◌&&◌, ◌||◌, none, some, List, [], ◌∷◌, ◌++◌, ◌==◌, ◌≡◌, refl, ◌∙◌, ap, sym,
  fold, any, any-append, contains, if◌then◌else◌, Bool-cases, Option-cases, inl, inr, arith, eq_iff,
}
use controller_powered_by_di.Base.Assoc.{find, find-upsert-text}
use controller_powered_by_di.Model
use controller_powered_by_di.Model.{
  Backend, BackendPort, HttpRoute, HttpListener, HttpRequestMirror,
}
use controller_powered_by_di.Model.Ports.{get_port}
use controller_powered_by_di.Translation.Infra.{Infra, IsInfra}
use controller_powered_by_di.Translation.BackendPorts.{
  NamePorts, NamespaceNamePorts, at, put, merge_backend, merge_backends_in_namespace_name_port_map,
  merge_mirror, merge_http_route, merge_http, get_namespace_name_ports_map_for_http,
}

-- Whether `m[ns][name]` has the port.
abbrev pub has_port : String → String → String → NamespaceNamePorts → Bool
has_port ns name port m = contains (at name [] (at ns [] m)) port

-- Whether a backend is that port.
abbrev pub is_backend : String → String → String → Backend → Bool
is_backend ns name port be = elim be.port [
  | none ↦ false
  | some p ↦ (be.namespace == ns) && ((be.name == name) && (get_port p == port))
]

abbrev pub is_mirror : String → String → String → HttpRequestMirror → Bool
is_mirror ns name port mirror = elim mirror.backend [
  | none ↦ false
  | some be ↦ is_backend ns name port be
]

abbrev pub is_of_route : String → String → String → HttpRoute → Bool
is_of_route ns name port r =
    any (is_backend ns name port) r.backends || any (is_mirror ns name port) r.request_mirrors

at-put :
    {V : Type 0} (k l : String) (empty v : V) (m : List (String × V))
    → at l empty (put k v m) ≡ (if k == l then v else at l empty m)
at-put k l empty v m = elim (Bool-cases (k == l)) [
  | inl hit ↦ rw (find-upsert-text k l v m, hit) refl
  | inr miss ↦ rw (find-upsert-text k l v m, miss) refl
]

or_false : (a : Bool) → a ≡ (a || false)
or_false a = ground arith

or_assoc : (a b c : Bool) → ((a || b) || c) ≡ (a || (b || c))
or_assoc a b c = ground arith

module _ (infra : Infra) (lawful : IsInfra infra) (ns name port : String) where
  put-contains :
      (k q : String) (ports : NamePorts)
      → contains (at name [] (put k (infra.sorted_uniqs (at k [] ports ++ q ∷ [])) ports)) port
        ≡ (contains (at name [] ports) port || ((k == name) && (q == port)))
  put-contains k q ports = elim (Bool-cases (k == name)) [
    | inl hit ↦
        rw
          (
            at-put k name [] (infra.sorted_uniqs (at k [] ports ++ q ∷ [])) ports,
            hit,
            lawful.contains-sorted_uniqs (at k [] ports ++ q ∷ []) port,
            any-append (λ x. x == port) (at k [] ports) (q ∷ []),
            (eq_iff k name).0 hit,
          )
          (ap (λ b. contains (at name [] ports) port || b) (sym (or_false (q == port))))
    | inr miss ↦
        rw (at-put k name [] (infra.sorted_uniqs (at k [] ports ++ q ∷ [])) ports, miss)
          (or_false _)
  ]

  merge_backend-has_port :
      (be : Backend) (m : NamespaceNamePorts)
      → has_port ns name port (merge_backend infra be m)
        ≡ (has_port ns name port m || is_backend ns name port be)
  unfolding merge_backend
  merge_backend-has_port be m = elim (Option-cases be.port) [
    | inl nil ↦ rw nil (or_false (has_port ns name port m))
    | inr (p, found) ↦ rw found (with_port p)
  ]
    where
      with_port :
          (p : BackendPort)
          → has_port ns name port (
              put be.namespace
                (put be.name
                  (infra.sorted_uniqs (at be.name [] (at be.namespace [] m) ++ get_port p ∷ []))
                  (at be.namespace [] m))
                m)
            ≡ (has_port ns name port m
                || ((be.namespace == ns) && ((be.name == name) && (get_port p == port))))
      with_port p = elim (Bool-cases (be.namespace == ns)) [
        | inl hit ↦
            rw (at-put be.namespace ns [] _ m, hit)
              (put-contains be.name (get_port p) (at be.namespace [] m)
                ∙ ap (λ n. has_port n name port m || ((be.name == name) && (get_port p == port)))
                    ((eq_iff be.namespace ns).0 hit))
        | inr miss ↦ rw (at-put be.namespace ns [] _ m, miss) (or_false (has_port ns name port m))
      ]

  fold-has_port :
      {A : Type 0} (f : A → NamespaceNamePorts → NamespaceNamePorts) (t : A → Bool)
      → ((a : A) (m : NamespaceNamePorts)
          → has_port ns name port (f a m) ≡ (has_port ns name port m || t a))
      → (xs : List A) (m : NamespaceNamePorts)
      → has_port ns name port (fold f xs m) ≡ (has_port ns name port m || any t xs)
  fold-has_port f t h [] m = or_false (has_port ns name port m)
  fold-has_port f t h (x ∷ xs) m =
      rw (fold-has_port f t h xs (f x m), h x m)
        (or_assoc (has_port ns name port m) (t x) (any t xs))

  merge_mirror-has_port :
      (mirror : HttpRequestMirror) (m : NamespaceNamePorts)
      → has_port ns name port (merge_mirror infra mirror m)
        ≡ (has_port ns name port m || is_mirror ns name port mirror)
  unfolding merge_mirror merge_backends_in_namespace_name_port_map
  merge_mirror-has_port mirror m = elim (Option-cases mirror.backend) [
    | inl nil ↦ rw nil (or_false (has_port ns name port m))
    | inr (be, found) ↦ rw found (merge_backend-has_port be m)
  ]

  merge_http_route-has_port :
      (r : HttpRoute) (m : NamespaceNamePorts)
      → has_port ns name port (merge_http_route infra r m)
        ≡ (has_port ns name port m || is_of_route ns name port r)
  unfolding merge_http_route merge_backends_in_namespace_name_port_map
  merge_http_route-has_port r m =
      fold-has_port (merge_mirror infra) _ merge_mirror-has_port r.request_mirrors _
      ∙ rw (fold-has_port (merge_backend infra) _ merge_backend-has_port r.backends m)
          (or_assoc (has_port ns name port m) _ _)

  -- The map of the HTTP listeners has a port of a namespace and a name exactly where it is the port
  -- of a backend of one of their routes, or of a backend that one of them mirrors to.
  pub get_namespace_name_ports_map_for_http-has_port :
      (m : Model.Model)
      → has_port ns name port (get_namespace_name_ports_map_for_http infra m)
        ≡ any (λ l. any (is_of_route ns name port) l.routes) m.http
  unfolding get_namespace_name_ports_map_for_http merge_http find
  get_namespace_name_ports_map_for_http-has_port m =
      fold-has_port _ _
        (λ l.
          fold-has_port (merge_http_route infra) (is_of_route ns name port)
            merge_http_route-has_port l.routes)
        m.http []
