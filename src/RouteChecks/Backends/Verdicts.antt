-- ===== src/RouteChecks/Backends/Verdicts.antt =====
-- When the checks of a route's backends pass, and what they leave where they do not.
use controller_powered_by_di.Base.{
  Bool, true, false, not, ◌&&◌, ◌≡◌, ◌≢◌, ◌↔◌, ◌⊎◌, inl, inr, refl, sym, ap, none, some, List,
  >>=-eq-some, some_inj, All, All-map, Any, Any-map, arith, is_some, Bool-cases, Option-cases,
  eq_iff, ◌==◌,
}
use controller_powered_by_di.Api.{ParentReference, Condition, RouteParentStatus, BackendRef}
use controller_powered_by_di.Helpers.Kinds.{is_service, is_service_import}
use controller_powered_by_di.Helpers.Grants.{
  namespace_deref_or, is_backend_reference_allowed, service_gvk,
}
use controller_powered_by_di.Helpers.Grants.Laws.{Permits, is_reference_allowed_iff}
use controller_powered_by_di.RouteChecks.Status.{Input}
use controller_powered_by_di.RouteChecks.Verdict.{Verdict, Verdict-map}
use controller_powered_by_di.RouteChecks.Backends.{
  reference_fault, backend_fault, check_backend, all_backends,
  check_against_cross_namespace_backend_references_v2,
}
use controller_powered_by_di.RouteChecks.Backends.Laws.{
  fault_loop-Verdict, fault_loop-total, fault_loop-none_iff,
}

All-iff :
    {P Q : BackendRef → Type 0} (refs : List BackendRef)
    → ((be : BackendRef) → P be ↔ Q be)
    → All P refs ↔ All Q refs
All-iff refs iff = (All-map (λ be. (iff be).0) refs, All-map (λ be. (iff be).1) refs)

-- A backend in the route's namespace, or one that a grant allows.
abbrev pub MayRefer : Input → BackendRef → Type 0
MayRefer input be =
    let target = namespace_deref_or be.namespace input.namespace in
    (input.namespace ≡ target)
    ⊎ Any (Permits input.namespace be.name target input.gvk service_gvk) input.grants

reference_fault_iff :
    (input : Input) (be : BackendRef)
    → (some (reference_fault input be) ≡ some none) ↔ MayRefer input be
unfolding reference_fault is_backend_reference_allowed
reference_fault_iff input be =
    let (sound, complete) =
      is_reference_allowed_iff input.namespace be.name be.namespace input.gvk service_gvk
        input.grants in
    elim (Bool-cases (namespace_deref_or be.namespace input.namespace == input.namespace)) [
      | inl same ↦ (λ _. inl (sym ((eq_iff _ _).0 same)), λ _. rw same refl)
      | inr differ ↦
          elim (Bool-cases
            (is_backend_reference_allowed input.namespace be.ref input.gvk input.grants)) [
              | inl allowed ↦ (λ _. sound allowed, λ _. rw (differ, allowed) refl)
              | inr refused ↦ (λ e. cc (rw (differ, refused) at e), λ m. cc (complete m))
            ]
    ]

reference_fault-typed :
    (input : Input) (be : BackendRef) (c : Condition)
    → reference_fault input be ≡ some c
    → (c.kind ≡ "ResolvedRefs") × (c.status ≡ "False")
unfolding reference_fault
reference_fault-typed input be c e = ground arith

-- The check of references across namespaces returns, and passes exactly where every backend is in
-- the route's namespace or allowed by a grant. It changes nothing where it passes; where it does
-- not, the parent has `ResolvedRefs` false, and the route's status at other parents stays.
pub check_cross_namespace-Verdict :
    (input : Input) (ref : ParentReference) (parents : List RouteParentStatus)
    → (after : Bool × List RouteParentStatus) × (check_against_cross_namespace_backend_references_v2
          input ref parents
        ≡ some after)
      × Verdict (All (MayRefer input) (all_backends input)) "ResolvedRefs" ref parents after
unfolding check_against_cross_namespace_backend_references_v2
check_cross_namespace-Verdict input ref parents =
    let (after, e) =
      fault_loop-total input ref (λ be. some (reference_fault input be)) (all_backends input)
        (true, parents) (λ be. (reference_fault input be, refl)) in
    (
      after,
      e,
      Verdict-map (All-iff (all_backends input) (reference_fault_iff input)) (
          fault_loop-Verdict input ref (λ be. some (reference_fault input be)) typed
            (all_backends input) parents after e),
    )
  where
    typed :
        (be : BackendRef) (c : Condition)
        → some (reference_fault input be) ≡ some (some c)
        → (c.kind ≡ "ResolvedRefs") × (c.status ≡ "False")
    typed be c e = reference_fault-typed input be c (some_inj e)

-- A service or an import of one, with a port.
pub record IsBackend (be : BackendRef) : Type 0 where
  pub kind : (is_service be.ref ≡ true) ⊎ (is_service_import be.ref ≡ true)
  pub port : is_some be.port ≡ true

-- A backend of another group than the services', without a kind.
pub record IsUnnamed (be : BackendRef) : Type 0 where
  pub kind : be.kind ≡ none
  pub service : is_service be.ref ≡ false

-- The test on the port, once the kind is fit.
port_iff :
    (be : BackendRef)
    → not (is_service be.ref) && not (is_service_import be.ref) ≡ false
    → (is_service be.ref ≡ true) ⊎ (is_service_import be.ref ≡ true)
    → (backend_fault be ≡ some none) ↔ IsBackend be
unfolding backend_fault
port_iff be fits kind = elim (Bool-cases (is_some be.port)) [
  | inl ported ↦ (λ _. record { kind = kind; port = ported }, λ _. rw (fits, ported) refl)
  | inr bare ↦ (λ e. cc (some_inj (rw (fits, bare) at e)), λ b. cc (b.port))
]

neither_fails :
    (be : BackendRef)
    → not (is_service be.ref) && not (is_service_import be.ref) ≡ true
    → backend_fault be ≢ some none
unfolding backend_fault
neither_fails be neither e =
    let (_, _, e') = >>=-eq-some be.kind _ (rw neither at e) in cc (some_inj e')

backend_fault_iff : (be : BackendRef) → (backend_fault be ≡ some none) ↔ IsBackend be
backend_fault_iff be = elim (Bool-cases (is_service be.ref)) [
  | inl service ↦ port_iff be (rw service refl) (inl service)
  | inr other ↦ elim (Bool-cases (is_service_import be.ref)) [
    | inl imported ↦ port_iff be (rw (other, imported) refl) (inr imported)
    | inr neither ↦ (
      λ e. elim (neither_fails be (rw (other, neither) refl) e) [ ],
      λ b. elim b.kind [ inl h ↦ cc | inr h ↦ cc ],
    )
  ]
]

backend_fault-typed :
    (be : BackendRef) (c : Condition)
    → backend_fault be ≡ some (some c)
    → (c.kind ≡ "ResolvedRefs") × (c.status ≡ "False")
unfolding backend_fault
backend_fault-typed be c e =
    elim (Bool-cases (not (is_service be.ref) && not (is_service_import be.ref))) [
      | inl neither ↦
          let (_, _, e') = >>=-eq-some be.kind _ (rw neither at e) in
          let same = some_inj (some_inj e') in
          (ap (λ x. x.kind) (sym same), ap (λ x. x.status) (sym same))
      | inr fits ↦ elim (Bool-cases (is_some be.port)) [
        | inl ported ↦ cc (some_inj (rw (fits, ported) at e))
        | inr bare ↦
            let same = some_inj (some_inj (rw (fits, bare) at e)) in
            (ap (λ x. x.kind) (sym same), ap (λ x. x.status) (sym same))
      ]
    ]

-- Where it returns, the check of the backends' kinds passes exactly where every backend is a
-- service or an import of one and has a port. It changes nothing where it passes; where it does
-- not, the parent has `ResolvedRefs` false, and the route's status at other parents stays.
pub check_backend-Verdict :
    (input : Input) (ref : ParentReference) (parents : List RouteParentStatus)
    (after : Bool × List RouteParentStatus)
    → check_backend input ref parents ≡ some after
    → Verdict (All IsBackend (all_backends input)) "ResolvedRefs" ref parents after
unfolding check_backend
check_backend-Verdict input ref parents after e =
    Verdict-map (All-iff (all_backends input) backend_fault_iff) (
      fault_loop-Verdict input ref backend_fault backend_fault-typed (all_backends input) parents
        after e)

unnamed-import : (be : BackendRef) → be.kind ≡ none → is_service_import be.ref ≡ false
unfolding is_service_import
unnamed-import be h = rw h refl

fits-IsUnnamed :
    (be : BackendRef)
    → not (is_service be.ref) && not (is_service_import be.ref) ≡ false
    → IsUnnamed be
    → ⊥
fits-IsUnnamed be fits u = cc (rw (u.service, unnamed-import be u.kind) at fits)

fits-total :
    (be : BackendRef)
    → not (is_service be.ref) && not (is_service_import be.ref) ≡ false
    → backend_fault be ≢ none
unfolding backend_fault
fits-total be fits e = elim (Bool-cases (is_some be.port)) [
  | inl ported ↦ cc (rw (fits, ported) at e)
  | inr bare ↦ cc (rw (fits, bare) at e)
]

backend_fault-none_iff : (be : BackendRef) → (backend_fault be ≡ none) ↔ IsUnnamed be
unfolding backend_fault
backend_fault-none_iff be =
    elim (Bool-cases (not (is_service be.ref) && not (is_service_import be.ref))) [
      | inl neither ↦ elim (Option-cases be.kind) [
        | inl unnamed ↦ (
          λ _. record { kind = unnamed; service = ground arith },
          λ _. rw neither (rw unnamed refl),
        )
        | inr (k, named) ↦ (λ e. cc (rw (neither, named) at e), λ u. cc (named, u.kind))
      ]
      | inr fits ↦ (λ e. elim (fits-total be fits e) [ ], λ u. elim (fits-IsUnnamed be fits u) [ ])
    ]

-- The check panics exactly where some backend has no kind and is of another group than the
-- services', since the message on its kind reads a nil pointer.
pub check_backend_panic_iff :
    (input : Input) (ref : ParentReference) (parents : List RouteParentStatus)
    → (check_backend input ref parents ≡ none) ↔ Any IsUnnamed (all_backends input)
unfolding check_backend
check_backend_panic_iff input ref parents =
    let (sound, complete) =
      fault_loop-none_iff input ref backend_fault (all_backends input) (true, parents) in
    (
      λ e. Any-map (λ be. (backend_fault-none_iff be).0) (sound e),
      λ u. complete (Any-map (λ be. (backend_fault-none_iff be).1) u),
    )
