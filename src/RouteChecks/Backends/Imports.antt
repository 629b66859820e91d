-- ===== src/RouteChecks/Backends/Imports.antt =====
-- When the check of imports of services passes.
use controller_powered_by_di.Base.{
  Bool, true, false, ◌≡◌, refl, ◌⊎◌, inl, inr, List, [], ◌∷◌, All, Bool-cases,
}
use controller_powered_by_di.Api.{ParentReference, RouteParentStatus, BackendRef}
use controller_powered_by_di.Helpers.Kinds.{is_service_import}
use controller_powered_by_di.RouteChecks.Status.{Input}
use controller_powered_by_di.RouteChecks.Verdict.{Verdict, Verdict-map, pass-Verdict, fail-Verdict}
use controller_powered_by_di.RouteChecks.Backends.{
  all_backends, import_loop, unsupported_import, check_has_service_import_support,
}

-- Imports are supported, or none of the backends is one.
abbrev pub CanImport : Bool → List BackendRef → Type 0
CanImport has refs = (has ≡ true) ⊎ All (λ be. is_service_import be.ref ≡ false) refs

module _ (has : Bool) (input : Input) (ref : ParentReference)
    (parents : List RouteParentStatus) where
  import_loop-Verdict :
      (refs : List BackendRef)
      → Verdict
          (CanImport has refs)
          "ResolvedRefs"
          ref
          parents
          (import_loop has input ref refs parents)
  unfolding import_loop
  import_loop-Verdict [] = pass-Verdict _ "ResolvedRefs" input ref parents (inr tt)
  import_loop-Verdict (be ∷ refs) = elim (Bool-cases (is_service_import be.ref)) [
    | inr other ↦ rw other (
        Verdict-map
          (
            λ s. elim s [ inl h ↦ inl h | inr rest ↦ inr (refl, rest) ],
            λ s. elim s [ inl h ↦ inl h | inr both ↦ inr both.1 ],
          )
          (import_loop-Verdict refs))
    | inl imported ↦ elim (Bool-cases has) [
      | inl known ↦
          rw (imported, known) (pass-Verdict _ "ResolvedRefs" input ref parents (inl refl))
      | inr unknown ↦
          rw (imported, unknown)
            (fail-Verdict _ "ResolvedRefs" input ref parents unsupported_import refl refl
              (λ s. elim s [ inl h ↦ cc | inr both ↦ cc (both.0) ]))
    ]
  ]

  -- The check of imports passes exactly where imports of services are supported or no backend is
  -- one. It changes nothing where it passes; where it does not, the parent has `ResolvedRefs`
  -- false, and the route's status at other parents stays.
  pub check_has_service_import_support-Verdict :
      Verdict
        (CanImport has (all_backends input))
        "ResolvedRefs"
        ref
        parents
        (check_has_service_import_support has input ref parents)
  unfolding check_has_service_import_support
  check_has_service_import_support-Verdict = import_loop-Verdict (all_backends input)
