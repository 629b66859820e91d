-- ===== src/RouteChecks/Backends.antt =====
-- pkg/gateway_api/routechecker/route_checks.go: the checks of a route's backends at one parent.
-- `none` is the panic of a nil pointer.
pub mod Laws
pub mod Verdicts
pub mod Imports
use controller_powered_by_di.Base.{
  ◌<>◌, String, Bool, true, false, ◌&&◌, ◌||◌, not, Option, none, some, List, [], ◌∷◌, ◌==◌, ◌>>=◌,
  if◌then◌else◌, gather, is_some,
}
use controller_powered_by_di.Api.{ParentReference, Condition, RouteParentStatus, BackendRef}
use controller_powered_by_di.Helpers.Kinds.{is_service, is_service_import}
use controller_powered_by_di.Helpers.Grants.{namespace_deref_or, is_backend_reference_allowed}
use controller_powered_by_di.RouteChecks.Status.{Input, condition, set_parent_condition}

-- The backends that the nested loops over rules and backends go through.
abbrev pub all_backends : Input → List BackendRef
all_backends input = gather (λ rule. rule) input.rules

-- `ResolvedRefs` is false for the reason.
abbrev pub unresolved : String → String → Condition
unresolved reason message = condition "ResolvedRefs" "False" reason message

module _ (input : Input) (ref : ParentReference) where
  -- What a round leaves: the same for a backend without a fault, and a condition for one with it.
  abbrev pub flag : Option Condition → Bool × List RouteParentStatus → Bool × List RouteParentStatus
  flag none state = state
  flag (some c) (_, parents) = (false, set_parent_condition input ref c parents)

  -- A loop that sets a condition for every fault, and goes on.
  unfoldable pub fault_loop :
      (BackendRef → Option (Option Condition))
      → List BackendRef
      → Bool × List RouteParentStatus
      → Option (Bool × List RouteParentStatus)
  fault_loop fault [] state = some state
  fault_loop fault (be ∷ refs) state = do f ← fault be; fault_loop fault refs (flag f state)

-- A backend in another namespace that no grant allows.
unfoldable pub reference_fault : Input → BackendRef → Option Condition
unfolding namespace_deref_or is_backend_reference_allowed
reference_fault input be =
    if not (namespace_deref_or be.namespace input.namespace == input.namespace)
      && not (is_backend_reference_allowed input.namespace be.ref input.gvk input.grants)
    then some (unresolved "RefNotPermitted" "Cross namespace references are not allowed")
    else none

unfoldable pub check_against_cross_namespace_backend_references_v2 :
    Input → ParentReference → List RouteParentStatus → Option (Bool × List RouteParentStatus)
unfolding fault_loop reference_fault
check_against_cross_namespace_backend_references_v2 input ref parents =
    fault_loop input ref (λ be. some (reference_fault input be)) (all_backends input)
      (true, parents)

-- A backend that is neither a service nor an import of one, or that has no port. The message
-- of the first kind reads the backend's kind through its pointer.
unfoldable pub backend_fault : BackendRef → Option (Option Condition)
unfolding is_service is_service_import
backend_fault be =
    if not (is_service be.ref) && not (is_service_import be.ref)
    then (do
      kind ← be.kind
      some (some (unresolved "InvalidKind" ("Unsupported backend kind " <> kind))))
    else if is_some be.port
    then some none
    else some (some (unresolved "InvalidKind" "Must have port for backend object reference"))

unfoldable pub check_backend :
    Input → ParentReference → List RouteParentStatus → Option (Bool × List RouteParentStatus)
unfolding fault_loop backend_fault
check_backend input ref parents =
    fault_loop input ref backend_fault (all_backends input) (true, parents)

abbrev pub unsupported_import : Condition
unsupported_import =
    unresolved "BackendNotFound"
      "Attempt to reference a ServiceImport backend while the corresponding CRD is not installed, please restart the cilium-operator if the CRD is already installed"

-- The first import of a service decides. Whether the client knows the kind is a parameter.
module _ (has_service_import_support : Bool) (input : Input) (ref : ParentReference) where
  unfoldable pub import_loop :
      List BackendRef → List RouteParentStatus → Bool × List RouteParentStatus
  unfolding is_service_import set_parent_condition
  import_loop [] parents = (true, parents)
  import_loop (be ∷ refs) parents =
      let rest = import_loop refs parents in
      if not (is_service_import be.ref)
      then rest
      else if not has_service_import_support
      then (false, set_parent_condition input ref unsupported_import parents)
      else (true, parents)

  unfoldable pub check_has_service_import_support :
      List RouteParentStatus → Bool × List RouteParentStatus
  unfolding import_loop
  check_has_service_import_support parents = import_loop (all_backends input) parents
