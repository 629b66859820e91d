-- ===== src/RouteChecks/Status.antt =====
-- pkg/gateway_api/routechecker/httproute.go: the status of a route at its parents, which the checks
-- write to, and pkg/gateway_api/routechecker/input.go: what they read.
pub mod Laws
use controller_powered_by_di.Base.{
  ℕ, String, Bool, true, false, ◌&&◌, Option, none, some, List, [], ◌∷◌, ◌==◌, if◌then◌else◌,
  num_eq,
}
use controller_powered_by_di.Api.{
  ParentReference, Condition, RouteParentStatus, GroupVersionKind, ReferenceGrant, BackendRef,
  Gateway, Listener, Protocol,
}
use controller_powered_by_di.Helpers.Conditions.{merge_conditions}

-- A pair of Go's results `(*A, error)`: an error, a nil pointer without one, or a value.
pub data Lookup {ℓ} (A : Type ℓ) : Type ℓ where
  failed : String → Lookup A
  nil : Lookup A
  found : A → Lookup A

-- The interface `Input`. `rules` has the backends of each rule. `now` is what the clock shows.
pub record Input : Type 0 where
  pub rules : List (List BackendRef)
  pub namespace : String
  pub gvk : GroupVersionKind
  pub grants : List ReferenceGrant
  pub hostnames : List String
  pub valid_protocols : List Protocol
  pub get_gateway : ParentReference → Lookup Gateway
  pub get_listener_owner : ParentReference → Lookup (List Listener)
  pub generation : ℕ
  pub controller_name : String
  pub now : ℕ

abbrev pub text_eq? : Option String → Option String → Bool
text_eq? none none = true
text_eq? (some a) (some b) = a == b
text_eq? _ _ = false

abbrev pub port_eq? : Option ℕ → Option ℕ → Bool
port_eq? none none = true
port_eq? (some a) (some b) = num_eq a b
port_eq? _ _ = false

-- `reflect.DeepEqual` on parent references.
unfoldable pub deep_equal : ParentReference → ParentReference → Bool
deep_equal a b =
    text_eq? a.group b.group
    && text_eq? a.kind b.kind
    && text_eq? a.namespace b.namespace
    && a.name == b.name
    && text_eq? a.section_name b.section_name
    && port_eq? a.port b.port

module _ (controller_name : String) (parent_ref : ParentReference) (updates : List Condition) where
  -- The first entry of the parent is updated, and one is added behind where there is none.
  unfoldable pub merge_status_conditions : List RouteParentStatus → List RouteParentStatus
  unfolding deep_equal merge_conditions
  merge_status_conditions [] =
      (record { parent_ref = parent_ref; controller_name = controller_name; conditions = updates })
      ∷ []
  merge_status_conditions (p ∷ parents) =
      if deep_equal p.parent_ref parent_ref
      then record p { conditions = merge_conditions p.conditions updates } ∷ parents
      else p ∷ merge_status_conditions parents

-- A condition as a check gives it: type, status, reason and message.
abbrev pub condition : String → String → String → String → Condition
condition type status reason message = record {
  kind = type;
  status = status;
  reason = reason;
  message = message;
  observed_generation = 0;
  last_transition_time = 0;
}

-- The condition with the time and the generation filled in.
abbrev pub stamped : Input → Condition → Condition
stamped input c = record c {
  last_transition_time = input.now;
  observed_generation = input.generation;
}

unfoldable pub set_parent_condition :
    Input → ParentReference → Condition → List RouteParentStatus → List RouteParentStatus
unfolding merge_status_conditions
set_parent_condition input ref c parents =
    merge_status_conditions input.controller_name ref (stamped input c ∷ []) parents
