-- ===== src/Helpers/Conditions.antt =====
-- pkg/gateway_api/helpers/conditions.go, and the copies of it in pkg/gateway_api/status.go and
-- pkg/gateway_api/routechecker/conditions.go.
pub mod Find
pub mod Laws
pub mod Distinct
use controller_powered_by_di.Base.{
  String, Bool, true, false, ◌&&◌, ◌||◌, not, Option, none, some, List, [], ◌∷◌, ◌++◌, ◌==◌,
  if◌then◌else◌, any, num_eq,
}
use controller_powered_by_di.Api.{Condition}

unfoldable pub is_condition_present : List Condition → String → Bool
is_condition_present conds cond_type = any (λ cond. cond.kind == cond_type) conds

unfoldable pub condition_changed : Condition → Condition → Bool
condition_changed a b =
    not (a.status == b.status)
    || not (a.reason == b.reason)
    || not (a.message == b.message)
    || not (num_eq a.observed_generation b.observed_generation)

-- The entry that an update of its type leaves: its own if nothing but the time differs.
unfoldable pub updated : Condition → Condition → Condition
unfolding condition_changed
updated cond update =
    if condition_changed cond update
    then record cond {
      status = update.status;
      reason = update.reason;
      message = update.message;
      observed_generation = update.observed_generation;
      last_transition_time = update.last_transition_time;
    }
    else cond

-- The inner loop: it stops at the first entry of the update's type.
unfoldable pub update_first : List Condition → Condition → List Condition
unfolding updated
update_first [] update = []
update_first (cond ∷ conds) update =
    if cond.kind == update.kind
    then updated cond update ∷ conds
    else cond ∷ update_first conds update

merge_loop : List Condition → List Condition → List Condition → List Condition
unfolding update_first is_condition_present
merge_loop existing additions [] = existing ++ additions
merge_loop existing additions (update ∷ updates) =
    if is_condition_present existing update.kind
    then merge_loop (update_first existing update) additions updates
    else merge_loop existing (additions ++ update ∷ []) updates

unfoldable pub merge_conditions : List Condition → List Condition → List Condition
unfolding merge_loop
merge_conditions existing updates = merge_loop existing [] updates

unfoldable pub is_accepted : List Condition → Bool
is_accepted conds = any (λ cond. cond.kind == "Accepted" && cond.status == "True") conds
