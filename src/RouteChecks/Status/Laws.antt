-- ===== src/RouteChecks/Status/Laws.antt =====
-- What setting a condition does to the status of a route.
use controller_powered_by_di.Base.{
  ℕ, String, true, ◌≡◌, ◌≢◌, ◌↔◌, refl, sym, ◌∙◌, Option, none, some, List, [], ◌∷◌, if◌then◌else◌,
  arith, eq_iff, Bool-cases, inl, inr,
}
use controller_powered_by_di.Api.{ParentReference, Condition, RouteParentStatus}
use controller_powered_by_di.Helpers.Conditions.{merge_conditions}
use controller_powered_by_di.RouteChecks.Status.{
  Input, text_eq?, port_eq?, deep_equal, merge_status_conditions, stamped, set_parent_condition,
}

text_eq?_iff : (a b : Option String) → (text_eq? a b ≡ true) ↔ (a ≡ b)
text_eq?_iff none none = (λ _. refl, λ _. refl)
text_eq?_iff none (some b) = (λ h. cc, λ h. cc)
text_eq?_iff (some a) none = (λ h. cc, λ h. cc)
text_eq?_iff (some a) (some b) = ground (arith, eq_iff a b)

port_eq?_iff : (a b : Option ℕ) → (port_eq? a b ≡ true) ↔ (a ≡ b)
port_eq?_iff none none = (λ _. refl, λ _. refl)
port_eq?_iff none (some b) = (λ h. cc, λ h. cc)
port_eq?_iff (some a) none = (λ h. cc, λ h. cc)
port_eq?_iff (some a) (some b) = ground arith

deep_equal_refl : (a : ParentReference) → deep_equal a a ≡ true
unfolding deep_equal
deep_equal_refl a =
    rw
      (
        (text_eq?_iff a.group a.group).1 refl,
        (text_eq?_iff a.kind a.kind).1 refl,
        (text_eq?_iff a.namespace a.namespace).1 refl,
        (eq_iff a.name a.name).1 refl,
        (text_eq?_iff a.section_name a.section_name).1 refl,
      )
      ((port_eq?_iff a.port a.port).1 refl)

deep_equal_sound : (a b : ParentReference) → deep_equal a b ≡ true → a ≡ b
unfolding deep_equal
deep_equal_sound a b h =
    let e1 = (text_eq?_iff a.group b.group).0 (ground arith) in
    let e2 = (text_eq?_iff a.kind b.kind).0 (ground arith) in
    let e3 = (text_eq?_iff a.namespace b.namespace).0 (ground arith) in
    let e4 = (eq_iff a.name b.name).0 (ground arith) in
    let e5 = (text_eq?_iff a.section_name b.section_name).0 (ground arith) in
    let e6 = (port_eq?_iff a.port b.port).0 (ground arith) in
    λ i. record {
      group = e1 i;
      kind = e2 i;
      namespace = e3 i;
      name = e4 i;
      section_name = e5 i;
      port = e6 i;
    }

-- The conditions of the first entry of the parent; none where it has no entry.
unfoldable pub conditions_of : ParentReference → List RouteParentStatus → List Condition
unfolding deep_equal
conditions_of ref [] = []
conditions_of ref (p ∷ parents) =
    if deep_equal p.parent_ref ref then p.conditions else conditions_of ref parents

-- What the setting of a condition leaves at each parent.
pub record StatusSet (ref : ParentReference) (c : Condition) (before after : List RouteParentStatus)
    : Type 0 where
  pub here : conditions_of ref after ≡ merge_conditions (conditions_of ref before) (c ∷ [])
  pub others :
      (other : ParentReference)
      → other ≢ ref
      → conditions_of other after ≡ conditions_of other before

merge_conditions-nil : (c : Condition) → merge_conditions [] (c ∷ []) ≡ c ∷ []
unfolding merge_conditions
merge_conditions-nil c = refl

module _ (controller : String) (ref : ParentReference) (c : Condition) where
  merge-here :
      (ps : List RouteParentStatus)
      → conditions_of ref (merge_status_conditions controller ref (c ∷ []) ps)
        ≡ merge_conditions (conditions_of ref ps) (c ∷ [])
  unfolding conditions_of merge_status_conditions
  merge-here [] = rw (deep_equal_refl ref) (sym (merge_conditions-nil c))
  merge-here (p ∷ ps) = elim (Bool-cases (deep_equal p.parent_ref ref)) [
    | inl same ↦ rw same (rw same refl)
    | inr differ ↦ rw differ (rw differ (merge-here ps))
  ]

  merge-others :
      (other : ParentReference)
      → other ≢ ref
      → (ps : List RouteParentStatus)
      → conditions_of other (merge_status_conditions controller ref (c ∷ []) ps)
        ≡ conditions_of other ps
  unfolding conditions_of merge_status_conditions
  merge-others other ne [] = elim (Bool-cases (deep_equal ref other)) [
    | inl same ↦ elim (ne (sym (deep_equal_sound ref other same))) [ ]
    | inr differ ↦ rw differ refl
  ]
  merge-others other ne (p ∷ ps) = elim (Bool-cases (deep_equal p.parent_ref ref)) [
    | inl same ↦ elim (Bool-cases (deep_equal p.parent_ref other)) [
      | inl same' ↦
          elim (ne (
            sym (deep_equal_sound p.parent_ref other same')
            ∙ deep_equal_sound p.parent_ref ref same)) [ ]
      | inr differ' ↦ rw (same, differ') refl
    ]
    | inr differ ↦ elim (Bool-cases (deep_equal p.parent_ref other)) [
      | inl same' ↦ rw (differ, same') refl
      | inr differ' ↦ rw (differ, differ') (merge-others other ne ps)
    ]
  ]

-- Setting a condition at a parent merges it, with the time and the route's generation, into the
-- conditions that the route has there, or adds an entry with it where the route has none; what
-- the route has at any other parent stays.
pub set_parent_condition-StatusSet :
    (input : Input) (ref : ParentReference) (c : Condition) (parents : List RouteParentStatus)
    → StatusSet ref (stamped input c) parents (set_parent_condition input ref c parents)
unfolding set_parent_condition
set_parent_condition-StatusSet input ref c parents = record {
  here = merge-here input.controller_name ref (stamped input c) parents;
  others = λ other ne. merge-others input.controller_name ref (stamped input c) other ne parents;
}
