-- ===== src/Helpers/Conditions/Distinct.antt =====
-- A merge keeps the types of conditions distinct.
use mathlib.Core.List.{append-nil}
use controller_powered_by_di.Base.{
  String, ◌≡◌, refl, ◌∙◌, false, ◌||◌, List, [], ◌∷◌, ◌++◌, arith, eq_iff, Bool-cases, inl, inr,
  ◌==◌,
}
use controller_powered_by_di.Api.{Condition}
use controller_powered_by_di.Helpers.Conditions.{
  is_condition_present, updated, update_first, merge_conditions,
}

-- No two conditions have one type.
abbrev pub HasDistinctTypes : List Condition → Type 0
HasDistinctTypes [] = Unit
HasDistinctTypes (c ∷ cs) = (is_condition_present cs c.kind ≡ false) × HasDistinctTypes cs

updated-kind : (c u : Condition) → (updated c u).kind ≡ c.kind
unfolding updated
updated-kind c u = ground arith

present-update_first :
    (cs : List Condition) (u : Condition) (t : String)
    → is_condition_present (update_first cs u) t ≡ is_condition_present cs t
unfolding is_condition_present update_first
present-update_first [] u t = refl
present-update_first (c ∷ cs) u t = ground (arith, present-update_first cs u t, updated-kind c u)

update_first-HasDistinctTypes :
    (cs : List Condition) (u : Condition)
    → HasDistinctTypes cs
    → HasDistinctTypes (update_first cs u)
unfolding update_first
update_first-HasDistinctTypes [] u h = tt
update_first-HasDistinctTypes (c ∷ cs) u (fresh, h) = elim (Bool-cases (c.kind == u.kind)) [
  | inl same ↦ rw same (rw (updated-kind c u) fresh, h)
  | inr differ ↦
      rw differ (present-update_first cs u c.kind ∙ fresh, update_first-HasDistinctTypes cs u h)
]

present-append :
    (cs : List Condition) (u : Condition) (t : String)
    → is_condition_present (cs ++ u ∷ []) t ≡ (is_condition_present cs t || u.kind == t)
unfolding is_condition_present
present-append [] u t = ground arith
present-append (c ∷ cs) u t = ground (arith, present-append cs u t)

append-HasDistinctTypes :
    (cs : List Condition) (u : Condition)
    → is_condition_present cs u.kind ≡ false
    → HasDistinctTypes cs
    → HasDistinctTypes (cs ++ u ∷ [])
unfolding is_condition_present
append-HasDistinctTypes [] u absent h = (refl, tt)
append-HasDistinctTypes (c ∷ cs) u absent (fresh, h) = (
  present-append cs u c.kind ∙ ground (arith, eq_iff c.kind u.kind, eq_iff u.kind c.kind),
  append-HasDistinctTypes cs u (ground arith) h,
)

-- A merge of one update keeps the types distinct.
pub merge_conditions-HasDistinctTypes :
    (cs : List Condition) (u : Condition)
    → HasDistinctTypes cs
    → HasDistinctTypes (merge_conditions cs (u ∷ []))
unfolding merge_conditions
merge_conditions-HasDistinctTypes cs u h = elim (Bool-cases (is_condition_present cs u.kind)) [
  | inl present ↦ rw (present, append-nil) (update_first-HasDistinctTypes cs u h)
  | inr absent ↦ rw absent (append-HasDistinctTypes cs u absent h)
]
