-- ===== src/Helpers/Conditions/Find.antt =====
-- The first condition of a type, before and after an update.
use controller_powered_by_di.Base.{
  String, ◌≡◌, refl, true, false, Option, none, some, List, [], ◌∷◌, ◌++◌, arith, eq_iff,
  Bool-cases, inl, inr, if◌then◌else◌, ◌==◌,
}
use controller_powered_by_di.Api.{Condition}
use controller_powered_by_di.Helpers.Conditions.{is_condition_present, updated, update_first}

-- The first condition of a type.
unfoldable pub find_condition : String → List Condition → Option Condition
find_condition t [] = none
find_condition t (c ∷ cs) = if c.kind == t then some c else find_condition t cs

abbrev pub updated? : Option Condition → Condition → Condition
updated? none u = u
updated? (some c) u = updated c u

pub find-update_first :
    (t : String) (cs : List Condition) (u : Condition)
    → find_condition t (update_first cs u) ≡ (
        if u.kind == t
        then (elim (find_condition t cs) [ none ↦ none | some c ↦ some (updated c u) ])
        else find_condition t cs)
unfolding find_condition update_first
find-update_first t [] u = ground arith
find-update_first t (c ∷ cs) u =
    ground (arith, find-update_first t cs u, eq_iff c.kind t, eq_iff c.kind u.kind, eq_iff u.kind t)

pub find-append :
    (t : String) (cs : List Condition) (u : Condition)
    → is_condition_present cs u.kind ≡ false
    → find_condition t (cs ++ u ∷ []) ≡ (if u.kind == t then some u else find_condition t cs)
unfolding find_condition is_condition_present
find-append t [] u h = refl
find-append t (c ∷ cs) u h = ground (
  arith,
  find-append t cs u (ground arith),
  eq_iff c.kind t,
  eq_iff c.kind u.kind,
  eq_iff u.kind t,
)

pub present-find :
    (cs : List Condition) (t : String)
    → (is_condition_present cs t ≡ true)
    → (c : Condition) × (find_condition t cs ≡ some c)
unfolding find_condition is_condition_present
present-find [] t h = cc
present-find (c ∷ cs) t h = elim (Bool-cases (c.kind == t)) [
  | inl same ↦ (c, rw same refl)
  | inr differ ↦ rw differ (present-find cs t (rw differ at h))
]

pub absent-find :
    (cs : List Condition) (t : String)
    → is_condition_present cs t ≡ false
    → find_condition t cs ≡ none
unfolding find_condition is_condition_present
absent-find [] t h = refl
absent-find (c ∷ cs) t h = ground (arith, absent-find cs t)

pub find-present :
    (cs : List Condition) (t : String) (c : Condition)
    → find_condition t cs ≡ some c
    → is_condition_present cs t ≡ true
unfolding find_condition is_condition_present
find-present [] t c e = cc
find-present (x ∷ cs) t c e = ground (arith, find-present cs t c)
