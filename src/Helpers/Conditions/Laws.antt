-- ===== src/Helpers/Conditions/Laws.antt =====
-- What a merge of conditions leaves, by type.
use mathlib.Core.List.{append-nil}
use mathlib.Core.Option.{some-injective}
use controller_powered_by_di.Base.{
  String, ◌≡◌, ◌≢◌, refl, sym, ap, ◌∙◌, true, false, some, List, [], ◌∷◌, arith, eq_iff, eq_refl,
  Bool-cases, inl, inr, ◌==◌,
}
use controller_powered_by_di.Api.{Condition}
use controller_powered_by_di.Helpers.Conditions.{
  is_condition_present, condition_changed, updated, update_first, merge_conditions,
}
use controller_powered_by_di.Helpers.Conditions.Find.{
  find_condition, find-update_first, find-append, present-find, absent-find, find-present,
}

-- A condition of the update's type that says what the update says, apart from the time.
pub record Reports (c u : Condition) : Type 0 where
  pub kind : c.kind ≡ u.kind
  pub status : c.status ≡ u.status
  pub reason : c.reason ≡ u.reason
  pub message : c.message ≡ u.message
  pub observed_generation : c.observed_generation ≡ u.observed_generation

unchanged-Reports :
    (c u : Condition) → c.kind ≡ u.kind → condition_changed c u ≡ false → Reports c u
unfolding condition_changed
unchanged-Reports c u k h = record {
  kind = k;
  status = (eq_iff _ _).0 (ground arith);
  reason = (eq_iff _ _).0 (ground arith);
  message = (eq_iff _ _).0 (ground arith);
  observed_generation = ground arith;
}

Reports-unchanged : (c u : Condition) → Reports c u → condition_changed c u ≡ false
unfolding condition_changed
Reports-unchanged c u r = ground (
  arith,
  (eq_iff c.status u.status).1 r.status,
  (eq_iff c.reason u.reason).1 r.reason,
  (eq_iff c.message u.message).1 r.message,
)

updated-Reports : (c u : Condition) → c.kind ≡ u.kind → Reports (updated c u) u
unfolding updated
updated-Reports c u k = elim (Bool-cases (condition_changed c u)) [
  | inl changed ↦ rw changed (record {
    kind = k;
    status = refl;
    reason = refl;
    message = refl;
    observed_generation = refl;
  })
  | inr same ↦ rw same (unchanged-Reports c u k same)
]

updated_of_Reports : (c u : Condition) → Reports c u → updated c u ≡ c
unfolding updated
updated_of_Reports c u r = rw (Reports-unchanged c u r) refl

updated_of_same : (c old u : Condition) → c ≡ old → Reports old u → updated c u ≡ old
updated_of_same c old u e r = ap (λ x. updated x u) e ∙ updated_of_Reports old u r

-- What the conditions `after` a merge of one update say: the update's type reports the update, with
-- the old entry kept whole, its time included, if that said the same; every other type is as before.
pub record Merged (before after : List Condition) (u : Condition) : Type 0 where
  pub entry : Condition
  pub found : find_condition u.kind after ≡ some entry
  pub reports : Reports entry u
  pub kept :
      (old : Condition) → find_condition u.kind before ≡ some old → Reports old u → entry ≡ old
  pub others : (t : String) → u.kind ≢ t → find_condition t after ≡ find_condition t before

find-kind :
    (cs : List Condition) (t : String) (c : Condition) → find_condition t cs ≡ some c → c.kind ≡ t
unfolding find_condition
find-kind [] t c h = cc
find-kind (x ∷ cs) t c h = ground (arith, find-kind cs t c, eq_iff x.kind t)

merge_conditions-Merged_present :
    (cs : List Condition) (u : Condition)
    → is_condition_present cs u.kind ≡ true
    → Merged cs (merge_conditions cs (u ∷ [])) u
unfolding merge_conditions
merge_conditions-Merged_present cs u h =
    let (c, known) = present-find cs u.kind h in
    let k = find-kind cs u.kind c known in
    rw (h, append-nil)
      (record {
        entry = updated c u;
        found = find-update_first u.kind cs u ∙ rw (eq_refl u.kind, known) refl;
        reports = updated-Reports c u k;
        kept = λ old e r. updated_of_same c old u (some-injective c old (sym known ∙ e)) r;
        others = λ t differ. find-update_first t cs u ∙ ground (arith, eq_iff u.kind t);
      })

merge_conditions-Merged_absent :
    (cs : List Condition) (u : Condition)
    → is_condition_present cs u.kind ≡ false
    → Merged cs (merge_conditions cs (u ∷ [])) u
unfolding merge_conditions
merge_conditions-Merged_absent cs u h = rw h (record {
  entry = u;
  found = find-append u.kind cs u h ∙ rw (eq_refl u.kind) refl;
  reports = record {
    kind = refl;
    status = refl;
    reason = refl;
    message = refl;
    observed_generation = refl;
  };
  kept = λ old e r. cc (absent-find cs u.kind h);
  others = λ t differ. find-append t cs u h ∙ ground (arith, eq_iff u.kind t);
})

-- Merging one update leaves an entry of its type that says what the update says, the old entry
-- with its transition time where that said the same already, and changes no other type.
pub merge_conditions-Merged :
    (cs : List Condition) (u : Condition) → Merged cs (merge_conditions cs (u ∷ [])) u
merge_conditions-Merged cs u = elim (Bool-cases (is_condition_present cs u.kind)) [
  | inl present ↦ merge_conditions-Merged_present cs u present
  | inr absent ↦ merge_conditions-Merged_absent cs u absent
]

update_first_of_Reports :
    (cs : List Condition) (u c : Condition)
    → find_condition u.kind cs ≡ some c
    → Reports c u
    → update_first cs u ≡ cs
unfolding update_first find_condition
update_first_of_Reports [] u c e r = refl
update_first_of_Reports (x ∷ cs) u c e r = elim (Bool-cases (x.kind == u.kind)) [
  | inl same ↦
      let it : x ≡ c = some-injective x c (rw same at e) in
      rw same (ap (λ y. y ∷ cs) (updated_of_same x c u it r ∙ sym it))
  | inr differ ↦ rw differ (ap (λ ys. x ∷ ys) (update_first_of_Reports cs u c (rw differ at e) r))
]

-- An update that says what is there already changes nothing, whatever its time.
pub merge_conditions_of_Reports :
    (cs : List Condition) (u c : Condition)
    → find_condition u.kind cs ≡ some c
    → Reports c u
    → merge_conditions cs (u ∷ []) ≡ cs
unfolding merge_conditions
merge_conditions_of_Reports cs u c e r =
    rw (find-present cs u.kind c e, append-nil) (update_first_of_Reports cs u c e r)
