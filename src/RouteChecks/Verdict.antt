-- ===== src/RouteChecks/Verdict.antt =====
-- What a check of a route at a parent promises: when it passes, and the condition it sets where it
-- does not.
use controller_powered_by_di.Base.{
  String, Bool, true, false, ◌≡◌, ◌≢◌, ◌↔◌, refl, sym, ap, ◌∙◌, some, List,
}
use controller_powered_by_di.Api.{ParentReference, Condition, RouteParentStatus}
use controller_powered_by_di.Helpers.Conditions.Find.{find_condition}
use controller_powered_by_di.Helpers.Conditions.Laws.{merge_conditions-Merged}
use controller_powered_by_di.RouteChecks.Status.{Input, stamped, set_parent_condition}
use controller_powered_by_di.RouteChecks.Status.Laws.{conditions_of, set_parent_condition-StatusSet}

-- The parent has a condition of the type, and its status is false.
pub record Flagged (type : String) (ref : ParentReference) (parents : List RouteParentStatus)
    : Type 0 where
  pub entry : Condition
  pub found : find_condition type (conditions_of ref parents) ≡ some entry
  pub status : entry.status ≡ "False"

pub set-Flagged :
    (input : Input) (ref : ParentReference) (type : String) (c : Condition)
    (parents : List RouteParentStatus)
    → c.kind ≡ type
    → c.status ≡ "False"
    → Flagged type ref (set_parent_condition input ref c parents)
set-Flagged input ref type c parents k s =
    let merged = merge_conditions-Merged (conditions_of ref parents) (stamped input c) in
    record {
      entry = merged.entry;
      found =
          ap (find_condition type) (set_parent_condition-StatusSet input ref c parents).here
          ∙ rw (sym k) merged.found;
      status = merged.reports.status ∙ s;
    }

-- The result of a check, against what makes it pass.
pub record Verdict {ℓ} (Passes : Type ℓ) (type : String) (ref : ParentReference)
    (before : List RouteParentStatus) (verdict : Bool × List RouteParentStatus) : Type ℓ where
  pub passed : (verdict.0 ≡ true) ↔ Passes
  pub untouched : verdict.0 ≡ true → verdict.1 ≡ before
  pub flagged : verdict.0 ≡ false → Flagged type ref verdict.1
  pub others :
      (other : ParentReference)
      → other ≢ ref
      → conditions_of other verdict.1 ≡ conditions_of other before

pub Verdict-map {ℓ κ} :
    {P : Type ℓ} {Q : Type κ} {type : String} {ref : ParentReference}
    {before : List RouteParentStatus} {after : Bool × List RouteParentStatus}
    → P ↔ Q
    → Verdict P type ref before after
    → Verdict Q type ref before after
Verdict-map iff v = record {
  passed = (λ h. iff.0 (v.passed.0 h), λ q. v.passed.1 (iff.1 q));
  untouched = v.untouched;
  flagged = v.flagged;
  others = v.others;
}

module _ {ℓ} (P : Type ℓ) (type : String) (input : Input) (ref : ParentReference)
    (parents : List RouteParentStatus) where
  pub pass-Verdict : P → Verdict P type ref parents (true, parents)
  pass-Verdict p = record {
    passed = (λ _. p, λ _. refl);
    untouched = λ _. refl;
    flagged = λ h. cc;
    others = λ _ _. refl;
  }

  pub fail-Verdict :
      (c : Condition)
      → c.kind ≡ type
      → c.status ≡ "False"
      → (P → ⊥)
      → Verdict P type ref parents (false, set_parent_condition input ref c parents)
  fail-Verdict c k s fails = record {
    passed = (λ h. cc, λ p. elim (fails p) [ ]);
    untouched = λ h. cc;
    flagged = λ _. set-Flagged input ref type c parents k s;
    others = (set_parent_condition-StatusSet input ref c parents).others;
  }
