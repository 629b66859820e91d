-- ===== src/RouteChecks/Backends/Laws.antt =====
-- What a loop over backends that flags faults leaves.
use controller_powered_by_di.Base.{
  Bool, true, false, ◌≡◌, ◌≢◌, ◌↔◌, refl, sym, ap, ◌∙◌, Option, none, some, List, [], ◌∷◌,
  >>=-eq-some, some_inj, All, Any, here, there, Option-cases, inl, inr,
}
use controller_powered_by_di.Api.{ParentReference, Condition, RouteParentStatus, BackendRef}
use controller_powered_by_di.RouteChecks.Status.{Input}
use controller_powered_by_di.RouteChecks.Status.Laws.{conditions_of, set_parent_condition-StatusSet}
use controller_powered_by_di.RouteChecks.Verdict.{Flagged, set-Flagged, Verdict}
use controller_powered_by_di.RouteChecks.Backends.{flag, fault_loop}

module _ (input : Input) (ref : ParentReference) (fault : BackendRef → Option (Option Condition))
    (typed : (be : BackendRef) (c : Condition)
      → fault be ≡ some (some c)
      → (c.kind ≡ "ResolvedRefs") × (c.status ≡ "False")) where
  flag-others :
      (f : Option Condition) (state : Bool × List RouteParentStatus) (other : ParentReference)
      → other ≢ ref
      → conditions_of other (flag input ref f state).1 ≡ conditions_of other state.1
  flag-others none state other ne = refl
  flag-others (some c) (_, ps) other ne =
      (set_parent_condition-StatusSet input ref c ps).others other ne

  loop-others :
      (refs : List BackendRef) (state after : Bool × List RouteParentStatus)
      → fault_loop input ref fault refs state ≡ some after
      → (other : ParentReference) → other ≢ ref
      → conditions_of other after.1 ≡ conditions_of other state.1
  unfolding fault_loop
  loop-others [] state after e other ne = ap (λ s. conditions_of other s.1) (sym (some_inj e))
  loop-others (be ∷ refs) state after e other ne =
      let (f, _, rest) = >>=-eq-some (fault be) _ e in
      loop-others refs (flag input ref f state) after rest other ne ∙ flag-others f state other ne

  -- A state that is false only with the flag stays so.
  loop-Flagged :
      (refs : List BackendRef) (state after : Bool × List RouteParentStatus)
      → fault_loop input ref fault refs state ≡ some after
      → (state.0 ≡ false → Flagged "ResolvedRefs" ref state.1)
      → after.0 ≡ false
      → Flagged "ResolvedRefs" ref after.1
  unfolding fault_loop
  loop-Flagged [] state after e h = rw (sym (some_inj e)) h
  loop-Flagged (be ∷ refs) state after e h =
      let (f, hit, rest) = >>=-eq-some (fault be) _ e in
      loop-Flagged refs (flag input ref f state) after rest (next f hit)
    where
      next :
          (f : Option Condition)
          → fault be ≡ some f
          → (flag input ref f state).0 ≡ false
          → Flagged "ResolvedRefs" ref (flag input ref f state).1
      next none hit = h
      next (some c) hit =
          λ _. let (k, s) = typed be c hit in set-Flagged input ref "ResolvedRefs" c state.1 k s

  flag-true :
      (f : Option Condition) (state : Bool × List RouteParentStatus)
      → (flag input ref f state).0 ≡ true
      → (f ≡ none) × (state.0 ≡ true) × ((flag input ref f state).1 ≡ state.1)
  flag-true none state h = (refl, h, refl)
  flag-true (some c) state h = cc

  -- A loop that ends with true has met no fault and started with it.
  loop-passed :
      (refs : List BackendRef) (state after : Bool × List RouteParentStatus)
      → fault_loop input ref fault refs state ≡ some after
      → after.0 ≡ true
      → All (λ be. fault be ≡ some none) refs × (state.0 ≡ true) × (after.1 ≡ state.1)
  unfolding fault_loop
  loop-passed [] state after e h =
      let same = some_inj e in (tt, ap (λ s. s.0) same ∙ h, ap (λ s. s.1) (sym same))
  loop-passed (be ∷ refs) state after e h =
      let (f, hit, rest) = >>=-eq-some (fault be) _ e in
      let (passes, on, same) = loop-passed refs (flag input ref f state) after rest h in
      let (clean, on', same') = flag-true f state on in
      ((hit ∙ ap some clean, passes), on', same ∙ same')

  loop-clean :
      (refs : List BackendRef) (ps : List RouteParentStatus)
      → All (λ be. fault be ≡ some none) refs
      → fault_loop input ref fault refs (true, ps) ≡ some (true, ps)
  unfolding fault_loop
  loop-clean [] ps _ = refl
  loop-clean (be ∷ refs) ps (e, es) = rw e (loop-clean refs ps es)

  pub fault_loop-Verdict :
      (refs : List BackendRef) (ps : List RouteParentStatus) (after : Bool × List RouteParentStatus)
      → fault_loop input ref fault refs (true, ps) ≡ some after
      → Verdict (All (λ be. fault be ≡ some none) refs) "ResolvedRefs" ref ps after
  fault_loop-Verdict refs ps after e = record {
    passed = (
      λ h. (loop-passed refs (true, ps) after e h).0,
      λ clean. ap (λ s. s.0) (some_inj (sym e ∙ loop-clean refs ps clean)),
    );
    untouched = λ h. (loop-passed refs (true, ps) after e h).2;
    flagged = loop-Flagged refs (true, ps) after e (λ h. cc);
    others = λ other ne. loop-others refs (true, ps) after e other ne;
  }

pub fault_loop-total :
    (input : Input) (ref : ParentReference) (fault : BackendRef → Option (Option Condition))
    (refs : List BackendRef) (state : Bool × List RouteParentStatus)
    → ((be : BackendRef) → (f : Option Condition) × (fault be ≡ some f))
    → (after : Bool × List RouteParentStatus) × (fault_loop input ref fault refs state ≡ some after)
unfolding fault_loop
fault_loop-total input ref fault [] state total = (state, refl)
fault_loop-total input ref fault (be ∷ refs) state total =
    let (f, e) = total be in
    let (after, e') = fault_loop-total input ref fault refs (flag input ref f state) total in
    (after, rw e e')

pub fault_loop-none_iff :
    (input : Input) (ref : ParentReference) (fault : BackendRef → Option (Option Condition))
    (refs : List BackendRef) (state : Bool × List RouteParentStatus)
    → (fault_loop input ref fault refs state ≡ none) ↔ Any (λ be. fault be ≡ none) refs
unfolding fault_loop
fault_loop-none_iff input ref fault [] state = (λ e. cc, λ a. elim a [ ])
fault_loop-none_iff input ref fault (be ∷ refs) state = elim (Option-cases (fault be)) [
  | inl panic ↦ (λ _. here panic, λ _. rw panic refl)
  | inr (f, e) ↦
      let (sound, complete) = fault_loop-none_iff input ref fault refs (flag input ref f state) in
      (
        λ h. there (sound (rw e at h)),
        λ a. elim a [ here panic ↦ cc panic | there rest ↦ rw e (complete rest) ],
      )
]
