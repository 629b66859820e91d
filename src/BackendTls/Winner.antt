-- ===== src/BackendTls/Winner.antt =====
-- The policy that holds for a section of a service comes before all that target it.
use controller_powered_by_di.Base.{
  ℕ, String, Bool, true, false, ◌≡◌, ◌⊎◌, inl, inr, refl, sym, ap, ◌∙◌, Option, none, some, List,
  [], ◌∷◌, if◌then◌else◌, Bool-cases, All, Any, here, there, some_inj, Option-cases,
}
use mathlib.Core.Path.{subst}
use controller_powered_by_di.Api.{NamespacedName}
use controller_powered_by_di.BackendTls.{
  Policy, ServiceMap, add_targets, lookup_loop, build_backend_tls_policy_lookup,
}
use controller_powered_by_di.BackendTls.Choice.{choose, choose-none, choose-cases}
use controller_powered_by_di.BackendTls.Laws.{valid_at, targets, add_policy-valid_at}
use controller_powered_by_di.BackendTls.Order.{
  Precedes, Precedes_trans, Precedes_refl, choose-Precedes,
}

valid_at-nil : (svc : NamespacedName) (section : String) → valid_at [] svc section ≡ none
unfolding valid_at
valid_at-nil svc section = refl

module _ (age : NamespacedName → ℕ) where
  -- The policies of one name are as old as each other.
  abbrev pub Aged : Policy → Type 0
  Aged p = p.created ≡ age p.key

  -- What the choice between a policy in place, if any, and the next comes to.
  record Chosen (o : Option Policy) (p c : Policy) : Type 0 where
    source : (o ≡ some c) ⊎ (p ≡ c)
    before : (v : Policy) → o ≡ some v → Precedes c v
    next : Precedes c p
    aged : Aged c

  choose-Chosen :
      (o : Option Policy) (p : Policy)
      → ((v : Policy) → o ≡ some v → Aged v)
      → Aged p
      → Chosen o p (choose o p)
  choose-Chosen none p old new =
      rw (choose-none p)
        (record { source = inr refl; before = λ v e. cc; next = Precedes_refl p; aged = new })
  choose-Chosen (some q) p old new =
      let (first, second) = choose-Precedes q p (λ k. new ∙ ap age k ∙ sym (old q refl)) in
      record {
        source = elim (choose-cases q p) [ inl e ↦ inl (ap some (sym e)) | inr e ↦ inr (sym e) ];
        before = λ v e. rw (sym (some_inj e)) first;
        next = second;
        aged = elim (choose-cases q p) [
          | inl e ↦ ap (λ x. x.created) e ∙ old q refl ∙ ap (λ x. age x.key) (sym e)
          | inr e ↦ ap (λ x. x.created) e ∙ new ∙ ap (λ x. age x.key) (sym e)
        ];
      }

  module _ (svc : NamespacedName) (section : String) where
    abbrev Hit : Policy → Policy → Type 0
    Hit w q = (q ≡ w) × (targets svc section q ≡ true)

    -- What holds after some policies, against what held before them.
    record Outcome (o : Option Policy) (ps : List Policy) (after : Option Policy) : Type 0 where
      absent : after ≡ none → (o ≡ none) × All (λ q. targets svc section q ≡ false) ps
      source : (w : Policy) → after ≡ some w → (o ≡ some w) ⊎ Any (Hit w) ps
      before : (w v : Policy) → after ≡ some w → o ≡ some v → Precedes w v
      all :
          (w : Policy) → after ≡ some w → All (λ q. targets svc section q ≡ true → Precedes w q) ps

    step :
        (p : Policy) (ps : List Policy) (o after : Option Policy)
        → ((v : Policy) → o ≡ some v → Aged v)
        → Aged p
        → targets svc section p ≡ true
        → Outcome (some (choose o p)) ps after
        → Outcome o (p ∷ ps) after
    step p ps o after old new hit rest =
        let c = choose-Chosen o p old new in
        record {
          absent = λ e. cc ((rest.absent e).0);
          source = λ w e. elim (rest.source w e) [
            | inl same ↦ elim c.source [
              | inl kept ↦ inl (kept ∙ same)
              | inr next ↦ inr (here (next ∙ some_inj same, hit))
            ]
            | inr later ↦ inr (there later)
          ];
          before = λ w v e f.
              Precedes_trans w (choose o p) v (rest.before w (choose o p) e refl) (c.before v f);
          all = λ w e. (
            (λ _. Precedes_trans w (choose o p) p (rest.before w (choose o p) e refl) c.next),
            rest.all w e,
          );
        }

    skip :
        (p : Policy) (ps : List Policy) (o after : Option Policy)
        → targets svc section p ≡ false
        → Outcome o ps after
        → Outcome o (p ∷ ps) after
    skip p ps o after miss rest = record {
      absent = λ e. let (none_before, misses) = rest.absent e in (none_before, (miss, misses));
      source =
          λ w e. elim (rest.source w e) [ inl same ↦ inl same | inr later ↦ inr (there later) ];
      before = rest.before;
      all = λ w e. ((λ hit. cc (hit, miss)), rest.all w e);
    }

    lookup_loop-Outcome :
        (ps : List Policy) (m : ServiceMap)
        → All Aged ps
        → ((v : Policy) → valid_at m svc section ≡ some v → Aged v)
        → Outcome (valid_at m svc section) ps (valid_at (lookup_loop ps m) svc section)
    unfolding lookup_loop
    lookup_loop-Outcome [] m _ old = record {
      absent = λ e. (e, tt);
      source = λ w e. inl e;
      before = λ w v e f. let same : w ≡ v = some_inj (sym e ∙ f) in rw same (Precedes_refl v);
      all = λ w e. tt;
    }
    lookup_loop-Outcome (p ∷ ps) m (new, aged) old =
        let o = valid_at m svc section in
        let next = add_targets p p.target_refs m in
        let placed = add_policy-valid_at m svc section p in
        elim (Bool-cases (targets svc section p)) [
          | inl hit ↦
              let e : valid_at next svc section ≡ some (choose o p) =
                placed ∙ taken (targets svc section p) _ _ hit in
              step p ps o _ old new hit (
                subst (λ x. Outcome x ps (valid_at (lookup_loop ps next) svc section)) e
                  (lookup_loop-Outcome ps next aged
                    (λ v f. subst Aged (some_inj (sym e ∙ f)) (choose-Chosen o p old new).aged)))
          | inr miss ↦
              let e : valid_at next svc section ≡ o =
                placed ∙ passed (targets svc section p) _ _ miss in
              skip p ps o _ miss (
                subst (λ x. Outcome x ps (valid_at (lookup_loop ps next) svc section)) e
                  (lookup_loop-Outcome ps next aged (λ v f. old v (sym e ∙ f))))
        ]
      where
        taken : (b : Bool) (x y : Option Policy) → b ≡ true → (if b then x else y) ≡ x
        taken true x y e = refl
        taken false x y e = cc

        passed : (b : Bool) (x y : Option Policy) → b ≡ false → (if b then x else y) ≡ y
        passed false x y e = refl
        passed true x y e = cc

-- No policy targets the section where none holds; the one that holds targets it, and comes before
-- every policy that does.
abbrev pub IsSettled : NamespacedName → String → List Policy → Option Policy → Type 0
IsSettled svc section policies none = All (λ q. targets svc section q ≡ false) policies
IsSettled svc section policies (some w) =
    Any (λ q. (q ≡ w) × (targets svc section q ≡ true)) policies
    × All (λ q. targets svc section q ≡ true → Precedes w q) policies

-- Where the policies of one name are as old as each other, the lookup has a valid policy for a
-- section of a service exactly where some policy of the list targets that section, and it is one
-- that does and that is older than every other that does, or as old with a name that is not behind,
-- whatever the order of the list. The section without a name is a section of its own.
pub build_backend_tls_policy_lookup-IsSettled :
    (age : NamespacedName → ℕ) (policies : List Policy)
    → All (Aged age) policies
    → (svc : NamespacedName) (section : String)
    → IsSettled svc section policies
        (valid_at (build_backend_tls_policy_lookup policies) svc section)
unfolding build_backend_tls_policy_lookup
build_backend_tls_policy_lookup-IsSettled age policies aged svc section =
    let outcome =
      lookup_loop-Outcome age svc section policies [] aged (λ v e. cc (valid_at-nil svc section)) in
    elim (Option-cases (valid_at (lookup_loop policies []) svc section)) [
      | inl e ↦ rw e (outcome.absent e).1
      | inr (w, e) ↦ rw e (elim (outcome.source w e) [
        | inl before ↦ cc (valid_at-nil svc section)
        | inr hit ↦ (hit, outcome.all w e)
      ])
    ]
