-- ===== src/BackendTls/Laws.antt =====
-- The lookup gives, for a section of a service, what the policies that target it come to one by
-- one.
use controller_powered_by_di.Base.{
  String, Bool, true, false, ◌&&◌, ◌||◌, ◌≡◌, ◌↔◌, inl, inr, refl, sym, ap, ◌∙◌, Option, none, some,
  List, [], ◌∷◌, ◌==◌, ◌>>=◌, if◌then◌else◌, any, eq_iff, Bool-cases, ltb,
}
use controller_powered_by_di.Base.Sort.{text_lt}
use controller_powered_by_di.Base.Assoc.{find, upsert, find-upsert}
use controller_powered_by_di.Api.{NamespacedName}
use controller_powered_by_di.BackendTls.Choice.{choose, name_eq_iff, choose-again}
use controller_powered_by_di.BackendTls.{
  TargetRef, Policy, is_service_target_ref, name_eq, name_text, Collection, ServiceMap,
  upsert_valid_policy, upsert_conflicted_policy, resolve, service_of, section_of, in_collection,
  add_target, add_targets, no_policies,
}

text_test : (a b : String) → ((a == b) ≡ true) ↔ (a ≡ b)
text_test a b = eq_iff a b

abbrev at_section : String → Collection → Option Policy
at_section section c = find (λ a b. a == b) section c.valid

-- The valid policy of a section of a service.
unfoldable pub valid_at : ServiceMap → NamespacedName → String → Option Policy
unfolding find name_eq
valid_at m svc section = find name_eq svc m >>= at_section section

upsert-section :
    (c : Collection) (section other : String) (p : Policy)
    → at_section other (upsert_valid_policy section p c)
      ≡ (if section == other then some p else at_section other c)
unfolding upsert_valid_policy
upsert-section c section other p = find-upsert (λ a b. a == b) text_test section other p c.valid

-- What holds of all the outcomes of the tests holds of the one that is taken.
by_tests {ℓ} :
    (G : Collection → Policy → Type ℓ) (a b d e : Bool) {c won lost : Collection} {q p : Policy}
    → G c q
    → G won p
    → G lost q
    → G
        (if a then c else if b then won else if d then lost else if e then won else lost)
        (if a then q else if b then p else if d then q else if e then p else q)
by_tests G true b d e x y z = x
by_tests G false true d e x y z = y
by_tests G false false true e x y z = z
by_tests G false false false true x y z = y
by_tests G false false false false x y z = z

stays :
    (c : Collection) (section other : String) (q : Policy)
    → at_section section c ≡ some q
    → at_section other c ≡ (if section == other then some q else at_section other c)
stays c section other q e = elim (Bool-cases (section == other)) [
  | inl same ↦ rw same (ap (λ s. at_section s c) (sym ((eq_iff section other).0 same)) ∙ e)
  | inr differ ↦ rw differ refl
]

resolve-section :
    (o : Option Policy) (c : Collection) (section other : String) (p : Policy)
    → at_section section c ≡ o
    → at_section other (resolve o section p c)
      ≡ (if section == other then some (choose o p) else at_section other c)
unfolding resolve choose upsert_conflicted_policy
resolve-section none c section other p e = upsert-section c section other p
resolve-section (some q) c section other p e =
    by_tests
      (λ c' r. at_section other c' ≡ (if section == other then some r else at_section other c))
      (name_eq p.key q.key) (ltb p.created q.created) (ltb q.created p.created)
      (text_lt (name_text p.key) (name_text q.key)) (stays c section other q e)
      (upsert-section (upsert_conflicted_policy q.key q c) section other p)
      (stays c section other q e)

in_collection-section :
    (o : Option Collection) (section other : String) (p : Policy)
    → at_section other (in_collection o section p) ≡ (
        if section == other
        then some (choose (o >>= at_section section) p)
        else o >>= at_section other)
unfolding in_collection choose find
in_collection-section none section other p = upsert-section no_policies section other p
in_collection-section (some c) section other p =
    resolve-section (at_section section c) c section other p refl

-- The reference is to the section of the service.
abbrev pub hits : NamespacedName → String → Policy → TargetRef → Bool
hits svc section p ref =
    is_service_target_ref ref && (name_eq (service_of p ref) svc && section_of ref == section)

upsert-valid_at :
    (key svc : NamespacedName) (c : Collection) (m : ServiceMap) (section : String)
    → valid_at (upsert name_eq key c m) svc section
      ≡ (if name_eq key svc then at_section section c else valid_at m svc section)
unfolding valid_at
upsert-valid_at key svc c m section =
    ap (λ o. o >>= at_section section) (find-upsert name_eq name_eq_iff key svc c m)
    ∙ through (name_eq key svc)
  where
    through :
        (b : Bool)
        → ((if b then some c else find name_eq svc m) >>= at_section section)
          ≡ (if b then at_section section c else find name_eq svc m >>= at_section section)
    through true = refl
    through false = refl

placed :
    (m : ServiceMap) (key svc : NamespacedName) (sec section : String) (p : Policy)
    → valid_at (upsert name_eq key (in_collection (find name_eq key m) sec p) m) svc section ≡ (
        if name_eq key svc && sec == section
        then some (choose (valid_at m svc section) p)
        else valid_at m svc section)
unfolding valid_at
placed m key svc sec section p =
    upsert-valid_at key svc (in_collection (find name_eq key m) sec p) m section
    ∙ elim (Bool-cases (name_eq key svc)) [
      | inr differ ↦ rw differ refl
      | inl same ↦
          let k : key ≡ svc = (name_eq_iff key svc).0 same in
          rw same (
            in_collection-section (find name_eq key m) sec section p
            ∙ elim (Bool-cases (sec == section)) [
              | inr apart ↦ rw apart (ap (λ x. find name_eq x m >>= at_section section) k)
              | inl together ↦
                  let t : sec ≡ section = (eq_iff sec section).0 together in
                  rw together (
                    ap (λ x. some (choose (find name_eq x m >>= at_section sec) p)) k
                    ∙ ap (λ x. some (choose (find name_eq svc m >>= at_section x) p)) t)
            ])
    ]

guarded :
    (s a : Bool) (m1 m : ServiceMap) (svc : NamespacedName) (section : String) (x : Option Policy)
    → valid_at m1 svc section ≡ (if a then x else valid_at m svc section)
    → valid_at (if s then m1 else m) svc section ≡ (if s && a then x else valid_at m svc section)
guarded true a m1 m svc section x e = e
guarded false a m1 m svc section x e = refl

add_target-valid_at :
    (m : ServiceMap) (svc : NamespacedName) (section : String) (p : Policy) (ref : TargetRef)
    → valid_at (add_target p ref m) svc section ≡ (
        if hits svc section p ref
        then some (choose (valid_at m svc section) p)
        else valid_at m svc section)
unfolding add_target
add_target-valid_at m svc section p ref =
    guarded (is_service_target_ref ref)
      (name_eq (service_of p ref) svc && section_of ref == section) _ m svc section _
      (placed m (service_of p ref) svc (section_of ref) section p)

-- Some reference of the policy is to the section of the service.
unfoldable pub targets : NamespacedName → String → Policy → Bool
targets svc section p = any (hits svc section p) p.target_refs

again :
    (b : Bool) (o : Option Policy) (p : Policy)
    → (if b then some (choose (some (choose o p)) p) else some (choose o p)) ≡ some (choose o p)
again true o p = ap some (choose-again o p)
again false o p = refl

add_targets-valid_at :
    (m : ServiceMap) (svc : NamespacedName) (section : String) (p : Policy) (refs : List TargetRef)
    → valid_at (add_targets p refs m) svc section ≡ (
        if any (hits svc section p) refs
        then some (choose (valid_at m svc section) p)
        else valid_at m svc section)
unfolding add_targets
add_targets-valid_at m svc section p [] = refl
add_targets-valid_at m svc section p (ref ∷ refs) =
    add_targets-valid_at (add_target p ref m) svc section p refs
    ∙ ap (λ o. if any (hits svc section p) refs then some (choose o p) else o)
        (add_target-valid_at m svc section p ref)
    ∙ through (hits svc section p ref)
  where
    through :
        (b : Bool)
        → (if any (hits svc section p) refs
            then some (
                choose
                  (if b then some (choose (valid_at m svc section) p) else valid_at m svc section)
                  p)
            else if b
            then some (choose (valid_at m svc section) p)
            else valid_at m svc section)
          ≡ (if b || any (hits svc section p) refs
              then some (choose (valid_at m svc section) p)
              else valid_at m svc section)
    through true = again (any (hits svc section p) refs) (valid_at m svc section) p
    through false = refl

-- What one policy does to a section of a service.
pub add_policy-valid_at :
    (m : ServiceMap) (svc : NamespacedName) (section : String) (p : Policy)
    → valid_at (add_targets p p.target_refs m) svc section ≡ (
        if targets svc section p
        then some (choose (valid_at m svc section) p)
        else valid_at m svc section)
unfolding targets
add_policy-valid_at m svc section p = add_targets-valid_at m svc section p p.target_refs
