-- ===== src/BackendTls/Choice.antt =====
-- The choice between two policies.
use controller_powered_by_di.Base.{
  Bool, true, false, ◌≡◌, ◌↔◌, ◌⊎◌, inl, inr, refl, sym, ap, ◌∙◌, Option, none, some, if◌then◌else◌,
  arith, eq_iff, eq_refl, ltb,
}
use controller_powered_by_di.Base.Sort.{text_lt}
use controller_powered_by_di.Api.{NamespacedName}
use controller_powered_by_di.BackendTls.{Policy, name_eq, name_text}

pub name_eq_iff : (a b : NamespacedName) → (name_eq a b ≡ true) ↔ (a ≡ b)
unfolding name_eq
name_eq_iff a b = (
  λ h.
      let ns = (eq_iff a.namespace b.namespace).0 (ground arith) in
      let n = (eq_iff a.name b.name).0 (ground arith) in
      λ i. record { namespace = ns i; name = n i },
  λ e. rw (e, eq_refl b.namespace, eq_refl b.name) refl,
)

-- The policy that holds between the one in place, if any, and the next.
unfoldable pub choose : Option Policy → Policy → Policy
unfolding name_eq text_lt
choose none p = p
choose (some q) p =
    if name_eq p.key q.key
    then q
    else if ltb p.created q.created
    then p
    else if ltb q.created p.created
    then q
    else if text_lt (name_text p.key) (name_text q.key)
    then p
    else q

pub choose-none : (p : Policy) → choose none p ≡ p
unfolding choose
choose-none p = refl

pub choose-cases : (q p : Policy) → (choose (some q) p ≡ q) ⊎ (choose (some q) p ≡ p)
unfolding choose
choose-cases q p =
    tests (name_eq p.key q.key) (ltb p.created q.created) (ltb q.created p.created)
      (text_lt (name_text p.key) (name_text q.key))
  where
    Taken : Policy → Type 0
    Taken x = (x ≡ q) ⊎ (x ≡ p)

    tests :
        (a b d e : Bool)
        → Taken (if a then q else if b then p else if d then q else if e then p else q)
    tests true b d e = inl refl
    tests false true d e = inr refl
    tests false false true e = inl refl
    tests false false false true = inr refl
    tests false false false false = inl refl

pub choose_self : (p : Policy) → choose (some p) p ≡ p
unfolding choose
choose_self p = rw ((name_eq_iff p.key p.key).1 refl) refl

-- A second reference of the same policy to a section changes nothing.
pub choose-again : (o : Option Policy) (p : Policy) → choose (some (choose o p)) p ≡ choose o p
choose-again none p =
    ap (λ x. choose (some x) p) (choose-none p) ∙ choose_self p ∙ sym (choose-none p)
choose-again (some q) p = elim (choose-cases q p) [
  | inl e ↦ ap (λ x. choose (some x) p) e
  | inr e ↦ ap (λ x. choose (some x) p) e ∙ choose_self p ∙ sym e
]
