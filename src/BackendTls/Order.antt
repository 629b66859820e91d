-- ===== src/BackendTls/Order.antt =====
-- The order of policies, and that the choice of two precedes both.
use controller_powered_by_di.Base.{
  ◌<◌, String, true, false, ◌≡◌, ◌⊎◌, inl, inr, refl, sym, ap, ◌∙◌, some, arith, Bool-cases, ltb,
}
use controller_powered_by_di.Base.Sort.{text_lt, text_le, text_lt_iff, text_le_total, text_le_trans}
use controller_powered_by_di.BackendTls.{Policy, name_eq, name_text}
use controller_powered_by_di.BackendTls.Choice.{choose, name_eq_iff}

-- The first policy is older, or as old with a name that is not behind in the order of texts.
abbrev pub Precedes : Policy → Policy → Type 0
Precedes a b =
    (a.created < b.created)
    ⊎ ((a.created ≡ b.created) × (text_le (name_text a.key) (name_text b.key) ≡ true))

pub Precedes_trans : (a b c : Policy) → Precedes a b → Precedes b c → Precedes a c
Precedes_trans a b c (inl x) (inl y) = inl (omega (arith, x, y))
Precedes_trans a b c (inl x) (inr (y, _)) = inl (omega (arith, x, y))
Precedes_trans a b c (inr (x, _)) (inl y) = inl (omega (arith, x, y))
Precedes_trans a b c (inr (x, s)) (inr (y, t)) = inr (x ∙ y, text_le_trans _ _ _ s t)

text_le_refl : (a : String) → text_le a a ≡ true
text_le_refl a = elim (Bool-cases (text_le a a)) [ inl h ↦ h | inr h ↦ text_le_total a a h ]

pub Precedes_refl : (a : Policy) → Precedes a a
Precedes_refl a = inr (refl, text_le_refl (name_text a.key))

not_before : (a b : String) → text_lt a b ≡ false → text_le b a ≡ true
not_before a b h = elim (Bool-cases (text_le b a)) [
  | inl le ↦ le
  | inr gt ↦ cc (h, (text_lt_iff a b).1 gt)
]

-- The one chosen precedes both, where policies of one name are as old as each other.
pub choose-Precedes :
    (q p : Policy)
    → (p.key ≡ q.key → p.created ≡ q.created)
    → Precedes (choose (some q) p) q × Precedes (choose (some q) p) p
unfolding choose
choose-Precedes q p one = elim (Bool-cases (name_eq p.key q.key)) [
  | inl same ↦
      let k : p.key ≡ q.key = (name_eq_iff p.key q.key).0 same in
      rw same
        (Precedes_refl q, inr (sym (one k), rw (ap name_text k) (text_le_refl (name_text q.key))))
  | inr differ ↦ elim (Bool-cases (ltb p.created q.created)) [
    | inl younger ↦ rw (differ, younger) (inl (ground arith), Precedes_refl p)
    | inr younger ↦ elim (Bool-cases (ltb q.created p.created)) [
      | inl older ↦ rw (differ, younger, older) (Precedes_refl q, inl (ground arith))
      | inr older ↦ elim (Bool-cases (text_lt (name_text p.key) (name_text q.key))) [
        | inl first ↦
            rw (differ, younger, older, first)
              (inr (ground arith, text_le_total _ _ ((text_lt_iff _ _).0 first)), Precedes_refl p)
        | inr last ↦
            rw (differ, younger, older, last)
              (Precedes_refl q, inr (ground arith, not_before _ _ last))
      ]
    ]
  ]
]
