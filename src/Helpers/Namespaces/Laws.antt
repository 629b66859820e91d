-- ===== src/Helpers/Namespaces/Laws.antt =====
-- Which routes' namespaces a listener admits, as a relation.
use controller_powered_by_di.Base.{
  String, ◌≡◌, ◌↔◌, inl, inr, refl, sym, ◌∙◌, true, false, Bool, Option, none, some, List, [], ◌∷◌,
  ◌++◌, arith, eq_iff, if◌then◌else◌, ◌==◌, Option-cases,
}
use controller_powered_by_di.Api.{Listener, AllowedRoutes, LabelSelector, FromNamespaces, Namespace}
use controller_powered_by_di.Helpers.Namespaces.{
  Labels, NamespaceLabelIndex, labels_of, index_from, new_namespace_label_index,
  is_namespace_selected, is_listener_namespace_allowed, from_test, allowed_test, namespaces_test,
}

-- The policy that a listener states, where `nothing` stands for the default of the API.
pub data Policy : Type 0 where
  only_own everyone nobody : Policy
  selected : Option LabelSelector → Policy

abbrev pub stated : Option FromNamespaces → Option LabelSelector → Policy
stated none none = only_own
stated none (some s) = selected (some s)
stated (some FromNamespaces.all) s = everyone
stated (some FromNamespaces.same) s = only_own
stated (some FromNamespaces.selector) s = selected s
stated (some FromNamespaces.none_allowed) s = nobody
stated (some (FromNamespaces.other _)) s = nobody

abbrev pub policy_of : Option AllowedRoutes → Policy
policy_of none = only_own
policy_of (some a) = elim a.namespaces [ none ↦ only_own | some r ↦ stated r.from r.selector ]

module _ (as_selector : Option LabelSelector → Option (Labels → Bool)) where
  -- A namespace is admitted by `All`, by being the gateway's own, or by known labels that a valid
  -- selector matches.
  pub data Admits (index : NamespaceLabelIndex) (route gateway : String) : Policy → Type 0 where
    to_everyone : Admits index route gateway everyone
    to_own : route ≡ gateway → Admits index route gateway only_own
    to_selected :
        {s : Option LabelSelector} (labels : Labels) (matches : Labels → Bool)
        → labels_of index route ≡ some labels
        → as_selector s ≡ some matches
        → matches labels ≡ true
        → Admits index route gateway (selected s)

  is_namespace_selected_sound :
      (index : NamespaceLabelIndex) (route gateway : String) (s : Option LabelSelector)
      → is_namespace_selected as_selector s route index ≡ true
      → Admits index route gateway (selected s)
  unfolding is_namespace_selected
  is_namespace_selected_sound index route gateway s h =
      elim (Option-cases (labels_of index route)) [
        | inl unknown ↦ ground arith
        | inr (labels, known) ↦ elim (Option-cases (as_selector s)) [
          | inl invalid ↦ ground arith
          | inr (matches, valid) ↦ to_selected labels matches known valid (ground arith)
        ]
      ]

  abbrev policy_test : NamespaceLabelIndex → String → String → Policy → Bool
  policy_test index route gateway only_own = route == gateway
  policy_test index route gateway everyone = true
  policy_test index route gateway nobody = false
  policy_test index route gateway (selected s) = is_namespace_selected as_selector s route index

  policy_test-stated :
      (index : NamespaceLabelIndex) (route gateway : String) (f : Option FromNamespaces)
      (s : Option LabelSelector)
      → from_test as_selector f s route gateway index ≡ policy_test index route gateway (stated f s)
  unfolding from_test
  policy_test-stated index route gateway none none = refl
  policy_test-stated index route gateway none (some s) = refl
  policy_test-stated index route gateway (some FromNamespaces.all) s = refl
  policy_test-stated index route gateway (some FromNamespaces.same) s = refl
  policy_test-stated index route gateway (some FromNamespaces.selector) s = refl
  policy_test-stated index route gateway (some FromNamespaces.none_allowed) s = refl
  policy_test-stated index route gateway (some (FromNamespaces.other _)) s = refl

  policy_test-allowed :
      (index : NamespaceLabelIndex) (route gateway : String) (a : Option AllowedRoutes)
      → allowed_test as_selector a route gateway index
        ≡ policy_test index route gateway (policy_of a)
  unfolding allowed_test
  policy_test-allowed index route gateway none = refl
  policy_test-allowed index route gateway (some a) =
      elim a.namespaces
        as (λ n.
          namespaces_test as_selector n route gateway index
          ≡ policy_test index route gateway
              (elim n [ none ↦ only_own | some r ↦ stated r.from r.selector ])) [
                | none ↦ refl
                | some r ↦ policy_test-stated index route gateway r.from r.selector
              ]

  policy_test_sound :
      (index : NamespaceLabelIndex) (route gateway : String) (p : Policy)
      → policy_test index route gateway p ≡ true
      → Admits index route gateway p
  policy_test_sound index route gateway only_own h = to_own ((eq_iff route gateway).0 h)
  policy_test_sound index route gateway everyone h = to_everyone
  policy_test_sound index route gateway nobody h = cc
  policy_test_sound index route gateway (selected s) h =
      is_namespace_selected_sound index route gateway s h

  policy_test_complete :
      (index : NamespaceLabelIndex) (route gateway : String) (p : Policy)
      → Admits index route gateway p
      → policy_test index route gateway p ≡ true
  unfolding is_namespace_selected
  policy_test_complete index route gateway p to_everyone = refl
  policy_test_complete index route gateway p (to_own e) = (eq_iff route gateway).1 e
  policy_test_complete index route gateway p (to_selected labels matches known valid fits) =
      ground (arith, known, valid, fits)

  -- A listener admits a route's namespace exactly by its stated policy: its own namespace where it
  -- states none, and by a selector where it states one, which has to be valid and to match the
  -- labels of a namespace that is known.
  pub is_listener_namespace_allowed_iff :
      (listener : Listener) (route gateway : String) (index : NamespaceLabelIndex)
      → (is_listener_namespace_allowed as_selector listener route gateway index ≡ true)
        ↔ Admits index route gateway (policy_of listener.allowed_routes)
  unfolding is_listener_namespace_allowed
  is_listener_namespace_allowed_iff listener route gateway index =
      let p : Policy = policy_of listener.allowed_routes in
      let same = policy_test-allowed index route gateway listener.allowed_routes in
      (
        λ h. policy_test_sound index route gateway p (sym same ∙ h),
        λ a. same ∙ policy_test_complete index route gateway p a,
      )

index_from-append :
    (index : NamespaceLabelIndex) (xs : List Namespace) (n : Namespace)
    → index_from index (xs ++ n ∷ []) ≡ (n.name, n.labels) ∷ index_from index xs
unfolding index_from
index_from-append index [] n = refl
index_from-append index (x ∷ xs) n = index_from-append ((x.name, x.labels) ∷ index) xs n

-- In the index of a list of namespaces the labels of a name are those of the last namespace that
-- has it.
labels_of-last :
    (xs : List Namespace) (n : Namespace) (ns : String)
    → labels_of (new_namespace_label_index (xs ++ n ∷ [])) ns
      ≡ (if n.name == ns then some n.labels else labels_of (new_namespace_label_index xs) ns)
unfolding new_namespace_label_index labels_of
labels_of-last xs n ns = rw (index_from-append [] xs n) refl
