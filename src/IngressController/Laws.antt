-- ===== src/IngressController/Laws.antt =====
-- pkg/ingress/ingress_reconcile.go: which Ingresses share a load balancer.
use native.Mathlib.Omega.{arith}
use controller_powered_by_di.Base.{
  deref_or, ◌==◌, any, is_some, none, ℕ, Bool, true, false, ◌&&◌, not, Option, none, some, List, [],
  ◌∷◌, ◌≡◌, refl, ap, keep, inl, inr, ◌||◌, if◌then◌else◌, Bool-cases, Option-cases,
}
use controller_powered_by_di.Base.Sort.{text_lt, text_lt_asym, text_lt_not_trans}
use controller_powered_by_di.Base.StableSort.{
  stable_sort, stable_sort-keep, any-stable_sort, IsWeakOrder,
}
use controller_powered_by_di.Api.{Ingress}
use controller_powered_by_di.Model
use controller_powered_by_di.Ingestion.Annotations.{Lookups}
use controller_powered_by_di.Translation.Infra.{Infra}
use controller_powered_by_di.IngressController.{
  ingress_class_name, is_dolphin_default_ingress_controller, no_listeners, IngressReconciler,
  Labels, is_dolphin_managed_ingress, is_effective_loadbalancer_mode_dedicated, add_ingress,
  is_skipped, add_shared, ingress_before, build_shared_resources, get_shared_listener_ports,
}

ingress_before-IsWeakOrder : IsWeakOrder ingress_before
unfolding text_lt ingress_before
ingress_before-IsWeakOrder = record {
  asym = λ a b h. text_lt_asym _ _ h;
  not_trans = λ a b c h k. text_lt_not_trans _ _ _ h k;
}

-- Neither the annotation nor the field is set.
abbrev pub has_no_class : Ingress → Bool
has_no_class ing = not (is_some (ingress_class_name ing))

module _ (r : IngressReconciler) (lookups : Lookups) (infra : Infra) (hops : ℕ)
    (dolphin_class : Option Labels) where
  -- Managed, in the shared mode and not being deleted.
  abbrev pub is_shared : Ingress → Bool
  is_shared ing =
      deref_or (is_dolphin_managed_ingress dolphin_class ing) false
      && (not (is_effective_loadbalancer_mode_dedicated r lookups ing) && not ing.deleted)

  managed_of_class :
      (ing : Ingress)
      → has_no_class ing ≡ false
      → (managed : Bool) × (is_dolphin_managed_ingress dolphin_class ing ≡ some managed)
  unfolding is_dolphin_managed_ingress
  managed_of_class ing h = elim (Option-cases (ingress_class_name ing)) [
    | inl absent ↦ cc (rw (absent, has_no_class) at h)
    | inr (name, found) ↦ (
      (name == "dolphin") || ((name == "") && is_dolphin_default_ingress_controller dolphin_class),
      rw found refl,
    )
  ]

  is_skipped-none :
      (ing : Ingress)
      → has_no_class ing ≡ true
      → is_skipped r lookups infra hops dolphin_class ing ≡ none
  unfolding is_skipped is_dolphin_managed_ingress
  is_skipped-none ing h = elim (Option-cases (ingress_class_name ing)) [
    | inl absent ↦ rw absent refl
    | inr (name, found) ↦ cc (rw (found, has_no_class) at h)
  ]

  is_skipped-some :
      (ing : Ingress)
      → has_no_class ing ≡ false
      → is_skipped r lookups infra hops dolphin_class ing ≡ some (not (is_shared ing))
  unfolding is_skipped
  is_skipped-some ing h =
      let (managed, found) = managed_of_class ing h in
      rw (found, is_skipped)
        (ap some
          (de_morgan managed (is_effective_loadbalancer_mode_dedicated r lookups ing) ing.deleted))
    where
      de_morgan : (a b c : Bool) → (not a || (b || c)) ≡ not (a && (not b && not c))
      de_morgan a b c = ground arith

  add_shared-keep :
      (ings : List Ingress) (m : Model.Model)
      → add_shared r lookups infra hops dolphin_class ings m ≡ (
          if any has_no_class ings
          then none
          else add_shared r lookups infra hops dolphin_class (keep is_shared ings) m)
  unfolding add_shared
  add_shared-keep [] m = refl
  add_shared-keep (ing ∷ ings) m = elim (Bool-cases (has_no_class ing)) [
    | inl classless ↦ rw (classless, is_skipped-none ing classless) refl
    | inr classed ↦ elim (Bool-cases (is_shared ing)) [
      | inr dropped ↦
          rw (classed, dropped, is_skipped-some ing classed, dropped) (add_shared-keep ings m)
      | inl kept ↦
          rw (classed, kept, is_skipped-some ing classed, kept)
            (elim (Option-cases (
              add_ingress r lookups (get_shared_listener_ports r).1.0
                (get_shared_listener_ports r).1.1 ing m)) [
                  | inl panics ↦ rw panics (ground arith)
                  | inr (m', made) ↦ rw made (add_shared-keep ings m')
                ])
    ]
  ]

  -- Where an Ingress of the list has no class, neither as an annotation nor as a field, the shared
  -- resources are a panic. Else they depend only on the Ingresses that are managed, in the shared
  -- mode and not being deleted: they are the same when all others are left out of the list.
  pub build_shared_resources-keep :
      (ings : List Ingress)
      → build_shared_resources r lookups infra hops dolphin_class ings ≡ (
          if any has_no_class ings
          then none
          else build_shared_resources r lookups infra hops dolphin_class (keep is_shared ings))
  unfolding build_shared_resources
  build_shared_resources-keep ings =
      rw
        (
          stable_sort-keep ingress_before ingress_before-IsWeakOrder is_shared ings,
          add_shared-keep (stable_sort ingress_before ings) no_listeners,
          any-stable_sort ingress_before has_no_class ings,
        )
        (elim (Bool-cases (any has_no_class ings)) [
          | inl some_lacks ↦ rw some_lacks refl
          | inr all ↦ rw all refl
        ])
