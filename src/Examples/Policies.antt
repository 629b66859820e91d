-- ===== src/Examples/Policies.antt =====
-- Grants, namespaces and conditions at concrete objects.
use controller_powered_by_di.Base.{
  String, Bool, ◌≡◌, ◌↔◌, ◌⊎◌, refl, true, Option, some, List, [], ◌∷◌, Any, is_nil, not,
}
use controller_powered_by_di.Api.{LabelSelector, Namespace}
use controller_powered_by_di.Helpers.Grants.{namespace_deref_or, is_reference_allowed, service_gvk}
use controller_powered_by_di.Helpers.Grants.Laws.{Permits, is_reference_allowed_iff}
use controller_powered_by_di.Helpers.Namespaces.{Labels, is_listener_namespace_allowed}
use controller_powered_by_di.Helpers.Namespaces.Laws.{
  Admits, policy_of, is_listener_namespace_allowed_iff,
}
use controller_powered_by_di.Helpers.Conditions.{merge_conditions, is_condition_present}
use controller_powered_by_di.Helpers.Conditions.Find.{find_condition}
use controller_powered_by_di.Helpers.Conditions.Laws.{
  Merged, merge_conditions-Merged, merge_conditions_of_Reports,
}
use controller_powered_by_di.Helpers.Conditions.Distinct.{
  HasDistinctTypes, merge_conditions-HasDistinctTypes,
}
use controller_powered_by_di.Examples.Objects.{web, grant, http_route_gvk, accepted, rejected_now}

allowed_by_grant :
    is_reference_allowed "apps" "shop" (some "other") http_route_gvk service_gvk (grant ∷ []) ≡ true
unfolding is_reference_allowed
allowed_by_grant = refl

is_reference_allowed_iff_example :
    (is_reference_allowed "apps" "shop" (some "other") http_route_gvk service_gvk (grant ∷ [])
      ≡ true)
    ↔ (("apps" ≡ namespace_deref_or (some "other") "apps")
        ⊎ Any
            (Permits "apps" "shop"
              (namespace_deref_or (some "other") "apps")
              http_route_gvk
              service_gvk)
            (grant ∷ []))
is_reference_allowed_iff_example =
    is_reference_allowed_iff "apps" "shop" (some "other") http_route_gvk service_gvk (grant ∷ [])

-- A selector that is valid, and matches every namespace with a label.
labelled : Option LabelSelector → Option (Labels → Bool)
labelled _ = some (λ labels. not (is_nil labels))

is_listener_namespace_allowed_iff_example :
    (is_listener_namespace_allowed labelled web "apps" "apps" [] ≡ true)
    ↔ Admits labelled [] "apps" "apps" (policy_of web.allowed_routes)
is_listener_namespace_allowed_iff_example =
    is_listener_namespace_allowed_iff labelled web "apps" "apps" []

abbrev apps : List (String × String) → Namespace
apps labels = record { name = "apps"; labels = labels }

merge_conditions-Merged_example :
    Merged (accepted ∷ []) (merge_conditions (accepted ∷ []) (rejected_now ∷ [])) rejected_now
merge_conditions-Merged_example = merge_conditions-Merged (accepted ∷ []) rejected_now

merge_conditions_of_Reports_example :
    merge_conditions (accepted ∷ []) ((record accepted { last_transition_time = 9 }) ∷ [])
    ≡ (accepted ∷ [])
unfolding find_condition
merge_conditions_of_Reports_example =
    merge_conditions_of_Reports (accepted ∷ []) (record accepted { last_transition_time = 9 })
      accepted refl
      (record {
        kind = refl;
        status = refl;
        reason = refl;
        message = refl;
        observed_generation = refl;
      })

merge_conditions-HasDistinctTypes_example :
    HasDistinctTypes (merge_conditions (accepted ∷ []) (rejected_now ∷ []))
unfolding is_condition_present
merge_conditions-HasDistinctTypes_example =
    merge_conditions-HasDistinctTypes (accepted ∷ []) rejected_now (refl, tt)
