-- ===== src/Translation/Infra.antt =====
-- The functions and the constant of the infrastructure library that pkg/model/translation calls, on which the code
-- and its theorems depend through this interface.
use controller_powered_by_di.Base.{ℕ, String, List, ◌≡◌, contains}

pub record Infra : Type 0 where
  -- `math.IntMax`
  pub int_max : ℕ → ℕ → ℕ
  -- `slices.Unique`, `slices.SortedUniqs` and `slices.SortedUnique`
  pub unique : List String → List String
  pub sorted_uniqs : List String → List String
  pub sorted_unique : List String → List String
  -- `k8s.UseOriginalSourceAddressLabel`
  pub use_original_source_address_label : String

-- What is documented of them: they keep what is in a list.
pub record IsInfra (infra : Infra) : Type 0 where
  pub contains-unique :
      (xs : List String) (a : String) → contains (infra.unique xs) a ≡ contains xs a
  pub contains-sorted_uniqs :
      (xs : List String) (a : String) → contains (infra.sorted_uniqs xs) a ≡ contains xs a
