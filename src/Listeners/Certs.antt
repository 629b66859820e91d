-- ===== src/Listeners/Certs.antt =====
-- The secrets of a listener: pkg/gateway_api/helpers.go, `isValidPemFormat`, and
-- pkg/gateway_api/gateway_reconcile.go, `validateTLSSecret`.
pub mod Laws
use controller_powered_by_di.Base.{
  ℕ, zero, suc, String, Bool, true, false, Option, none, some, if◌then◌else◌, deref_or,
}
use controller_powered_by_di.Base.Text.{is_empty}
use Prim.Native.String.{len}

-- What the client gives for a secret: an error, or the two entries of its data. A missing
-- entry is the empty text.
pub data Fetched : Type 0 where
  get_error : String → Fetched
  secret : String → String → Fetched

-- `pem.Decode` is a parameter: none without a block, else what is left after the first one.
module _ (decode : String → Option String) where
  -- On fuel; `none` is a lack of it.
  unfoldable pub pem_loop : ℕ → String → Option Bool
  pem_loop zero b = none
  pem_loop (suc fuel) b = if is_empty b then some false else elim (decode b) [
    | none ↦ some false
    | some rest ↦ if is_empty rest then some true else pem_loop fuel rest
  ]

  unfoldable pub is_valid_pem_format : String → Bool
  unfolding pem_loop
  is_valid_pem_format b = deref_or (pem_loop (suc (len b)) b) false

  -- The error of the check, if it has one.
  unfoldable pub validate_tls_secret : Fetched → Option String
  unfolding is_valid_pem_format
  validate_tls_secret (get_error message) = some message
  validate_tls_secret (secret cert key) =
      if is_valid_pem_format cert
      then (if is_valid_pem_format key then none else some "TLS PRIVATE KEY ")
      else some "tls cert key is missed"
