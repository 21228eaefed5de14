-- ===== src/Clients/Admin.antt =====
-- The guard of the operator's endpoints (src/auth/admin-api-key.guard.ts) and the key that it checks
-- (src/configuration/configuration.service.ts).
use avasettile.Common.{
  ◌≡◌, ◌≢◌, ◌⊎◌, Bool, true, false, String, Option, none, some, or_default, str_eq,
}
use avasettile.Effect.{Result, ok, err, admin_key_not_configured, invalid_admin_api_key}
use avasettile.Http.ApiKey.{HttpRequest, extract_api_key, trim, or_undefined}

-- `adminApiKey`, of the environment's AVASETTLE_ADMIN_API_KEY; `none` is the empty text.
unfoldable pub admin_api_key : Option String → Option String
admin_api_key variable = or_undefined (trim (or_default variable ""))

module _ (sha256 : String → String) where
  -- `validateAdminApiKey`, of the configured key and the candidate
  abbrev pub validate_admin_api_key : (expected candidate : Option String) → Bool
  validate_admin_api_key none candidate = false
  validate_admin_api_key (some expected) none = false
  validate_admin_api_key (some expected) (some candidate) =
      str_eq (sha256 expected) (sha256 candidate)

  abbrev pub refuse_unless : Bool → Result (Unit {0})
  refuse_unless true = ok tt
  refuse_unless false = err invalid_admin_api_key

  -- `canActivate`, of the configured key and the request's
  abbrev pub checked : (expected candidate : Option String) → Result (Unit {0})
  checked none candidate = err admin_key_not_configured
  checked (some expected) candidate =
      refuse_unless (validate_admin_api_key (some expected) candidate)

  unfoldable pub admit_operator : Option String → HttpRequest → Result (Unit {0})
  unfolding admin_api_key
  admit_operator variable req = checked (admin_api_key variable) (extract_api_key req)

  -- Two texts with one digest.
  abbrev pub IsCollision : String → String → Type 0
  IsCollision s t = (s ≢ t) × (sha256 s ≡ sha256 t)

  -- The key is configured and the request has it, or one that collides with it.
  abbrev pub HasKey : (expected candidate : Option String) → Type 0
  HasKey expected candidate =
      (key : String) × (given : String) × (expected ≡ some key)
      × (candidate ≡ some given)
      × ((key ≡ given) ⊎ IsCollision key given)
