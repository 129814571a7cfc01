-- ===== src/Access/Auth.antt =====
-- Authentication, roles and tenants (backend/internal/server/middleware/auth.go). A request is its
-- context and its Authorization header, "" if there is none; a handler that is wrapped is what
-- follows `passed`. The database and SHA-256 are parameters. A lookup gives none for an error and
-- for a nil row alike, as the code treats them. Amounts are in one fixed small unit. Identifiers of
-- users, teams and organizations are numbers.
pub mod Admission
pub mod Roles
use Prim.Native.String.{◌++◌}
use gateway_llm.Prelude.{
  ℕ, String, Bool, true, false, not, ◌&&◌, ◌||◌, Option, none, some, List, [], ◌∷◌, ltb, leb, ◌==◌,
  str_eq, if◌then◌else◌,
}
use gateway_llm.Prelude.Int.{ℤ, pos, negsuc, ltb_ℤ}

-- models.APIKey, the fields that are read here
pub record ApiKey : Type 0 where
  pub id : String
  pub name : String
  pub team_id : Option ℕ
  pub user_id : Option ℕ
  pub models : List String
  pub rpm_limit : Option ℤ
  pub tpm_limit : Option ℤ
  pub max_budget : Option ℕ
  pub total_spend : ℕ
  pub is_active : Bool
  pub expires_at : Option ℕ

-- models.User
pub record User : Type 0 where
  pub org_id : Option ℕ
  pub role : String

-- models.Team
pub record Team : Type 0 where
  pub org_id : Option ℕ
  pub max_budget : Option ℕ
  pub total_spend : ℕ

-- models.Organization
pub record Organization : Type 0 where
  pub max_budget : Option ℕ
  pub total_spend : ℕ
  pub is_active : Bool

-- What is looked up by a token's hash or by an identifier.
pub record Database : Type 0 where
  pub get_api_key_by_hash : String → Option ApiKey
  pub get_user : ℕ → Option User
  pub get_team : ℕ → Option Team
  pub get_organization : ℕ → Option Organization

-- The values under the four context keys.
pub record Context : Type 0 where
  pub api_key : Option ApiKey
  pub user : Option User
  pub is_master : Bool
  pub org_id : Option ℕ

-- A response with its status and message, or the next handler with its context.
pub data Outcome : Type 0 where
  rejected : ℕ → String → Outcome
  passed : Context → Outcome

-- roleLevel
unfoldable pub role_level : String → ℤ
role_level role =
    if str_eq role "super_admin"
    then pos 4
    else (if str_eq role "org_admin" || str_eq role "admin"
        then pos 3
        else (if str_eq role "team_admin"
            then pos 2
            else (if str_eq role "member" || str_eq role "user"
                then pos 1
                else (if str_eq role "viewer" then pos 0 else negsuc 0))))

-- strings.HasPrefix and strings.TrimPrefix
unfoldable pub trim_prefix : String → String → Option String
trim_prefix String.[] s = some s
trim_prefix (String.◌∷◌ c p) String.[] = none
trim_prefix (String.◌∷◌ c p) (String.◌∷◌ d s) =
    let rest = trim_prefix p s in if str_eq (String.◌∷◌ c "") (String.◌∷◌ d "") then rest else none

-- extractBearerToken, on the header
unfoldable pub extract_bearer_token : String → String
extract_bearer_token header = elim (trim_prefix "Bearer " header) [ none ↦ "" | some token ↦ token ]

-- budget != nil && spend >= *budget
abbrev pub is_exhausted : Option ℕ → ℕ → Bool
is_exhausted none spend = false
is_exhausted (some budget) spend = leb budget spend

-- expiry != nil && expiry.Before(now)
abbrev pub is_expired : Option ℕ → ℕ → Bool
is_expired none now = false
is_expired (some t) now = ltb t now

-- The lookup behind a pointer: nothing for nil.
abbrev pub fetch : {A : Type 0} → (ℕ → Option A) → Option ℕ → Option A
fetch get none = none
fetch get (some id) = get id

abbrev pub master_api_key : ApiKey
master_api_key = record {
  id = "00000000-0000-0000-0000-000000000000";
  rpm_limit = none;
  tpm_limit = none;
  name = "master_key";
  team_id = none;
  user_id = none;
  models = [];
  max_budget = none;
  total_spend = 0;
  is_active = true;
  expires_at = none;
}

-- context.WithValue for the user, if one was found
abbrev pub with_user : Option User → Context → Context
with_user none ctx = ctx
with_user (some u) ctx = record ctx { user = some u }

abbrev pub with_org : Option ℕ → Context → Context
with_org none ctx = ctx
with_org (some o) ctx = record ctx { org_id = some o }

-- The user's organization, where the context has none.
abbrev pub with_user_org : Option ℕ → Option User → Context → Context
with_user_org none (some u) ctx = with_org u.org_id ctx
with_user_org _ u ctx = ctx

-- The checks on the organization.
check_org : Option Organization → Context → Outcome
check_org none ctx = passed ctx
check_org (some org) ctx =
    if not org.is_active
    then rejected 403 "organization is deactivated"
    else (if is_exhausted org.max_budget org.total_spend
        then rejected 402 "organization budget exhausted"
        else passed ctx)

-- From the user's organization on.
check_user_org : Database → Option User → Context → Outcome
unfolding check_org
check_user_org database user ctx =
    let ctx' = with_user_org ctx.org_id user ctx in
    check_org (fetch database.get_organization ctx'.org_id) ctx'

-- From the team's budget on.
check_team : Database → Option Team → Option User → Context → Outcome
unfolding check_user_org
check_team database none user ctx = check_user_org database user ctx
check_team database (some team) user ctx =
    if is_exhausted team.max_budget team.total_spend
    then rejected 402 "team budget exhausted"
    else check_user_org database user (with_org team.org_id ctx)

-- From the lookup of the user on.
admit : Database → ApiKey → Context → Outcome
unfolding check_team
admit database key ctx =
    let user = fetch database.get_user key.user_id in
    check_team database (fetch database.get_team key.team_id) user
      (with_user user (record ctx { api_key = some key; is_master = false }))

-- The checks on the key.
check_key : Database → ℕ → Option ApiKey → Context → Outcome
unfolding admit
check_key database now none ctx = rejected 401 "invalid API key"
check_key database now (some key) ctx =
    if not key.is_active
    then rejected 403 "API key is deactivated"
    else (if is_expired key.expires_at now
        then rejected 403 "API key has expired"
        else (if is_exhausted key.max_budget key.total_spend
            then rejected 403 "API key has exceeded its budget"
            else admit database key ctx))

check_token : Option Database → (String → String) → ℕ → String → Context → Outcome
unfolding check_key
check_token none hash now token ctx = rejected 401 "invalid API key"
check_token (some database) hash now token ctx =
    check_key database now (database.get_api_key_by_hash (hash token)) ctx

-- masterKey != "" && token == masterKey
abbrev pub is_master_token : String → String → Bool
is_master_token master_key token = not (str_eq master_key "") && str_eq token master_key

-- Auth
unfoldable pub auth : Option Database → (String → String) → String → ℕ → String → Context → Outcome
unfolding check_token
auth database hash master_key now header ctx =
    let token = extract_bearer_token header in
    if str_eq token ""
    then rejected 401 "missing or invalid Authorization header"
    else (if is_master_token master_key token
        then passed (record ctx { api_key = some master_api_key; is_master = true })
        else check_token database hash now token ctx)

-- MasterKeyOnly
unfoldable pub master_key_only : Context → Outcome
master_key_only ctx =
    if ctx.is_master
    then passed ctx
    else rejected 403 "operator (master key) authentication required"

-- roleLevel(a) >= roleLevel(b)
abbrev pub has_level : String → String → Bool
unfolding role_level
has_level role min_role = not (ltb_ℤ (role_level role) (role_level min_role))

abbrev pub user_has_level : Option User → String → Bool
user_has_level none min_role = false
user_has_level (some u) min_role = has_level u.role min_role

admin_key : Option ApiKey → Context → Outcome
admin_key none ctx = rejected 401 "authentication required"
admin_key (some key) ctx =
    if ctx.is_master
    then passed ctx
    else (if user_has_level ctx.user "org_admin"
        then passed ctx
        else rejected 403 "admin access required")

-- AdminOnly
unfoldable pub admin_only : Context → Outcome
unfolding admin_key
admin_only ctx = admin_key ctx.api_key ctx

abbrev pub user_is_super : Option User → Bool
user_is_super none = false
user_is_super (some u) = str_eq u.role "super_admin"

-- IsSuperAdmin
unfoldable pub is_super_admin : Context → Bool
is_super_admin ctx = ctx.is_master || user_is_super ctx.user

same_org : Option ℕ → Option ℕ → Bool
same_org (some caller) (some target) = caller == target
same_org _ _ = false

-- CanAccessOrg
unfoldable pub can_access_org : Context → Option ℕ → Bool
unfolding same_org
can_access_org ctx target = is_super_admin ctx || same_org ctx.org_id target

-- RequireRole
unfoldable pub require_role : String → Context → Outcome
require_role min_role ctx =
    if ctx.is_master
    then passed ctx
    else (if user_has_level ctx.user min_role
        then passed ctx
        else rejected 403 (min_role ++ " access or higher required"))

-- HasRole
unfoldable pub has_role : Context → String → Bool
has_role ctx min_role = ctx.is_master || user_has_level ctx.user min_role

any_model : String → List String → Bool
any_model alias [] = false
any_model alias (m ∷ ms) = (str_eq m "*" || str_eq m alias) || any_model alias ms

allowed_models : List String → String → Bool
unfolding any_model
allowed_models [] alias = true
allowed_models (m ∷ ms) alias = any_model alias (m ∷ ms)

-- CheckModelAccess
unfoldable pub check_model_access : Option ApiKey → String → Bool
unfolding allowed_models
check_model_access none alias = true
check_model_access (some key) alias = allowed_models key.models alias
