-- ===== src/Access/Auth/Admission.antt =====
-- Which requests `Auth` lets through (backend/internal/server/middleware/auth.go).
use gateway_llm.Prelude.{
  ℕ, ◌≡◌, refl, sym, ap, ◌∙◌, String, true, false, Option, none, some, arith, ◌⊎◌, inl, inr, str_eq,
  Bool-cases,
}
use gateway_llm.Access.Auth.{
  ApiKey, User, Team, Organization, Database, Context, rejected, passed, auth, extract_bearer_token,
  is_exhausted, is_expired, fetch, is_master_token, check_token, check_key, admit, check_team,
  check_user_org, check_org, with_user, with_org, with_user_org, master_api_key,
}

-- The key of a request that was let through without the master key: it stands in the database under
-- the token's hash, is active, not expired and within its budget, and so are its team's budget and
-- the organization of the context that is handed on, as far as the database knows them.
pub record Admitted (database : Database) (now : ℕ) (hash : String) (ctx' : Context) : Type 0 where
  pub key : ApiKey
  pub stored : database.get_api_key_by_hash hash ≡ some key
  pub handed_on : ctx'.api_key ≡ some key
  pub not_master : ctx'.is_master ≡ false
  pub active : key.is_active ≡ true
  pub not_expired : is_expired key.expires_at now ≡ false
  pub key_budget : is_exhausted key.max_budget key.total_spend ≡ false
  pub team_budget :
      (t : Team)
      → fetch database.get_team key.team_id ≡ some t
      → is_exhausted t.max_budget t.total_spend ≡ false
  pub org_budget :
      (o : Organization)
      → fetch database.get_organization ctx'.org_id ≡ some o
      → (o.is_active ≡ true) × (is_exhausted o.max_budget o.total_spend ≡ false)

-- What the checks on the organization leave.
record OrgPassed (database : Database) (ctx ctx' : Context) : Type 0 where
  same_key : ctx'.api_key ≡ ctx.api_key
  same_master : ctx'.is_master ≡ ctx.is_master
  budget :
      (o : Organization)
      → fetch database.get_organization ctx'.org_id ≡ some o
      → (o.is_active ≡ true) × (is_exhausted o.max_budget o.total_spend ≡ false)

check_org-passed :
    (o : Option Organization) (ctx ctx' : Context)
    → check_org o ctx ≡ passed ctx'
    → (ctx ≡ ctx')
      × ((x : Organization)
          → o ≡ some x
          → (x.is_active ≡ true) × (is_exhausted x.max_budget x.total_spend ≡ false))
unfolding check_org
check_org-passed none ctx ctx' e = ground arith
check_org-passed (some org) ctx ctx' e = ground arith

with_user_org_keeps :
    (o : Option ℕ) (u : Option User) (ctx : Context)
    → ((with_user_org o u ctx).api_key ≡ ctx.api_key)
      × ((with_user_org o u ctx).is_master ≡ ctx.is_master)
with_user_org_keeps none none ctx = (refl, refl)
with_user_org_keeps none (some u) ctx = ground arith
with_user_org_keeps (some o) u ctx = (refl, refl)

check_user_org-passed :
    (database : Database) (user : Option User) (ctx ctx' : Context)
    → check_user_org database user ctx ≡ passed ctx'
    → OrgPassed database ctx ctx'
unfolding check_user_org
check_user_org-passed database user ctx ctx' e =
    let given = with_user_org ctx.org_id user ctx in
    let (same, ok) = check_org-passed (fetch database.get_organization given.org_id) given ctx' e in
    let keeps = with_user_org_keeps ctx.org_id user ctx in
    record {
      same_key = ap (λ c. c.api_key) (sym same) ∙ keeps.0;
      same_master = ap (λ c. c.is_master) (sym same) ∙ keeps.1;
      budget = λ o f. ok o (ap (λ c. fetch database.get_organization c.org_id) same ∙ f);
    }

with_org_keeps :
    (o : Option ℕ) (ctx : Context)
    → ((with_org o ctx).api_key ≡ ctx.api_key) × ((with_org o ctx).is_master ≡ ctx.is_master)
with_org_keeps none ctx = (refl, refl)
with_org_keeps (some o) ctx = (refl, refl)

with_user_keeps :
    (u : Option User) (ctx : Context)
    → ((with_user u ctx).api_key ≡ ctx.api_key) × ((with_user u ctx).is_master ≡ ctx.is_master)
with_user_keeps none ctx = (refl, refl)
with_user_keeps (some u) ctx = (refl, refl)

same_team : (s t : Team) → some s ≡ some t → s ≡ t
same_team s t f = cc

check_team-passed :
    (database : Database) (team : Option Team) (user : Option User) (ctx ctx' : Context)
    → check_team database team user ctx ≡ passed ctx'
    → OrgPassed database ctx ctx'
      × ((t : Team) → team ≡ some t → is_exhausted t.max_budget t.total_spend ≡ false)
unfolding check_team
check_team-passed database none user ctx ctx' =
    λ e. (check_user_org-passed database user ctx ctx' e, λ t f. absurd (cc f))
check_team-passed database (some team) user ctx ctx' =
    elim (Bool-cases (is_exhausted team.max_budget team.total_spend)) [
      | inl spent ↦ rw spent (λ e. absurd (cc e))
      | inr left ↦ rw left (λ e.
          let p = check_user_org-passed database user (with_org team.org_id ctx) ctx' e in
          let keeps = with_org_keeps team.org_id ctx in
          (
            record {
              same_key = p.same_key ∙ keeps.0;
              same_master = p.same_master ∙ keeps.1;
              budget = p.budget;
            },
            λ t f.
                ap (λ x. is_exhausted x.max_budget x.total_spend) (sym (same_team team t f)) ∙ left,
          ))
    ]

admit-Admitted :
    (database : Database) (now : ℕ) (hash : String) (key : ApiKey) (ctx ctx' : Context)
    → database.get_api_key_by_hash hash ≡ some key
    → key.is_active ≡ true
    → is_expired key.expires_at now ≡ false
    → is_exhausted key.max_budget key.total_spend ≡ false
    → admit database key ctx ≡ passed ctx'
    → Admitted database now hash ctx'
unfolding admit
admit-Admitted database now hash k ctx ctx' found act fresh rich e =
    let user = fetch database.get_user k.user_id in
    let given : Context = record ctx { api_key = some k; is_master = false } in
    let keeps = with_user_keeps user given in
    let (p, team) =
      check_team-passed database (fetch database.get_team k.team_id) user (with_user user given)
        ctx' e in
    record {
      key = k;
      stored = found;
      handed_on = p.same_key ∙ keeps.0;
      not_master = p.same_master ∙ keeps.1;
      active = act;
      not_expired = fresh;
      key_budget = rich;
      team_budget = team;
      org_budget = p.budget;
    }

rejected_not : (s : ℕ) (m : String) (ctx : Context) → rejected s m ≡ passed ctx → ⊥
rejected_not s m ctx e = cc

check_key-Admitted :
    (database : Database) (now : ℕ) (hash : String) (o : Option ApiKey) (ctx ctx' : Context)
    → database.get_api_key_by_hash hash ≡ o
    → check_key database now o ctx ≡ passed ctx'
    → Admitted database now hash ctx'
unfolding check_key
check_key-Admitted database now hash none ctx ctx' found = λ e. absurd (rejected_not _ _ ctx' e)
check_key-Admitted database now hash (some key) ctx ctx' found = elim (Bool-cases key.is_active) [
  | inr idle ↦ simp idle (λ e. absurd (rejected_not _ _ ctx' e))
  | inl act ↦ elim (Bool-cases (is_expired key.expires_at now)) [
    | inl old ↦ simp (act, old) (λ e. absurd (rejected_not _ _ ctx' e))
    | inr fresh ↦ elim (Bool-cases (is_exhausted key.max_budget key.total_spend)) [
      | inl spent ↦ simp (act, fresh, spent) (λ e. absurd (rejected_not _ _ ctx' e))
      | inr rich ↦
          simp (act, fresh, rich)
            (λ e. admit-Admitted database now hash key ctx ctx' found act fresh rich e)
    ]
  ]
]

-- The two ways through: the master key, or an admitted key of the database.
pub Through : Option Database → (String → String) → String → ℕ → String → Context → Type 0
Through none hash master_key now token ctx' =
    (is_master_token master_key token ≡ true) × (ctx'.is_master ≡ true)
Through (some database) hash master_key now token ctx' =
    ((is_master_token master_key token ≡ true) × (ctx'.is_master ≡ true))
    ⊎ (is_master_token master_key token ≡ false) × Admitted database now (hash token) ctx'

passed_same : (a b : Context) → passed a ≡ passed b → a ≡ b
passed_same a b e = cc

master-Through :
    (db : Option Database) (hash : String → String) (mk token : String) (now : ℕ)
    (ctx ctx' : Context)
    → is_master_token mk token ≡ true
    → passed (record ctx { api_key = some master_api_key; is_master = true }) ≡ passed ctx'
    → Through db hash mk now token ctx'
unfolding Through
master-Through none hash mk token now ctx ctx' m e =
    (m, sym (ap (λ c. c.is_master) (passed_same _ ctx' e)))
master-Through (some database) hash mk token now ctx ctx' m e =
    inl (m, sym (ap (λ c. c.is_master) (passed_same _ ctx' e)))

token-Through :
    (db : Option Database) (hash : String → String) (mk token : String) (now : ℕ)
    (ctx ctx' : Context)
    → is_master_token mk token ≡ false
    → check_token db hash now token ctx ≡ passed ctx'
    → Through db hash mk now token ctx'
unfolding Through check_token
token-Through none hash mk token now ctx ctx' m e = absurd (rejected_not _ _ ctx' e)
token-Through (some database) hash mk token now ctx ctx' m e = inr (
  m,
  check_key-Admitted database now (hash token) (database.get_api_key_by_hash (hash token)) ctx ctx'
      refl e,
)

-- A request passes Auth only with a token that is the (non-empty) master key, and then as master,
-- or that the database knows by its hash as an active key that has not expired, while the budgets
-- of the key, of its team and of the organization of the context handed on are not exhausted and
-- this organization is active (each of the last two as far as the database finds it); such a
-- request is not master. Without a database only the master key passes. No token passes empty.
pub auth-Through :
    (database : Option Database) (hash : String → String) (master_key : String) (now : ℕ)
    (header : String) (ctx ctx' : Context)
    → auth database hash master_key now header ctx ≡ passed ctx'
    → (str_eq (extract_bearer_token header) "" ≡ false)
      × Through database hash master_key now (extract_bearer_token header) ctx'
unfolding auth
auth-Through database hash mk now header ctx ctx' =
    let token = extract_bearer_token header in
    elim (Bool-cases (str_eq token "")) [
      | inl empty ↦ rw empty (λ e. absurd (rejected_not _ _ ctx' e))
      | inr full ↦ elim (Bool-cases (is_master_token mk token)) [
        | inl m ↦ rw (full, m) (λ e. (refl, master-Through database hash mk token now ctx ctx' m e))
        | inr m ↦ rw (full, m) (λ e. (refl, token-Through database hash mk token now ctx ctx' m e))
      ]
    ]
