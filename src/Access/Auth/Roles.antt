-- ===== src/Access/Auth/Roles.antt =====
-- Roles and tenants (backend/internal/server/middleware/auth.go).
use mathlib.Core.List.{Mem, mem-cons, not-mem-nil}
use mathlib.Core.Logic.Or
use gateway_llm.Prelude.{
  ℕ, ◌≡◌, ◌≢◌, ◌↔◌, refl, sym, ap, ◌∙◌, String, Bool, true, false, not, ◌||◌, Option, none, some,
  List, [], ◌∷◌, arith, ◌⊎◌, inl, inr, str_eq, eq_iff, if◌then◌else◌, Bool-cases,
}
use gateway_llm.Prelude.Int.{ℤ, ltb_ℤ}
use gateway_llm.Access.Auth.{
  ApiKey, User, Context, rejected, passed, role_level, has_level, user_has_level, admin_only,
  is_super_admin, can_access_org, require_role, has_role, check_model_access, same_org, any_model,
  admin_key, allowed_models,
}

same_org-forth : (a b : Option ℕ) → same_org a b ≡ true → (o : ℕ) × (a ≡ some o) × (b ≡ some o)
unfolding same_org
same_org-forth (some a) (some b) e = (b, ground arith, refl)
same_org-forth (some a) none e = absurd (ground arith)
same_org-forth none b e = absurd (ground arith)

same_org-back : (o : ℕ) → same_org (some o) (some o) ≡ true
unfolding same_org
same_org-back o = ground arith

forth :
    (ctx : Context) (target : Option ℕ)
    → (is_super_admin ctx ≡ true) ⊎ (is_super_admin ctx ≡ false)
    → can_access_org ctx target ≡ true
    → (is_super_admin ctx ≡ true) ⊎ ((o : ℕ) × (ctx.org_id ≡ some o) × (target ≡ some o))
unfolding can_access_org
forth ctx target (inl s) = λ e. inl s
forth ctx target (inr s) = rw s (λ e. inr (same_org-forth ctx.org_id target e))

or_true : (b : Bool) → (b || true) ≡ true
or_true true = refl
or_true false = refl

back :
    (ctx : Context) (target : Option ℕ)
    → (is_super_admin ctx ≡ true) ⊎ ((o : ℕ) × (ctx.org_id ≡ some o) × (target ≡ some o))
    → can_access_org ctx target ≡ true
unfolding can_access_org
back ctx target (inl s) = rw s refl
back ctx target (inr (o, e, f)) =
    ap (λ b. is_super_admin ctx || b)
      (ap (λ a. same_org a target) e ∙ ap (same_org (some o)) f ∙ same_org-back o)
    ∙ or_true (is_super_admin ctx)

-- An organization's row is open to a caller exactly if the caller is a super admin (the master key
-- or the role), or the caller and the row have the same organization; a row with no organization is
-- open to super admins alone.
pub can_access_org_iff :
    (ctx : Context) (target : Option ℕ)
    → (can_access_org ctx target ≡ true)
      ↔ (is_super_admin ctx ≡ true) ⊎ ((o : ℕ) × (ctx.org_id ≡ some o) × (target ≡ some o))
unfolding can_access_org
can_access_org_iff ctx target =
    (forth ctx target (Bool-cases (is_super_admin ctx)), back ctx target)

ge_trans : (a b c : ℤ) → not (ltb_ℤ a b) ≡ true → not (ltb_ℤ b c) ≡ true → not (ltb_ℤ a c) ≡ true
ge_trans a b c h k = ground arith

user_levels_down :
    (u : Option User) (role lower : String)
    → user_has_level u role ≡ true
    → has_level role lower ≡ true
    → user_has_level u lower ≡ true
unfolding has_level role_level
user_levels_down none role lower h k = h
user_levels_down (some u) role lower h k =
    ge_trans (role_level u.role) (role_level role) (role_level lower) h k

levels_down :
    (ctx : Context) (role lower : String)
    → has_role ctx role ≡ true
    → has_level role lower ≡ true
    → has_role ctx lower ≡ true
unfolding has_role
levels_down ctx role lower = elim (Bool-cases ctx.is_master) [
  | inl m ↦ rw m (λ h k. refl)
  | inr m ↦ rw m (λ h k. user_levels_down ctx.user role lower h k)
]

rejected_not : (s : ℕ) (m : String) (ctx : Context) → rejected s m ≡ passed ctx → ⊥
rejected_not s m ctx e = cc

-- Two tests in a row, either of which lets through.
either_iff :
    (a b : Bool) (status : ℕ) (message : String) (ctx : Context)
    → (if a then passed ctx else (if b then passed ctx else rejected status message)) ≡ passed ctx
      ↔ (a || b) ≡ true
either_iff true b status message ctx = (λ h. refl, λ h. refl)
either_iff false true status message ctx = (λ h. refl, λ h. refl)
either_iff false false status message ctx =
    (λ h. absurd (rejected_not _ _ ctx h), λ h. absurd (ground arith))

require_role_iff :
    (ctx : Context) (role : String) → require_role role ctx ≡ passed ctx ↔ has_role ctx role ≡ true
unfolding has_role require_role
require_role_iff ctx role = either_iff ctx.is_master (user_has_level ctx.user role) _ _ ctx

admin_key_iff :
    (key : ApiKey) (ctx : Context)
    → admin_key (some key) ctx ≡ passed ctx ↔ has_role ctx "org_admin" ≡ true
unfolding has_role admin_key
admin_key_iff key ctx = either_iff ctx.is_master (user_has_level ctx.user "org_admin") _ _ ctx

admin_key-forth :
    (o : Option ApiKey) (ctx : Context)
    → admin_key o ctx ≡ passed ctx
    → (o ≢ none) × (has_role ctx "org_admin" ≡ true)
admin_key-forth none ctx = unfold admin_key in λ e. absurd (rejected_not _ _ ctx e)
admin_key-forth (some key) ctx = λ e. (λ f. cc f, (admin_key_iff key ctx).0 e)

admin_only-forth :
    (ctx : Context)
    → admin_only ctx ≡ passed ctx
    → (ctx.api_key ≢ none) × (has_role ctx "org_admin" ≡ true)
unfolding admin_only
admin_only-forth ctx e = admin_key-forth ctx.api_key ctx e

admin_only-back :
    (ctx : Context) (o : Option ApiKey)
    → ctx.api_key ≡ o
    → ctx.api_key ≢ none
    → has_role ctx "org_admin" ≡ true
    → admin_only ctx ≡ passed ctx
unfolding admin_only
admin_only-back ctx none e h r = absurd (h e)
admin_only-back ctx (some key) e h r = ap (λ k. admin_key k ctx) e ∙ (admin_key_iff key ctx).1 r

-- HasRole goes down the levels, RequireRole lets through exactly whom HasRole accepts, and AdminOnly
-- exactly those with a key whom HasRole accepts as org_admin.
pub has_role-levels :
    (ctx : Context) (role lower : String)
    → (has_role ctx role ≡ true → has_level role lower ≡ true → has_role ctx lower ≡ true)
      × (require_role role ctx ≡ passed ctx ↔ has_role ctx role ≡ true)
      × (admin_only ctx ≡ passed ctx ↔ (ctx.api_key ≢ none) × (has_role ctx "org_admin" ≡ true))
has_role-levels ctx role lower = (
  levels_down ctx role lower,
  require_role_iff ctx role,
  (admin_only-forth ctx, λ h. admin_only-back ctx ctx.api_key refl h.0 h.1),
)

Bool_prop : (a b : Bool) → IsProp (a ≡ b)
Bool_prop a b = hlevel

or_cases : (a b c : Bool) → ((a || b) || c) ≡ true → (a ≡ true) ⊎ (b ≡ true) ⊎ (c ≡ true)
or_cases true b c h = inl refl
or_cases false true c h = inr (inl refl)
or_cases false false c h = inr (inr h)

-- The loop finds a name only if it, or the star, is listed,
any_model_sound :
    (alias : String) (ms : List String) → any_model alias ms ≡ true → Mem "*" ms ⊎ Mem alias ms
unfolding any_model
any_model_sound alias [] h = absurd (ground arith)
any_model_sound alias (m ∷ ms) h =
    elim (or_cases (str_eq m "*") (str_eq m alias) (any_model alias ms) h) [
      | inl e ↦ inl (mem-cons.1 (Or.inl (sym ((eq_iff m "*").0 e))))
      | inr (inl e) ↦ inr (mem-cons.1 (Or.inl (sym ((eq_iff m alias).0 e))))
      | inr (inr e) ↦ elim (any_model_sound alias ms e) [
        | inl k ↦ inl (mem-cons.1 (Or.inr k))
        | inr k ↦ inr (mem-cons.1 (Or.inr k))
      ]
    ]

-- and always then.
any_model_complete :
    (alias x : String) (ms : List String)
    → (x ≡ "*") ⊎ (x ≡ alias)
    → Mem x ms
    → any_model alias ms ≡ true
unfolding any_model
any_model_complete alias x [] h m = absurd (not-mem-nil m)
any_model_complete alias x (y ∷ ys) h m =
    Or.elim (Bool_prop (any_model alias (y ∷ ys)) true) (mem-cons.0 m)
      (λ e. ground (arith, eq_iff y "*", eq_iff y alias))
      (λ k. ground (arith, any_model_complete alias x ys h k))

listed_of :
    (alias : String) (ms : List String)
    → allowed_models ms alias ≡ true
    → (ms ≡ []) ⊎ Mem "*" ms ⊎ Mem alias ms
unfolding allowed_models
listed_of alias [] h = inl refl
listed_of alias (m ∷ ms) h = inr (any_model_sound alias (m ∷ ms) h)

accepts :
    (alias : String) (ms : List String)
    → (ms ≡ []) ⊎ Mem "*" ms ⊎ Mem alias ms
    → allowed_models ms alias ≡ true
unfolding allowed_models
accepts alias [] h = refl
accepts alias (m ∷ ms) (inl e) = absurd (cc e)
accepts alias (m ∷ ms) (inr (inl k)) = any_model_complete alias "*" (m ∷ ms) (inl refl) k
accepts alias (m ∷ ms) (inr (inr k)) = any_model_complete alias alias (m ∷ ms) (inr refl) k

-- CheckModelAccess accepts a model exactly if there is no key, or the key lists no models at all, or
-- it lists the star or this model.
pub check_model_access_iff :
    (key : ApiKey) (alias : String)
    → (check_model_access none alias ≡ true)
      × (check_model_access (some key) alias ≡ true
          → (key.models ≡ []) ⊎ Mem "*" key.models ⊎ Mem alias key.models)
      × ((key.models ≡ []) ⊎ Mem "*" key.models ⊎ Mem alias key.models
          → check_model_access (some key) alias ≡ true)
unfolding check_model_access
check_model_access_iff key alias = (refl, listed_of alias key.models, accepts alias key.models)
