-- ===== src/Router/Resolve/Answers.antt =====
-- What a resolution for an organization may answer, and the cases of its fallback through `Resolve`
-- (backend/internal/router/router.go).
use mathlib.Core.List.{Mem, mem-cons, not-mem-nil}
use mathlib.Core.List.Perm
use mathlib.Core.Logic.Or
use gateway_llm.Prelude.{
  ℕ, ◌+◌, ◌<◌, ◌≡◌, refl, sym, subst, ap, ◌∙◌, String, Bool, true, ◌||◌, Option, none, some, List,
  [], ◌∷◌, ◌==◌, length, arith, Bool-cases, Option-cases, ◌⊎◌, inl, inr,
}
use gateway_llm.Router.Deployment.{DeploymentInfo, Heap}
use gateway_llm.Router.State.{ModelRouter, Rand, lookup}
use gateway_llm.Router.Sort.Laws.{AllOf}
use gateway_llm.Router.Order.{order}
use gateway_llm.Router.Order.Index.{int_max}
use gateway_llm.Router.Order.Total.{InRange, order-Orders}
use gateway_llm.Router.Resolve.Tables.{org_key}
use gateway_llm.Router.Resolve.{
  Resolved, ok, err, ResolveError, model_not_found, find_serving, resolve_by_provider_model,
  ordered, resolve_served, resolve_prefixed, is_own, keep_own, scoped,
}

-- A deployment is visible to an organization if it is global or the organization's own, and to a
-- caller with no organization always.
abbrev pub is_visible : Option ℕ → DeploymentInfo → Bool
is_visible none d = true
is_visible (some org) d = org_key d.org_id == 0 || org_key d.org_id == org

-- No counter is near 2 ^ 63.
abbrev pub HasRoom : ModelRouter → Type 0
HasRoom r =
    (name : String) (deps : List DeploymentInfo) (c : ℕ)
    → lookup name r.aliases ≡ some deps
    → lookup name r.counters ≡ some c
    → c + length deps < int_max

-- A resolution that returns, with visible deployments alone.
pub record Answers (org : Option ℕ) (r : ModelRouter) (res : Option (Resolved × ModelRouter))
    : Type 0 where
  pub answer : Resolved
  pub router : ModelRouter
  pub returns : res ≡ some (answer, router)
  pub aliases_kept : router.aliases ≡ r.aliases
  pub index_kept : router.org_index ≡ r.org_index
  pub visible :
      (out : List DeploymentInfo) (d : DeploymentInfo)
      → answer ≡ ok out
      → Mem d out
      → is_visible org d ≡ true

Bool_prop : (a b : Bool) → IsProp (a ≡ b)
Bool_prop a b = hlevel

AllOf-mem :
    (p : DeploymentInfo → Bool) (ds : List DeploymentInfo) (d : DeploymentInfo)
    → AllOf (λ x. p x ≡ true) ds
    → Mem d ds
    → p d ≡ true
AllOf-mem p [] d h m = absurd (not-mem-nil m)
AllOf-mem p (x ∷ xs) d h m =
    Or.elim (Bool_prop (p d) true) (mem-cons.0 m) (λ e. ap p e ∙ h.0) (AllOf-mem p xs d h.1)

ok_same : (xs ys : List DeploymentInfo) → ok xs ≡ ok ys → xs ≡ ys
ok_same xs ys e = cc

err_not_ok : (e : ResolveError) (out : List DeploymentInfo) → err e ≡ ok out → ⊥
err_not_ok e out eq = cc

-- An error shows nothing.
pub err-Answers :
    (org : Option ℕ) (r : ModelRouter) (e : ResolveError) → Answers org r (some (err e, r))
err-Answers org r e = record {
  answer = err e;
  router = r;
  returns = refl;
  aliases_kept = refl;
  index_kept = refl;
  visible = λ out d eq m. absurd (err_not_ok e out eq);
}

module _ (rand : Rand) (h : Heap) where
  pub ordered-Answers :
      (org : Option ℕ) (name : String) (deps : List DeploymentInfo) (r : ModelRouter) (c : ℕ)
      → InRange rand
      → lookup name r.counters ≡ some c
      → c + length deps < int_max
      → AllOf (λ d. is_visible org d ≡ true) deps
      → Answers org r (ordered rand h name deps r)
  unfolding ordered
  ordered-Answers org name deps r c in_range found room all =
      let o = order-Orders rand h name deps r c in_range found room in
      record {
        answer = ok o.out;
        router = o.router;
        returns = rw o.returns refl;
        aliases_kept = o.aliases_kept;
        index_kept = o.index_kept;
        visible = λ out d eq m.
            AllOf-mem (is_visible org) deps d all
              ((Perm.mem_iff o.perm).0 (subst (Mem d) (sym (ok_same o.out out eq)) m));
      }

  -- One deployment is not ordered.
  single :
      (name : String) (d : DeploymentInfo) (r : ModelRouter)
      → ordered rand h name (d ∷ []) r ≡ some (ok (d ∷ []), r)
  unfolding ordered order
  single name d r = refl

pub one-Answers :
    (org : Option ℕ) (r : ModelRouter) (d : DeploymentInfo)
    → is_visible org d ≡ true
    → Answers org r (some (ok (d ∷ []), r))
one-Answers org r d v = record {
  answer = ok (d ∷ []);
  router = r;
  returns = refl;
  aliases_kept = refl;
  index_kept = refl;
  visible = λ out x eq m.
      AllOf-mem (is_visible org) (d ∷ []) x (v, tt)
        (subst (Mem x) (sym (ok_same (d ∷ []) out eq)) m);
}

-- What the lookup by provider and model gives: nothing, or one deployment.
served_cases :
    (provider model : String) (aliases : List (String × List DeploymentInfo))
    → (resolve_by_provider_model provider model aliases ≡ [])
      ⊎ ((d : DeploymentInfo) × (resolve_by_provider_model provider model aliases ≡ d ∷ []))
unfolding resolve_by_provider_model
served_cases provider model [] = inl refl
served_cases provider model ((name, deps) ∷ rest) =
    elim (Option-cases (find_serving provider model deps)) [
      | inl e ↦ rw (e, resolve_by_provider_model) (served_cases provider model rest)
      | inr (d, e) ↦ inr (d, rw (e, resolve_by_provider_model) refl)
    ]

-- What Resolve answers for a name that is no alias with deployments.
pub record Prefixed (r : ModelRouter) (res : Option (Resolved × ModelRouter)) : Type 0 where
  pub answer : Resolved
  pub returns : res ≡ some (answer, r)
  pub kind :
      ((e : ResolveError) × (answer ≡ err e)) ⊎ ((d : DeploymentInfo) × (answer ≡ ok (d ∷ [])))

module _ (rand : Rand) (h : Heap) where
  served-Prefixed :
      (name : String) (deps : List DeploymentInfo) (r : ModelRouter)
      → (deps ≡ []) ⊎ ((d : DeploymentInfo) × (deps ≡ d ∷ []))
      → Prefixed r (resolve_served rand h name deps r)
  unfolding resolve_served
  served-Prefixed name deps r (inl e) = rw e (record {
    answer = err (model_not_found name);
    returns = refl;
    kind = inl (model_not_found name, refl);
  })
  served-Prefixed name deps r (inr (d, e)) =
      rw e (record { answer = ok (d ∷ []); returns = single rand h name d r; kind = inr (d, refl) })

  pub Prefixed-Prefixed :
      (split : Option (String × String)) (name : String) (r : ModelRouter)
      → Prefixed r (resolve_prefixed rand h split name r)
  Prefixed-Prefixed none name r =
      unfold resolve_prefixed in
      record {
        answer = err (model_not_found name);
        returns = refl;
        kind = inl (model_not_found name, refl);
      }
  Prefixed-Prefixed (some (provider, model)) name r =
      unfold resolve_prefixed in
      served-Prefixed name (resolve_by_provider_model provider model r.aliases) r
        (served_cases provider model r.aliases)

own_visible :
    (org : ℕ) (d : DeploymentInfo) → is_own org d.org_id ≡ true → is_visible (some org) d ≡ true
own_visible org d h = ground arith

-- The filter of the fallback shows a visible deployment or nothing.
pub scoped-Answers :
    (org : Option ℕ) (name : String) (r : ModelRouter) (answer : Resolved)
    → ((e : ResolveError) × (answer ≡ err e)) ⊎ ((d : DeploymentInfo) × (answer ≡ ok (d ∷ [])))
    → Answers org r (some (scoped org name answer, r))
unfolding scoped keep_own
scoped-Answers org name r answer (inl (e, eq)) = rw eq (err-Answers org r (model_not_found name))
scoped-Answers none name r answer (inr (d, eq)) = rw eq (one-Answers none r d refl)
scoped-Answers (some org) name r answer (inr (d, eq)) = elim (Bool-cases (is_own org d.org_id)) [
  | inl own ↦ rw (eq, keep_own, own) (one-Answers (some org) r d (own_visible org d own))
  | inr other ↦ rw (eq, keep_own, other) (err-Answers (some org) r (model_not_found name))
]
