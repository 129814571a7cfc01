-- ===== src/Router/Resolve/Tenancy.antt =====
-- Resolution for an organization (`ResolveForOrg` of backend/internal/router/router.go).
use gateway_llm.Prelude.{
  ℕ, ◌+◌, ◌<◌, ◌≡◌, refl, subst, ap, ◌∙◌, String, true, ◌||◌, Option, none, some, List, [], ◌∷◌,
  ◌==◌, length, arith, ◌⊎◌, inl, inr,
}
use gateway_llm.Router.Deployment.{DeploymentInfo, Heap}
use gateway_llm.Router.State.{ModelRouter, Rand, lookup}
use gateway_llm.Router.Sort.Laws.{AllOf, AllOf-imp}
use gateway_llm.Router.Order.Index.{int_max}
use gateway_llm.Router.Order.Total.{InRange}
use gateway_llm.Router.Resolve.Prefix.{split_litellm_prefix}
use gateway_llm.Router.Resolve.Tables.{org_key, lookup_org, index_loop, build_org_index}
use gateway_llm.Router.Resolve.Index.{
  select, some_nonempty, lookup-build_org_index, select-key, length-select, build_org_index-cons,
}
use gateway_llm.Router.Resolve.Reload.{IsConsistent, index_of}
use gateway_llm.Router.Resolve.{
  not_found_for_org, or_nil, ordered, resolve_prefixed, resolve, resolve_scoped, resolve_global,
  resolve_own, resolve_for_org,
}
use gateway_llm.Router.Resolve.Answers.{
  is_visible, HasRoom, Answers, err-Answers, ordered-Answers, Prefixed-Prefixed, scoped-Answers,
}

key_visible : (org key k : ℕ) → (key ≡ 0) ⊎ (key ≡ org) → k ≡ key → (k == 0 || k == org) ≡ true
key_visible org key k h e = ground arith

visible_of_key :
    (org key : ℕ) (deps : List DeploymentInfo)
    → (key ≡ 0) ⊎ (key ≡ org)
    → AllOf (λ d. is_visible (some org) d ≡ true) (select key deps)
visible_of_key org key deps h =
    AllOf-imp (λ d. org_key d.org_id ≡ key) (λ d. is_visible (some org) d ≡ true) (select key deps)
      (λ d e. key_visible org key (org_key d.org_id) h e) (select-key key deps)

all_visible : (deps : List DeploymentInfo) → AllOf (λ d. is_visible none d ≡ true) deps
all_visible [] = tt
all_visible (d ∷ ds) = (refl, all_visible ds)

module _ (rand : Rand) (h : Heap) (name : String) (r : ModelRouter) (tables : IsConsistent r) where
  -- The entry of the index for an alias with deployments is not empty.
  listed_none :
      (d : DeploymentInfo) (ds : List DeploymentInfo)
      → lookup name r.aliases ≡ some (d ∷ ds)
      → resolve_for_org rand h none name r ≡ ordered rand h name (d ∷ ds) r
  unfolding resolve_for_org
  listed_none d ds listed =
      let (entry, rest, e) = build_org_index-cons d ds in
      let at : lookup name r.org_index ≡ some (entry ∷ rest) =
        tables.indexed name ∙ ap index_of listed ∙ ap some e in
      rw at (ap (λ o. ordered rand h name (or_nil o) r) listed)

  listed_some :
      (org : ℕ) (d : DeploymentInfo) (ds : List DeploymentInfo)
      → lookup name r.aliases ≡ some (d ∷ ds)
      → resolve_for_org rand h (some org) name r
        ≡ resolve_own rand h
            (lookup_org org (build_org_index (d ∷ ds)))
            (build_org_index (d ∷ ds))
            name
            r
  unfolding resolve_for_org
  listed_some org d ds listed =
      let (entry, rest, e) = build_org_index-cons d ds in
      let at : lookup name r.org_index ≡ some (entry ∷ rest) =
        tables.indexed name ∙ ap index_of listed ∙ ap some e in
      rw (at, e) refl

  -- Else the call goes through Resolve, which looks at the prefix.
  unlisted :
      (org : Option ℕ)
      → (lookup name r.aliases ≡ none) ⊎ (lookup name r.aliases ≡ some [])
      → (resolve_for_org rand h org name r ≡ resolve_scoped rand h org name r)
        × (resolve rand h name r ≡ resolve_prefixed rand h (split_litellm_prefix name) name r)
  unfolding resolve_for_org resolve
  unlisted org (inl e) =
      let at : lookup name r.org_index ≡ none = tables.indexed name ∙ ap index_of e in
      (rw at refl, rw e refl)
  unlisted org (inr e) =
      let at : lookup name r.org_index ≡ some [] =
        tables.indexed name ∙ ap index_of e ∙ (unfold build_org_index index_loop in refl) in
      (rw at refl, rw e refl)

module _ (rand : Rand) (h : Heap) (name : String) (r : ModelRouter) (in_range : InRange rand)
    (tables : IsConsistent r) where
  -- The alias is missing or has no deployments: the fallback through Resolve.
  fallback-Answers :
      (org : Option ℕ)
      → resolve rand h name r ≡ resolve_prefixed rand h (split_litellm_prefix name) name r
      → Answers org r (resolve_scoped rand h org name r)
  unfolding resolve_scoped
  fallback-Answers org e =
      let p = Prefixed-Prefixed rand h (split_litellm_prefix name) name r in
      rw (e, p.returns) (scoped-Answers org name r p.answer p.kind)

  module _ (deps : List DeploymentInfo) (c : ℕ) (found : lookup name r.counters ≡ some c)
      (room : c + length deps < int_max) where
    selected-Answers :
        (org key : ℕ)
        → (key ≡ 0) ⊎ (key ≡ org)
        → Answers (some org) r (ordered rand h name (select key deps) r)
    selected-Answers org key k =
        ordered-Answers rand h (some org) name (select key deps) r c in_range found
          (omega (arith, length-select key deps, room)) (visible_of_key org key deps k)

    global-Answers :
        (org : ℕ) (l : List DeploymentInfo)
        → select 0 deps ≡ l
        → Answers (some org) r (resolve_global rand h (some_nonempty l) name r)
    global-Answers org [] e =
        unfold resolve_global in err-Answers (some org) r (not_found_for_org name)
    global-Answers org (d ∷ ds) e =
        unfold resolve_global in
        subst (λ l. Answers (some org) r (ordered rand h name l r)) e
          (selected-Answers org 0 (inl refl))

    own-Answers :
        (org : ℕ) (l : List DeploymentInfo)
        → select org deps ≡ l
        → Answers (some org) r (resolve_own rand h (some_nonempty l) (build_org_index deps) name r)
    own-Answers org [] e =
        unfold resolve_own in
        rw (lookup-build_org_index 0 deps) (global-Answers org (select 0 deps) refl)
    own-Answers org (d ∷ ds) e =
        unfold resolve_own in
        subst (λ l. Answers (some org) r (ordered rand h name l r)) e
          (selected-Answers org org (inr refl))

  listed-Answers :
      (org : Option ℕ) (d : DeploymentInfo) (ds : List DeploymentInfo) (c : ℕ)
      → lookup name r.aliases ≡ some (d ∷ ds)
      → lookup name r.counters ≡ some c
      → c + length (d ∷ ds) < int_max
      → Answers org r (resolve_for_org rand h org name r)
  listed-Answers none d ds c listed found room =
      rw (listed_none rand h name r tables d ds listed)
        (ordered-Answers rand h none name (d ∷ ds) r c in_range found room (all_visible (d ∷ ds)))
  listed-Answers (some org) d ds c listed found room =
      rw (listed_some rand h name r tables org d ds listed, lookup-build_org_index org (d ∷ ds))
        (own-Answers (d ∷ ds) c found room org (select org (d ∷ ds)) refl)

  all-Answers :
      (org : Option ℕ) (o : Option (List DeploymentInfo))
      → lookup name r.aliases ≡ o
      → HasRoom r
      → Answers org r (resolve_for_org rand h org name r)
  all-Answers org none e room =
      let (first, second) = unlisted rand h name r tables org (inl e) in
      rw first (fallback-Answers org second)
  all-Answers org (some []) e room =
      let (first, second) = unlisted rand h name r tables org (inr e) in
      rw first (fallback-Answers org second)
  all-Answers org (some (d ∷ ds)) e room =
      let (c, found) = tables.counted name (d ∷ ds) e in
      listed-Answers org d ds c e found (room name (d ∷ ds) c e found)

-- In a router whose tables are consistent and whose counters are not near 2 ^ 63, ResolveForOrg
-- returns an answer and does not panic, for any organization, model name and strategy, if the drawn
-- numbers are in range. It shows an organization only global deployments and its own, and leaves
-- the router's aliases and its index.
pub resolve_for_org-Answers :
    (rand : Rand) (h : Heap) (org : Option ℕ) (name : String) (r : ModelRouter)
    → InRange rand
    → IsConsistent r
    → HasRoom r
    → Answers org r (resolve_for_org rand h org name r)
resolve_for_org-Answers rand h org name r in_range tables room =
    all-Answers rand h name r in_range tables org (lookup name r.aliases) refl room
