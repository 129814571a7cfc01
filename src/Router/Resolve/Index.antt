-- ===== src/Router/Resolve/Index.antt =====
-- The index by organization, beside a scan of the deployments (`buildOrgIndex` of
-- backend/internal/router/router.go).
use mathlib.Core.List.{append-nil, append_assoc}
use gateway_llm.Prelude.{
  ℕ, ◌≤◌, ◌≡◌, refl, sym, ap, ◌∙◌, Option, none, some, List, [], ◌∷◌, ◌++◌, length, ◌==◌, arith,
  if◌then◌else◌, Bool-cases, inl, inr,
}
use gateway_llm.Router.Deployment.{DeploymentInfo}
use gateway_llm.Router.Sort.Laws.{AllOf}
use gateway_llm.Router.Resolve.Tables.{org_key, lookup_org, append_at, index_loop, build_org_index}

-- The deployments with a key, in order.
unfoldable pub select : ℕ → List DeploymentInfo → List DeploymentInfo
select key [] = []
select key (d ∷ ds) = let rest = select key ds in if org_key d.org_id == key then d ∷ rest else rest

abbrev pub some_nonempty : List DeploymentInfo → Option (List DeploymentInfo)
some_nonempty [] = none
some_nonempty (d ∷ ds) = some (d ∷ ds)

-- What is stored, followed by more.
abbrev extend : Option (List DeploymentInfo) → List DeploymentInfo → Option (List DeploymentInfo)
extend none more = some_nonempty more
extend (some ds) more = some (ds ++ more)

lookup_org-append_at :
    (key k : ℕ) (d : DeploymentInfo) (idx : List (ℕ × List DeploymentInfo))
    → lookup_org key (append_at k d idx)
      ≡ (if k == key then extend (lookup_org key idx) (d ∷ []) else lookup_org key idx)
unfolding lookup_org append_at
lookup_org-append_at key k d [] = refl
lookup_org-append_at key k d ((j, deps) ∷ rest) = ground (arith, lookup_org-append_at key k d rest)

extend_more :
    (o : Option (List DeploymentInfo)) (d : DeploymentInfo) (ds : List DeploymentInfo)
    → extend (extend o (d ∷ [])) ds ≡ extend o (d ∷ ds)
extend_more none d ds = refl
extend_more (some xs) d ds = ap some (append_assoc xs (d ∷ []) ds)

extend_none : (o : Option (List DeploymentInfo)) → o ≡ extend o []
extend_none none = refl
extend_none (some xs) = ap some (sym (append-nil xs))

lookup_org-index_loop :
    (key : ℕ) (idx : List (ℕ × List DeploymentInfo)) (ds : List DeploymentInfo)
    → lookup_org key (index_loop idx ds) ≡ extend (lookup_org key idx) (select key ds)
unfolding index_loop select
lookup_org-index_loop key idx [] = extend_none (lookup_org key idx)
lookup_org-index_loop key idx (d ∷ ds) = elim (Bool-cases (org_key d.org_id == key)) [
  | inl e ↦
      rw
        (
          lookup_org-index_loop key (append_at (org_key d.org_id) d idx) ds,
          lookup_org-append_at key (org_key d.org_id) d idx,
          e,
        )
        (extend_more (lookup_org key idx) d (select key ds))
  | inr e ↦
      rw
        (
          lookup_org-index_loop key (append_at (org_key d.org_id) d idx) ds,
          lookup_org-append_at key (org_key d.org_id) d idx,
          e,
        )
        refl
]

-- A lookup in the index that is built once gives what a scan of the deployments gives: those with
-- that key, in order, and nothing if there is none.
pub lookup-build_org_index :
    (key : ℕ) (deps : List DeploymentInfo)
    → lookup_org key (build_org_index deps) ≡ some_nonempty (select key deps)
unfolding build_org_index
lookup-build_org_index key deps = lookup_org-index_loop key [] deps ∙ (unfold lookup_org in refl)

pub select-key :
    (key : ℕ) (deps : List DeploymentInfo) → AllOf (λ d. org_key d.org_id ≡ key) (select key deps)
unfolding select
select-key key [] = tt
select-key key (d ∷ ds) = elim (Bool-cases (org_key d.org_id == key)) [
  | inl e ↦ rw e (ground arith, select-key key ds)
  | inr e ↦ rw e (select-key key ds)
]

pub length-select : (key : ℕ) (deps : List DeploymentInfo) → length (select key deps) ≤ length deps
unfolding select
length-select key [] = omega arith
length-select key (d ∷ ds) = ground (arith, length-select key ds)

append_at-cons :
    (key : ℕ) (d : DeploymentInfo) (entry : ℕ × List DeploymentInfo)
    (rest : List (ℕ × List DeploymentInfo))
    → (entry' : ℕ × List DeploymentInfo) × (rest' : List (ℕ × List DeploymentInfo)) × (append_at key
          d
          (entry ∷ rest)
        ≡ entry' ∷ rest')
unfolding append_at
append_at-cons key d (k, deps) rest = elim (Bool-cases (k == key)) [
  | inl e ↦ ((k, deps ++ d ∷ []), rest, rw e refl)
  | inr e ↦ ((k, deps), append_at key d rest, rw e refl)
]

index_loop_step :
    (entry : ℕ × List DeploymentInfo) (rest : List (ℕ × List DeploymentInfo))
    (entry' : ℕ × List DeploymentInfo) (rest' : List (ℕ × List DeploymentInfo)) (d : DeploymentInfo)
    (ds : List DeploymentInfo)
    → append_at (org_key d.org_id) d (entry ∷ rest) ≡ entry' ∷ rest'
    → index_loop (entry ∷ rest) (d ∷ ds) ≡ index_loop (entry' ∷ rest') ds
unfolding index_loop
index_loop_step entry rest entry' rest' d ds e = rw e refl

index_loop-cons :
    (entry : ℕ × List DeploymentInfo) (rest : List (ℕ × List DeploymentInfo))
    (ds : List DeploymentInfo)
    → (entry' : ℕ × List DeploymentInfo) × (rest' : List (ℕ × List DeploymentInfo)) × (index_loop
          (entry ∷ rest)
          ds
        ≡ entry' ∷ rest')
index_loop-cons entry rest [] = (entry, rest, unfold index_loop in refl)
index_loop-cons entry rest (d ∷ ds) =
    let (entry', rest', e) = append_at-cons (org_key d.org_id) d entry rest in
    let (entry'', rest'', f) = index_loop-cons entry' rest' ds in
    (entry'', rest'', index_loop_step entry rest entry' rest' d ds e ∙ f)

-- The index of deployments that are not none has an entry.
pub build_org_index-cons :
    (d : DeploymentInfo) (ds : List DeploymentInfo)
    → (entry : ℕ × List DeploymentInfo) × (rest : List (ℕ × List DeploymentInfo)) × (build_org_index
          (d ∷ ds)
        ≡ entry ∷ rest)
unfolding build_org_index index_loop append_at
build_org_index-cons d ds = index_loop-cons (org_key d.org_id, d ∷ []) [] ds
