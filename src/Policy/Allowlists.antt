-- ===== src/Policy/Allowlists.antt =====
-- The provider and region allowlists of backend/internal/policy/policy.go: what an answer that
-- allows guarantees, and where the empty intersection opens the gate.
use gateway_llm.Prelude.{
  ◌≡◌, refl, String, Bool, true, false, not, ◌&&◌, ◌||◌, List, [], ◌∷◌, arith, str_eq, eq_iff,
  if◌then◌else◌, ◌∙◌, none,
}
use gateway_llm.Policy.Rules.{
  Rule, Input, Decision, allowed, apply, contains, intersect, keep_common, is_nonempty,
  matches_rule, merge_allow,
}
use gateway_llm.Policy.{Engine, apply_rules, check_allowlists, evaluate_rules, evaluate}
use gateway_llm.Policy.Lists.{contains-keep_common, is_nonempty_of_contains}
use gateway_llm.Policy.Denial.{rules_for, first_denying, apply_rules-cons, apply_rules-allow}

-- An allowlist lets a name through if it is empty or has the name.
abbrev pub lets_through : List String → String → Bool
lets_through names v = not (is_nonempty names) || contains names v

-- How a list of a decision is narrowed by that of a rule.
abbrev narrow : List String → List String → List String
narrow names next = if is_nonempty next then intersect names next else names

contains-empty :
    (names : List String) (v : String) → is_nonempty names ≡ false → contains names v ≡ false
unfolding contains
contains-empty [] v h = refl
contains-empty (x ∷ xs) v h = cc

-- With a name w that both lists let through, the narrowed list is their conjunction.
lets_through-narrow :
    (names next : List String) (v w : String)
    → lets_through names w ≡ true
    → lets_through next w ≡ true
    → lets_through (narrow names next) v ≡ (lets_through names v && lets_through next v)
unfolding intersect
lets_through-narrow names next v w h k = ground (
  arith,
  contains-keep_common names next v,
  contains-keep_common names next w,
  is_nonempty_of_contains (keep_common names next) w,
)

-- Every rule that applies lets the name through; `names_of` selects the rules' lists.
abbrev pub all_let_through : (Rule → List String) → Input → List Rule → String → Bool
all_let_through names_of input [] v = true
all_let_through names_of input (r ∷ rs) v =
    lets_through (if matches_rule r input then names_of r else []) v
    && all_let_through names_of input rs v

and_true : (a b : Bool) → (a && b) ≡ true → (a ≡ true) × (b ≡ true)
and_true a b h = ground arith

and_both : (a b : Bool) → a ≡ true → b ≡ true → (a && b) ≡ true
and_both a b h k = ground arith

and_assoc : (a b c : Bool) → (a && b && c) ≡ (a && (b && c))
and_assoc a b c = ground arith

module _ (names_of : Rule → List String) (list_of : Decision → List String) (input : Input) where
  -- One rule narrows the list of the decision by its own.
  abbrev Narrows : Type 0
  Narrows =
      (d : Decision) (r : Rule)
      → (matches_rule r input && r.deny) ≡ false
      → list_of (merge_allow d (apply r input))
        ≡ narrow (list_of d) (if matches_rule r input then names_of r else [])

  step_lets :
      Narrows
      → (d : Decision) (r : Rule) (v w : String) → (matches_rule r input && r.deny) ≡ false
      → lets_through (list_of d) w ≡ true
      → lets_through (if matches_rule r input then names_of r else []) w ≡ true
      → lets_through (list_of (merge_allow d (apply r input))) v ≡ (
          lets_through (list_of d) v
          && lets_through (if matches_rule r input then names_of r else []) v)
  step_lets narrows d r v w passes k h =
      rw (narrows d r passes) (lets_through-narrow (list_of d) _ v w k h)

  -- The list after the loop lets through what it did before and every rule does.
  lets_through-apply_rules :
      Narrows
      → (d : Decision) (rs : List Rule) (v w : String) → first_denying input rs ≡ none
      → lets_through (list_of d) w ≡ true
      → all_let_through names_of input rs w ≡ true
      → lets_through (list_of (apply_rules input d rs)) v
        ≡ (lets_through (list_of d) v && all_let_through names_of input rs v)
  lets_through-apply_rules narrows d [] v w h k a = unfold apply_rules in ground arith
  lets_through-apply_rules narrows d (x ∷ xs) v w h k a =
      let (step, later, passes) = apply_rules-cons input d x xs h in
      let names : List String = if matches_rule x input then names_of x else [] in
      let (here, rest) = and_true _ _ a in
      let d' : Decision = merge_allow d (apply x input) in
      let now = step_lets narrows d x v w passes k here in
      let kept = step_lets narrows d x w w passes k here ∙ and_both _ _ k here in
      let ih = lets_through-apply_rules narrows d' xs v w later kept rest in
      rw (step, ih, now)
        (and_assoc (lets_through (list_of d) v) (lets_through names v)
          (all_let_through names_of input xs v))

providers-Narrows : (input : Input) → Narrows (λ r. r.providers) (λ d. d.provider_allow) input
unfolding merge_allow apply
providers-Narrows input d r h = ground arith

regions-Narrows : (input : Input) → Narrows (λ r. r.regions) (λ d. d.region_allow) input
unfolding merge_allow apply
regions-Narrows input d r h = ground arith

abbrev pub providers_allow : Input → List Rule → String → Bool
providers_allow = all_let_through (λ r. r.providers)

abbrev pub regions_allow : Input → List Rule → String → Bool
regions_allow = all_let_through (λ r. r.regions)

evaluate-check :
    (e : Engine) (input : Input)
    → first_denying input (rules_for e input) ≡ none
    → (evaluate e input).allow ≡ (
        lets_through (apply_rules input allowed (rules_for e input)).provider_allow input.provider
        && (str_eq input.region ""
            || lets_through
                (apply_rules input allowed (rules_for e input)).region_allow
                input.region))
unfolding evaluate evaluate_rules check_allowlists
evaluate-check e input h = ground (arith, apply_rules-allow input allowed (rules_for e input) h)

-- Where no rule that applies denies, and some provider and some region are let through by every
-- rule that applies, the answer allows exactly if every rule that applies lets the input's
-- provider through, and its region too unless that is empty.
pub evaluate-eq_allowlists :
    (e : Engine) (input : Input) (provider region : String)
    → first_denying input (rules_for e input) ≡ none
    → providers_allow input (rules_for e input) provider ≡ true
    → regions_allow input (rules_for e input) region ≡ true
    → (evaluate e input).allow ≡ (
        providers_allow input (rules_for e input) input.provider
        && (str_eq input.region "" || regions_allow input (rules_for e input) input.region))
evaluate-eq_allowlists e input provider region h p q =
    let rs : List Rule = rules_for e input in
    rw
      (
        evaluate-check e input h,
        lets_through-apply_rules (λ r. r.providers) (λ d. d.provider_allow) input
            (providers-Narrows input) allowed rs input.provider provider h refl p,
        lets_through-apply_rules (λ r. r.regions) (λ d. d.region_allow) input
            (regions-Narrows input) allowed rs input.region region h refl q,
      )
      refl

nothing_kept :
    (names : List String) → ((v : String) → contains names v ≡ false) → is_nonempty names ≡ false
unfolding contains
nothing_kept [] h = refl
nothing_kept (x ∷ xs) h = ground (arith, h x, eq_iff x x)

keep_common-disjoint :
    (a b : List String)
    → ((v : String) → (contains a v && contains b v) ≡ false)
    → is_nonempty (keep_common a b) ≡ false
keep_common-disjoint a b h = nothing_kept (keep_common a b) (λ v. contains-keep_common a b v ∙ h v)

-- Two allowlists with no name in common leave no restriction: where the rules that apply are two,
-- neither denies nor restricts regions, and their provider lists are not empty and have no
-- provider in common, the answer allows every provider.
pub disjoint_providers_allow :
    (input : Input) (r s : Rule)
    → matches_rule r input ≡ true
    → matches_rule s input ≡ true
    → r.deny ≡ false
    → s.deny ≡ false
    → r.regions ≡ []
    → s.regions ≡ []
    → is_nonempty r.providers ≡ true
    → is_nonempty s.providers ≡ true
    → ((v : String) → (contains r.providers v && contains s.providers v) ≡ false)
    → (evaluate_rules input (r ∷ s ∷ [])).allow ≡ true
unfolding evaluate_rules apply_rules apply merge_allow check_allowlists intersect
disjoint_providers_allow input r s mr ms dr ds rr rs nr ns h =
    ground (arith, keep_common-disjoint r.providers s.providers h)
