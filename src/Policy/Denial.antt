-- ===== src/Policy/Denial.antt =====
-- What `Evaluate` answers (backend/internal/policy/policy.go): which denial it returns, and what an
-- allowing decision gathers from the rules.
use gateway_llm.Prelude.{
  ℕ, ◌≤◌, ◌<◌, ◌≡◌, ◌⊎◌, inl, inr, refl, sym, ap, ◌∙◌, String, true, false, ◌&&◌, Option, none,
  some, List, [], ◌∷◌, ◌++◌, arith, Option-cases, if◌then◌else◌,
}
use mathlib.Core.List.{append-nil, append_assoc}
use gateway_llm.Prelude.Int.{ℤ, pos, pos_part, negsuc}
use gateway_llm.Policy.Rules.{
  Rule, Input, Decision, allowed, denied, denial_reason, apply, matches_rule, merge_allow,
  merge_cap,
}
use gateway_llm.Policy.{Engine, rules_of, apply_rules, check_allowlists, evaluate_rules, evaluate}

-- The rules that an engine applies to an input, in order: the global ones, then the organization's.
abbrev pub rules_for : Engine → Input → List Rule
rules_for e input = rules_of "" e.org_rules ++ rules_of input.org_id e.org_rules

-- The first rule that applies and denies.
abbrev pub first_denying : Input → List Rule → Option Rule
first_denying input [] = none
first_denying input (r ∷ rs) =
    if matches_rule r input && r.deny then some r else first_denying input rs

apply_rules-first_denying :
    (input : Input) (d : Decision) (rs : List Rule) (r : Rule)
    → first_denying input rs ≡ some r
    → apply_rules input d rs ≡ denied (denial_reason r)
unfolding apply_rules apply
apply_rules-first_denying input d [] r h = ground arith
apply_rules-first_denying input d (x ∷ xs) r h =
    ground (arith, apply_rules-first_denying input (merge_allow d (apply x input)) xs r)

-- If a rule that applies denies, the answer is the denial of the first such rule, with the rule's
-- own reason or, where it has none, its name; global rules come before the organization's.
pub evaluate-first_denying :
    (e : Engine) (input : Input) (r : Rule)
    → first_denying input (rules_for e input) ≡ some r
    → evaluate e input ≡ denied (denial_reason r)
unfolding evaluate evaluate_rules
evaluate-first_denying e input r h =
    ground (arith, apply_rules-first_denying input allowed (rules_for e input) r)

-- The tags, the classes and the cap that the rules that apply ask for.
abbrev pub all_tags : Input → List Rule → List String
all_tags input [] = []
all_tags input (r ∷ rs) = (if matches_rule r input then r.require_tags else []) ++ all_tags input rs

abbrev pub all_classes : Input → List Rule → List String
all_classes input [] = []
all_classes input (r ∷ rs) =
    (if matches_rule r input then r.redact_pii else []) ++ all_classes input rs

-- A positive cap among those of the rules that apply.
abbrev pub IsCapOf : ℕ → Input → List Rule → Type 0
IsCapOf n input [] = ⊥
IsCapOf n input (r ∷ rs) =
    ((matches_rule r input ≡ true) × (r.max_tokens ≡ pos n) × (0 < n)) ⊎ IsCapOf n input rs

-- Where a rule that applies has a positive cap, n is positive and no larger.
abbrev pub IsBelowCaps : ℕ → Input → List Rule → Type 0
IsBelowCaps n input [] = Unit {0}
IsBelowCaps n input (r ∷ rs) =
    (matches_rule r input ≡ true
      → 0 < pos_part r.max_tokens
      → (0 < n) × (n ≤ pos_part r.max_tokens))
    × IsBelowCaps n input rs

merge_tags :
    (d : Decision) (r : Rule) (input : Input)
    → (matches_rule r input && r.deny) ≡ false
    → (merge_allow d (apply r input)).required_tags
      ≡ d.required_tags ++ (if matches_rule r input then r.require_tags else [])
unfolding merge_allow apply
merge_tags d r input h = ground (arith, append-nil d.required_tags)

merge_classes :
    (d : Decision) (r : Rule) (input : Input)
    → (matches_rule r input && r.deny) ≡ false
    → (merge_allow d (apply r input)).redact_classes
      ≡ d.redact_classes ++ (if matches_rule r input then r.redact_pii else [])
unfolding merge_allow apply
merge_classes d r input h = ground (arith, append-nil d.redact_classes)

merge_allows :
    (d : Decision) (r : Rule) (input : Input) → (merge_allow d (apply r input)).allow ≡ d.allow
unfolding merge_allow
merge_allows d r input = refl

-- A cap that is a natural number stays one: it is the old one, or a smaller positive one.
record Capped (m : ℕ) (next : ℤ) (n : ℕ) : Type 0 where
  merged : merge_cap (pos m) next ≡ pos n
  source : (n ≡ m) ⊎ ((next ≡ pos n) × (0 < n))
  lowered : 0 < m → (0 < n) × (n ≤ m)
  bounded : 0 < pos_part next → (0 < n) × (n ≤ pos_part next)

merge_cap-Capped : (m : ℕ) (next : ℤ) → Capped m next (pos_part (merge_cap (pos m) next))
unfolding merge_cap
merge_cap-Capped m (pos k) = ground arith
merge_cap-Capped m (negsuc k) = ground arith

record Gathered (input : Input) (d : Decision) (rs : List Rule) (res : Decision) : Type 0 where
  allows : res.allow ≡ d.allow
  tags : res.required_tags ≡ d.required_tags ++ all_tags input rs
  classes : res.redact_classes ≡ d.redact_classes ++ all_classes input rs

-- A rule that does not deny passes the loop on to the rest.
pub apply_rules-cons :
    (input : Input) (d : Decision) (x : Rule) (xs : List Rule)
    → first_denying input (x ∷ xs) ≡ none
    → (apply_rules input d (x ∷ xs) ≡ apply_rules input (merge_allow d (apply x input)) xs)
      × (first_denying input xs ≡ none)
      × ((matches_rule x input && x.deny) ≡ false)
unfolding apply_rules apply
apply_rules-cons input d x xs h = ground arith

apply_rules-Gathered :
    (input : Input) (d : Decision) (rs : List Rule)
    → first_denying input rs ≡ none
    → Gathered input d rs (apply_rules input d rs)
apply_rules-Gathered input d [] h =
    unfold apply_rules in
    record { allows = refl; tags = sym (append-nil _); classes = sym (append-nil _) }
apply_rules-Gathered input d (x ∷ xs) h =
    let (step, later, passes) = apply_rules-cons input d x xs h in
    let ih = apply_rules-Gathered input (merge_allow d (apply x input)) xs later in
    rw step (record {
      allows = ih.allows ∙ merge_allows d x input;
      tags = ih.tags ∙ simp (merge_tags d x input passes, append_assoc);
      classes = ih.classes ∙ simp (merge_classes d x input passes, append_assoc);
    })

merge_cap-apply :
    (d : Decision) (r : Rule) (input : Input) (m : ℕ)
    → (matches_rule r input && r.deny) ≡ false
    → d.max_tokens_cap ≡ pos m
    → (merge_allow d (apply r input)).max_tokens_cap
      ≡ merge_cap (pos m) (if matches_rule r input then r.max_tokens else pos 0)
unfolding merge_allow apply
merge_cap-apply d r input m h e = ground arith

-- The cap after the loop, from a cap m before it.
record CapFound (m : ℕ) (input : Input) (rs : List Rule) (n : ℕ) : Type 0 where
  origin : (n ≡ m) ⊎ IsCapOf n input rs
  below_old : 0 < m → (0 < n) × (n ≤ m)
  below_all : IsBelowCaps n input rs

CapFound-cons :
    (m k n : ℕ) (input : Input) (x : Rule) (xs : List Rule)
    → Capped m (if matches_rule x input then x.max_tokens else pos 0) k
    → CapFound k input xs n
    → CapFound m input (x ∷ xs) n
CapFound-cons m k n input x xs c f = record {
  origin = ground arith;
  below_old = ground arith;
  below_all = (ground arith, f.below_all);
}

apply_rules-cap :
    (input : Input) (d : Decision) (rs : List Rule) (m : ℕ)
    → first_denying input rs ≡ none
    → d.max_tokens_cap ≡ pos m
    → (n : ℕ) × ((apply_rules input d rs).max_tokens_cap ≡ pos n) × CapFound m input rs n
apply_rules-cap input d [] m h e = (
  m,
  unfold apply_rules in e,
  record { origin = inl refl; below_old = λ p. (p, omega arith); below_all = tt },
)
apply_rules-cap input d (x ∷ xs) m h e =
    let (step, later, passes) = apply_rules-cons input d x xs h in
    let next : ℤ = if matches_rule x input then x.max_tokens else pos 0 in
    let k : ℕ = pos_part (merge_cap (pos m) next) in
    let c : Capped m next k = merge_cap-Capped m next in
    let (n, found, f) =
      apply_rules-cap input (merge_allow d (apply x input)) xs k later
        (merge_cap-apply d x input m passes e ∙ c.merged) in
    (n, ap (λ (y : Decision). y.max_tokens_cap) step ∙ found, CapFound-cons m k n input x xs c f)

-- An allowing answer is the loop's decision as it stands.
pub evaluate-eq_loop :
    (e : Engine) (input : Input)
    → (evaluate e input).allow ≡ true
    → evaluate e input ≡ apply_rules input allowed (rules_for e input)
unfolding evaluate evaluate_rules check_allowlists
evaluate-eq_loop e input h = ground arith

pub first_denying-none :
    (e : Engine) (input : Input)
    → (evaluate e input).allow ≡ true
    → first_denying input (rules_for e input) ≡ none
first_denying-none e input h = elim (Option-cases (first_denying input (rules_for e input))) [
  | inl q ↦ q
  | inr (r, q) ↦ cc (evaluate-first_denying e input r q)
]

-- If the answer allows, no rule that applies denies, the required tags and the redaction classes
-- are those of the rules that apply, in order, and the cap is a natural number n: it is 0 or the
-- cap of a rule that applies, and where a rule that applies has a positive cap, n is positive and
-- no larger.
pub evaluate-allow :
    (e : Engine) (input : Input)
    → (evaluate e input).allow ≡ true
    → (first_denying input (rules_for e input) ≡ none)
      × ((evaluate e input).required_tags ≡ all_tags input (rules_for e input))
      × ((evaluate e input).redact_classes ≡ all_classes input (rules_for e input))
      × ((n : ℕ) × ((evaluate e input).max_tokens_cap ≡ pos n)
          × ((n ≡ 0) ⊎ IsCapOf n input (rules_for e input))
          × IsBelowCaps n input (rules_for e input))
evaluate-allow e input h =
    let rs = rules_for e input in
    let loop = evaluate-eq_loop e input h in
    let passes = first_denying-none e input h in
    let g = apply_rules-Gathered input allowed rs passes in
    let (n, cap_eq, f) = apply_rules-cap input allowed rs 0 passes refl in
    rw loop (passes, g.tags, g.classes, (n, cap_eq, f.origin, f.below_all))

-- The loop's decision allows where no rule that applies denies.
pub apply_rules-allow :
    (input : Input) (d : Decision) (rs : List Rule)
    → first_denying input rs ≡ none
    → (apply_rules input d rs).allow ≡ d.allow
apply_rules-allow input d rs h = (apply_rules-Gathered input d rs h).allows
