-- ===== src/Policy.antt =====
-- The policy gate of backend/internal/policy/policy.go. A nil engine or input is `none`, a map from
-- strings is an association list, and a denial's text is its format with its argument.
pub mod Rules
pub mod Load
pub mod Lists
pub mod Denial
pub mod Allowlists
mod Tests
use gateway_llm.Prelude.{
  ℕ, String, Bool, true, false, not, ◌&&◌, Option, none, some, List, [], ◌∷◌, ◌++◌, str_eq,
  if◌then◌else◌,
}
use gateway_llm.Prelude.Int.{pos}
use gateway_llm.Policy.Rules.{
  Rule, Input, Decision, Reason, allowed, denied, provider_not_allowed, region_not_allowed, apply,
  contains, is_nonempty, merge_allow,
}

-- Engine: the rules of each organization, and the global ones under "".
pub record Engine : Type 0 where
  pub org_rules : List (String × List Rule)

-- NewEngine
unfoldable pub new_engine : Engine
new_engine = record { org_rules = [] }

-- e.orgRules[org], nil if the key is missing
unfoldable pub rules_of : String → List (String × List Rule) → List Rule
rules_of org [] = []
rules_of org ((key, rs) ∷ rest) = if str_eq key org then rs else rules_of org rest

store_rules : String → List Rule → List (String × List Rule) → List (String × List Rule)
store_rules org rs [] = (org, rs) ∷ []
store_rules org rs ((key, old) ∷ rest) =
    if str_eq key org then (org, rs) ∷ rest else (key, old) ∷ store_rules org rs rest

-- SetRules
unfoldable pub set_rules : String → List Rule → Engine → Engine
unfolding store_rules
set_rules org rs e = record { org_rules = store_rules org rs e.org_rules }

-- The loop of Evaluate: a denial is returned at once.
unfoldable pub apply_rules : Input → Decision → List Rule → Decision
apply_rules input d [] = d
apply_rules input d (r ∷ rs) =
    let next = apply r input in
    let rest = apply_rules input (merge_allow d next) rs in if next.allow then rest else next

-- What Evaluate checks after the loop. It is reached only by a decision that allows.
unfoldable pub check_allowlists : Input → Decision → Decision
check_allowlists input d =
    if is_nonempty d.provider_allow && not (contains d.provider_allow input.provider)
    then denied (provider_not_allowed input.provider)
    else (if is_nonempty d.region_allow
          && not (str_eq input.region "")
          && not (contains d.region_allow input.region)
        then denied (region_not_allowed input.region)
        else d)

-- The part of Evaluate that follows the read of the two rule lists.
unfoldable pub evaluate_rules : Input → List Rule → Decision
evaluate_rules input rs =
    let d = apply_rules input allowed rs in if d.allow then check_allowlists input d else d

-- Evaluate on an engine and an input that are not nil
unfoldable pub evaluate : Engine → Input → Decision
evaluate e input =
    evaluate_rules input (rules_of "" e.org_rules ++ rules_of input.org_id e.org_rules)

-- Evaluate
unfoldable pub evaluate_nil : Option Engine → Option Input → Decision
evaluate_nil none input = allowed
evaluate_nil (some e) none = allowed
evaluate_nil (some e) (some input) = evaluate e input
