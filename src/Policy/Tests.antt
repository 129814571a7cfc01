-- ===== src/Policy/Tests.antt =====
-- The policy's theorems at concrete inputs.
use gateway_llm.Prelude.{
  ℕ, ◌≡◌, refl, String, Bool, true, false, ◌&&◌, ◌||◌, none, some, List, [], ◌∷◌, str_eq, eq_iff,
  subst, Bool-cases, ◌⊎◌, inl, inr,
}
use gateway_llm.Prelude.Int.{pos}
use gateway_llm.Policy.Rules.{
  Rule, Input, denied, rule_denied, contains, matches_rule, apply, merge_allow, intersect,
}
use gateway_llm.Policy.{Engine, evaluate, evaluate_rules, rules_of, apply_rules, check_allowlists}
use gateway_llm.Policy.Denial.{
  rules_for, first_denying, all_tags, all_classes, IsCapOf, IsBelowCaps, evaluate-first_denying,
  evaluate-allow,
}
use gateway_llm.Policy.Allowlists.{
  providers_allow, regions_allow, evaluate-eq_allowlists, disjoint_providers_allow,
}
use gateway_llm.Policy.Load.{RulesFile, Loader, contents}

abbrev rule : String → Bool → List String → Rule
rule name deny providers = record {
  name = name;
  conditions = [];
  allow = none;
  deny = deny;
  reason = "";
  providers = providers;
  regions = [];
  require_tags = "audit" ∷ [];
  max_tokens = pos 100;
  redact_pii = [];
}

abbrev request : Input
request = record {
  org_id = "acme";
  residency = "eu";
  api_key_id = "";
  user_id = "";
  alias_name = "gpt";
  provider = "openai";
  region = "";
  pii_classes = [];
  tags = [];
  stream = false;
  max_tokens = pos 0;
  extra = "";
}

abbrev denying : Engine
denying = record { org_rules = ("acme", rule "freeze" true [] ∷ []) ∷ [] }

abbrev limiting : Engine
limiting = record {
  org_rules =
      ("", rule "base" false [] ∷ []) ∷ ("acme", rule "only" false ("openai" ∷ []) ∷ []) ∷ [];
}

evaluate-first_denying_example : evaluate denying request ≡ denied (rule_denied "freeze")
evaluate-first_denying_example =
    evaluate-first_denying denying request (rule "freeze" true [])
      (unfold rules_of matches_rule in refl)

evaluate-allow_example :
    (first_denying request (rules_for limiting request) ≡ none)
    × ((evaluate limiting request).required_tags ≡ all_tags request (rules_for limiting request))
    × ((evaluate limiting request).redact_classes
        ≡ all_classes request (rules_for limiting request))
    × ((n : ℕ) × ((evaluate limiting request).max_tokens_cap ≡ pos n)
        × ((n ≡ 0) ⊎ IsCapOf n request (rules_for limiting request))
        × IsBelowCaps n request (rules_for limiting request))
unfolding evaluate evaluate_rules rules_of apply_rules apply matches_rule merge_allow
    check_allowlists intersect contains
evaluate-allow_example = evaluate-allow limiting request refl

evaluate-eq_allowlists_example : (evaluate limiting request).allow ≡ (
    providers_allow request (rules_for limiting request) "openai"
    && (str_eq "" "" || regions_allow request (rules_for limiting request) ""))
evaluate-eq_allowlists_example =
    evaluate-eq_allowlists limiting request "openai" "eu" (unfold rules_of matches_rule in refl)
      (unfold rules_of matches_rule contains in refl)
      (unfold rules_of matches_rule contains in refl)

apart : (v : String) → (contains ("azure" ∷ []) v && contains ("gemini" ∷ []) v) ≡ false
unfolding contains
apart v = elim (Bool-cases (str_eq "azure" v)) [
  | inl e ↦
      subst (λ x. ((str_eq "azure" x || false) && (str_eq "gemini" x || false)) ≡ false)
        ((eq_iff "azure" v).0 e) refl
  | inr e ↦ rw e refl
]

disjoint_providers_allow_example :
    (evaluate_rules request
      (rule "one" false ("azure" ∷ []) ∷ rule "two" false ("gemini" ∷ []) ∷ [])).allow
    ≡ true
disjoint_providers_allow_example =
    disjoint_providers_allow request (rule "one" false ("azure" ∷ []))
      (rule "two" false ("gemini" ∷ [])) (unfold matches_rule in refl) (unfold matches_rule in refl)
      refl refl refl refl refl refl apart

abbrev file : RulesFile
file = record { global = rule "base" false [] ∷ []; orgs = ("acme", []) ∷ [] }

abbrev loader : Loader
loader = record {
  read_file = λ path. contents "{}";
  parse_json = λ text. some file;
  parse_yaml = λ text. none;
}
