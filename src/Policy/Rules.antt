-- ===== src/Policy/Rules.antt =====
-- Rules, conditions and decisions (backend/internal/policy/policy.go).
use text.Mathlib.Text.{starts_with}
use gateway_llm.Prelude.{
  String, Bool, true, false, not, ◌&&◌, ◌||◌, Option, List, [], ◌∷◌, ◌++◌, str_eq, if◌then◌else◌,
}
use gateway_llm.Prelude.Int.{ℤ, pos, ltb_ℤ, nonpos}

-- The texts that a denial can give: none, a rule's own, or a format with its argument.
pub data Reason : Type 0 where
  no_reason : Reason
  rule_reason : String → Reason
  rule_denied : String → Reason
  provider_not_allowed : String → Reason
  region_not_allowed : String → Reason

-- Decision
pub record Decision : Type 0 where
  pub allow : Bool
  pub reason : Reason
  pub required_tags : List String
  pub max_tokens_cap : ℤ
  pub provider_allow : List String
  pub region_allow : List String
  pub redact_classes : List String

-- Input; `extra` is raw JSON, which nothing reads
pub record Input : Type 0 where
  pub org_id : String
  pub residency : String
  pub api_key_id : String
  pub user_id : String
  pub alias_name : String
  pub provider : String
  pub region : String
  pub pii_classes : List String
  pub tags : List String
  pub stream : Bool
  pub max_tokens : ℤ
  pub extra : String

-- Condition
pub record Condition : Type 0 where
  pub residency_equals : String
  pub org_equals : String
  pub provider_in : List String
  pub region_in : List String
  pub pii_class_in : List String
  pub tag_in : List String
  pub alias_prefix : String

-- Rule; `allow` is the optional Boolean of the declaration
pub record Rule : Type 0 where
  pub name : String
  pub conditions : List Condition
  pub allow : Option Bool
  pub deny : Bool
  pub reason : String
  pub providers : List String
  pub regions : List String
  pub require_tags : List String
  pub max_tokens : ℤ
  pub redact_pii : List String

-- contains
unfoldable pub contains : List String → String → Bool
contains [] v = false
contains (x ∷ xs) v = str_eq x v || contains xs v

-- len(xs) > 0
abbrev pub is_nonempty : List String → Bool
is_nonempty [] = false
is_nonempty (x ∷ xs) = true

unfoldable pub keep_common : List String → List String → List String
keep_common [] b = []
keep_common (x ∷ xs) b = let rest = keep_common xs b in if contains b x then x ∷ rest else rest

-- intersect
unfoldable pub intersect : List String → List String → List String
unfolding keep_common
intersect a b =
    if not (is_nonempty a) then b else (if not (is_nonempty b) then a else keep_common a b)

-- Decision{Allow: true}
abbrev pub allowed : Decision
allowed = record {
  allow = true;
  reason = no_reason;
  required_tags = [];
  max_tokens_cap = pos 0;
  provider_allow = [];
  region_allow = [];
  redact_classes = [];
}

-- Decision{Allow: false, Reason: why}
abbrev pub denied : Reason → Decision
denied why = record allowed { allow = false; reason = why }

-- The cap of mergeAllow.
unfoldable pub merge_cap : ℤ → ℤ → ℤ
merge_cap base next =
    if not (nonpos next) && (nonpos base && not (ltb_ℤ base (pos 0)) || ltb_ℤ next base)
    then next
    else base

-- mergeAllow. Appending an empty list changes nothing, as in the source's guards.
unfoldable pub merge_allow : Decision → Decision → Decision
merge_allow base next = record base {
  required_tags =
      if is_nonempty next.required_tags
      then base.required_tags ++ next.required_tags
      else base.required_tags;
  provider_allow =
      if is_nonempty next.provider_allow
      then intersect base.provider_allow next.provider_allow
      else base.provider_allow;
  region_allow =
      if is_nonempty next.region_allow
      then intersect base.region_allow next.region_allow
      else base.region_allow;
  redact_classes =
      if is_nonempty next.redact_classes
      then base.redact_classes ++ next.redact_classes
      else base.redact_classes;
  max_tokens_cap = merge_cap base.max_tokens_cap next.max_tokens_cap;
}

-- The loop that sets `hit`.
unfoldable pub contains_any : List String → List String → Bool
contains_any [] given = false
contains_any (p ∷ ps) given = contains given p || contains_any ps given

-- Condition.match: each populated field has to hold. Of a list of classes or tags one entry has to
-- be among the input's.
unfoldable pub matches_condition : Condition → Input → Bool
matches_condition c input =
    (str_eq c.residency_equals "" || str_eq input.residency c.residency_equals)
    && (str_eq c.org_equals "" || str_eq input.org_id c.org_equals)
    && (not (is_nonempty c.provider_in) || contains c.provider_in input.provider)
    && (not (is_nonempty c.region_in) || contains c.region_in input.region)
    && (not (is_nonempty c.pii_class_in) || contains_any c.pii_class_in input.pii_classes)
    && (not (is_nonempty c.tag_in) || contains_any c.tag_in input.tags)
    && (str_eq c.alias_prefix "" || starts_with input.alias_name c.alias_prefix)

all_match : List Condition → Input → Bool
all_match [] input = true
all_match (c ∷ cs) input = matches_condition c input && all_match cs input

-- Rule.match
unfoldable pub matches_rule : Rule → Input → Bool
unfolding all_match
matches_rule r input = all_match r.conditions input

abbrev pub denial_reason : Rule → Reason
denial_reason r = if str_eq r.reason "" then rule_denied r.name else rule_reason r.reason

-- Rule.Apply
unfoldable pub apply : Rule → Input → Decision
apply r input =
    if not (matches_rule r input)
    then allowed
    else (if r.deny then denied (denial_reason r) else record allowed {
      required_tags = r.require_tags;
      provider_allow = r.providers;
      region_allow = r.regions;
      max_tokens_cap = r.max_tokens;
      redact_classes = r.redact_pii;
    })
