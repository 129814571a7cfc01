-- ===== src/Policy/Load.antt =====
-- `LoadFile` of backend/internal/policy/load.go. Reading the file and the two decoders are
-- parameters; a loaded engine is the result or an error with its text.
use text.Mathlib.TextEquality.{eq_iff}
use gateway_llm.Prelude.{
  ◌≡◌, refl, String, Bool, false, ◌||◌, ap, ◌∙◌, Option, none, some, List, [], ◌∷◌, arith, str_eq,
  if◌then◌else◌,
}
use gateway_llm.Policy.Rules.{Rule}
use gateway_llm.Policy.{Engine, new_engine, rules_of, store_rules, set_rules}

-- RulesFile
pub record RulesFile : Type 0 where
  pub global : List Rule
  pub orgs : List (String × List Rule)

-- What os.ReadFile answers.
pub data ReadResult : Type 0 where
  contents : String → ReadResult
  not_exist : ReadResult
  read_error : ReadResult

pub data LoadResult : Type 0 where
  loaded : Engine → LoadResult
  read_failed parse_json_failed parse_yaml_failed : String → LoadResult

-- The loop over the organizations, in the order in which the map is ranged over.
set_orgs : List (String × List Rule) → Engine → Engine
set_orgs [] e = e
set_orgs ((org, rs) ∷ rest) e = set_orgs rest (set_rules org rs e)

set_global : List Rule → Engine → Engine
set_global [] e = e
set_global (r ∷ rs) e = set_rules "" (r ∷ rs) e

-- The calls of SetRules on a decoded file.
unfoldable pub configure : RulesFile → Engine
unfolding set_orgs set_global
configure file = set_orgs file.orgs (set_global file.global new_engine)

-- The file system and the decoders of encoding/json and yaml.v3.
pub record Loader : Type 0 where
  pub read_file : String → ReadResult
  pub parse_json : String → Option RulesFile
  pub parse_yaml : String → Option RulesFile

-- strings.HasSuffix
unfoldable pub has_suffix : String → String → Bool
has_suffix String.[] suffix = str_eq "" suffix
has_suffix (String.◌∷◌ c s) suffix = str_eq (String.◌∷◌ c s) suffix || has_suffix s suffix

on_parsed : LoadResult → Option RulesFile → LoadResult
on_parsed failure none = failure
on_parsed failure (some file) = loaded (configure file)

on_read : Loader → String → ReadResult → LoadResult
unfolding on_parsed
on_read l path not_exist = loaded new_engine
on_read l path read_error = read_failed path
on_read l path (contents text) =
    if has_suffix path ".json"
    then on_parsed (parse_json_failed path) (l.parse_json text)
    else on_parsed (parse_yaml_failed path) (l.parse_yaml text)

-- LoadFile
unfoldable pub load_file : Loader → String → LoadResult
unfolding on_read
load_file l path = if str_eq path "" then loaded new_engine else on_read l path (l.read_file path)

-- What a later entry of the file says of the key, or else what was there.
abbrev pub last_rules : String → List (String × List Rule) → List Rule → List Rule
last_rules org [] old = old
last_rules org ((key, rs) ∷ rest) old = last_rules org rest (if str_eq key org then rs else old)

rules_of-store_rules :
    (org key : String) (rs : List Rule) (table : List (String × List Rule))
    → rules_of key (store_rules org rs table) ≡ (if str_eq org key then rs else rules_of key table)
unfolding store_rules rules_of
rules_of-store_rules org key rs [] = refl
rules_of-store_rules org key rs ((k, old) ∷ rest) =
    ground (arith, eq_iff k org, eq_iff org key, eq_iff k key, rules_of-store_rules org key rs rest)

-- SetRules gives its key the new rules and leaves every other key's.
pub rules_of-set_rules :
    (org key : String) (rs : List Rule) (e : Engine)
    → rules_of key (set_rules org rs e).org_rules
      ≡ (if str_eq org key then rs else rules_of key e.org_rules)
unfolding set_rules
rules_of-set_rules org key rs e = rules_of-store_rules org key rs e.org_rules

rules_of-set_orgs :
    (orgs : List (String × List Rule)) (key : String) (e : Engine)
    → rules_of key (set_orgs orgs e).org_rules ≡ last_rules key orgs (rules_of key e.org_rules)
unfolding set_orgs
rules_of-set_orgs [] key e = refl
rules_of-set_orgs ((org, rs) ∷ rest) key e =
    rules_of-set_orgs rest key (set_rules org rs e)
    ∙ ap (last_rules key rest) (rules_of-set_rules org key rs e)

rules_of-set_global :
    (rs : List Rule) (key : String)
    → rules_of key (set_global rs new_engine).org_rules ≡ (if str_eq "" key then rs else [])
unfolding set_global
rules_of-set_global [] key = unfold new_engine rules_of in ground arith
rules_of-set_global (r ∷ rs) key =
    rules_of-set_rules "" key (r ∷ rs) new_engine ∙ (unfold new_engine rules_of in refl)

-- A file that is read and decoded gives an engine in which every organization has its entry of the
-- file, the last one where there are several, and "" has the global rules unless an entry for ""
-- replaces them.
pub load_file-rules :
    (l : Loader) (path text key : String) (file : RulesFile)
    → str_eq path "" ≡ false
    → l.read_file path ≡ contents text
    → (if has_suffix path ".json" then l.parse_json text else l.parse_yaml text) ≡ some file
    → (e : Engine) × (load_file l path ≡ loaded e)
      × (rules_of key e.org_rules
          ≡ last_rules key file.orgs (if str_eq "" key then file.global else []))
load_file-rules l path text key file named found parsed = (
  configure file,
  unfold load_file in ground arith,
  unfold configure in
      (rules_of-set_orgs file.orgs key (set_global file.global new_engine)
        ∙ ap (last_rules key file.orgs) (rules_of-set_global file.global key)),
)
