-- ===== src/Guardrails.antt =====
-- backend/internal/guardrails/guardrails.go: the checks of requests and responses. The regular
-- expressions, JSON and marshalling are parameters; a request is the contents of its messages.
pub mod Requests
mod Tests
use gateway_llm.Prelude.{
  ℕ, String, Bool, true, false, not, ◌&&◌, ◌||◌, Option, none, some, List, [], ◌∷◌, ◌++◌,
  if◌then◌else◌,
}
use gateway_llm.Privacy.Bytes.{Bytes, bytes_eq}
use gateway_llm.Privacy.Rehydrator.{is_empty}

-- config.GuardrailsConfig
pub record GuardrailsConfig : Type 0 where
  pub enabled : Bool
  pub redact_pii : Bool
  pub block_prompt_injection : Bool
  pub blocked_patterns : List String

-- regexp: Compile and MatchString of a pattern of the configuration, MatchString of
-- defaultInjectionPattern, and ReplaceAllString of the three patterns of NewEngine.
pub record Regexp (P : Type 0) : Type 0 where
  pub compile : String → Option P
  pub match_string : P → Bytes → Bool
  pub injection : Bytes → Bool
  pub replace_emails : Bytes → Bytes
  pub replace_ssns : Bytes → Bytes
  pub replace_ccs : Bytes → Bytes

-- json.Unmarshal to a text, or to parts with the texts that they have, and json.Marshal of a text.
pub record Json : Type 0 where
  pub text_of : Bytes → Option Bytes
  pub parts_of : Bytes → Option (List Bytes)
  pub marshal : Bytes → Bytes

-- Engine; the fields for the patterns that the source compiles in say whether they are not nil.
pub record Engine (P : Type 0) : Type 0 where
  pub cfg : GuardrailsConfig
  pub blocked_patterns : List P
  pub injection_matcher : Bool
  pub email_re : Bool
  pub ssn_re : Bool
  pub cc_re : Bool

pub record Result : Type 0 where
  pub blocked : Bool
  pub reason : String
  pub redacted : Bool

abbrev pub no_result : Result
no_result = record { blocked = false; reason = ""; redacted = false }

abbrev pub blocked_for : String → Result
blocked_for reason = record { blocked = true; reason = reason; redacted = false }

join : List Bytes → Bytes
join [] = []
join (t ∷ ts) = t ++ join ts

text_of_parts : Option (List Bytes) → Bytes
unfolding join
text_of_parts none = []
text_of_parts (some parts) = join parts

text_of_decoded : Json → Option Bytes → Bytes → Bytes
unfolding text_of_parts
text_of_decoded json (some s) raw = s
text_of_decoded json none raw = text_of_parts (json.parts_of raw)

-- messageToText, whose caller drops the Boolean
unfoldable pub message_to_text : Json → Bytes → Bytes
unfolding text_of_decoded
message_to_text json raw = if is_empty raw then [] else text_of_decoded json (json.text_of raw) raw

-- What CheckRequest does with one message: it returns with a reason, leaves the message, or gives
-- it another content.
pub data Verdict : Type 0 where
  halt : String → Verdict
  keep : Verdict
  replace : Bytes → Verdict

module _ {P : Type 0} (regexp : Regexp P) where
  add_compiled : Option P → List P → List P
  add_compiled none ps = ps
  add_compiled (some p) ps = p ∷ ps

  -- The loop of NewEngine, which leaves out a pattern that does not compile.
  unfoldable pub compile_all : List String → List P
  unfolding add_compiled
  compile_all [] = []
  compile_all (p ∷ ps) = add_compiled (regexp.compile p) (compile_all ps)

  -- NewEngine
  unfoldable pub new_engine : GuardrailsConfig → Engine P
  unfolding compile_all
  new_engine cfg = record {
    cfg = cfg;
    blocked_patterns = if cfg.enabled then compile_all cfg.blocked_patterns else [];
    injection_matcher = cfg.enabled && cfg.block_prompt_injection;
    email_re = cfg.enabled && cfg.redact_pii;
    ssn_re = cfg.enabled && cfg.redact_pii;
    cc_re = cfg.enabled && cfg.redact_pii;
  }

  -- The loops over blockedPatterns
  unfoldable pub matches_any : List P → Bytes → Bool
  matches_any [] text = false
  matches_any (p ∷ ps) text = if regexp.match_string p text then true else matches_any ps text

  -- redact
  unfoldable pub redact : Engine P → Bytes → Bytes × Bool
  redact e orig =
      let s = if e.email_re then regexp.replace_emails orig else orig in
      let s' = if e.ssn_re then regexp.replace_ssns s else s in
      let s'' = if e.cc_re then regexp.replace_ccs s' else s' in (s'', not (bytes_eq s'' orig))

  module _ (json : Json) where
    -- What changes the content where redact has changed the text.
    unfoldable pub replace_if : Bytes × Bool → Verdict
    replace_if (new_text, changed) = if changed then replace (json.marshal new_text) else keep

    -- One turn of CheckRequest's loop.
    unfoldable pub check_message : Engine P → Bytes → Verdict
    unfolding message_to_text matches_any redact replace_if
    check_message e raw =
        let text = message_to_text json raw in
        if is_empty text
        then keep
        else (if matches_any e.blocked_patterns text
            then halt "matched blocked pattern"
            else (if e.injection_matcher && regexp.injection text
                then halt "potential prompt injection detected"
                else (if e.cfg.redact_pii then replace_if (redact e text) else keep)))

    abbrev prepend : Bytes → Result × List Bytes → Result × List Bytes
    prepend raw (res, raws) = (res, raw ∷ raws)

    unfoldable pub go_on :
        Verdict → Bytes → List Bytes → (Bool → Result × List Bytes) → Bool → Result × List Bytes
    go_on (halt reason) raw raws rest redacted = (blocked_for reason, raw ∷ raws)
    go_on keep raw raws rest redacted = prepend raw (rest redacted)
    go_on (replace new) raw raws rest redacted = prepend new (rest true)

    -- CheckRequest's loop from a message on, with the flag so far.
    unfoldable pub check_from : Engine P → List Bytes → Bool → Result × List Bytes
    unfolding go_on check_message
    check_from e [] redacted = (record no_result { redacted = redacted }, [])
    check_from e (raw ∷ raws) redacted =
        let rest = λ (b : Bool). check_from e raws b in
        go_on (check_message e raw) raw raws rest redacted

    -- CheckRequest, for a request that is there: the result, and the contents that it leaves.
    unfoldable pub check_request : Option (Engine P) → List Bytes → Result × List Bytes
    unfolding check_from
    check_request none contents = (no_result, contents)
    check_request (some e) contents =
        if e.cfg.enabled then check_from e contents false else (no_result, contents)

  -- CheckResponse
  unfoldable pub check_response : Option (Engine P) → Bytes → Result
  unfolding matches_any
  check_response none text = no_result
  check_response (some e) text =
      if not e.cfg.enabled || is_empty text
      then no_result
      else (if matches_any e.blocked_patterns text
          then blocked_for "response matched blocked pattern"
          else no_result)
