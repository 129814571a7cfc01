-- ===== src/Guardrails/Tests.antt =====
-- The theorems on the guardrails at concrete inputs.
use gateway_llm.Prelude.{◌≡◌, refl, String, true, false, none, some, List, [], ◌∷◌, if◌then◌else◌}
use gateway_llm.Privacy.Bytes.{Bytes, codes, bytes_eq}
use gateway_llm.Guardrails.{
  GuardrailsConfig, Regexp, Json, new_engine, check_request, check_response, blocked_for,
}
use gateway_llm.Guardrails.Requests.{Checked, check_request-Checked}

-- A pattern matches the text that it spells, and one text has an address.
abbrev regexp : Regexp String
regexp = record {
  compile = λ p. some p;
  match_string = λ p text. bytes_eq (codes p) text;
  injection = λ text. bytes_eq (codes "jailbreak") text;
  replace_emails =
      λ text. if bytes_eq text (codes "a@b.de") then codes "[REDACTED_EMAIL]" else text;
  replace_ssns = λ text. text;
  replace_ccs = λ text. text;
}

abbrev json : Json
json = record { text_of = λ b. some b; parts_of = λ b. none; marshal = λ b. b }

abbrev config : GuardrailsConfig
config = record {
  enabled = true;
  redact_pii = true;
  block_prompt_injection = true;
  blocked_patterns = "secret" ∷ [];
}

abbrev messages : List Bytes
messages = codes "a@b.de" ∷ codes "jailbreak" ∷ codes "a@b.de" ∷ []

stops_at_second : check_request regexp json (some (new_engine regexp config)) messages ≡ (
  blocked_for "potential prompt injection detected",
  codes "[REDACTED_EMAIL]" ∷ codes "jailbreak" ∷ codes "a@b.de" ∷ [],
)
unfolding check_request new_engine bytes_eq
stops_at_second = refl

blocks_answer :
    check_response regexp (some (new_engine regexp config)) (codes "secret")
    ≡ blocked_for "response matched blocked pattern"
unfolding check_response new_engine bytes_eq
blocks_answer = refl

check_request-Checked_example :
    Checked regexp json
      (new_engine regexp config)
      messages
      false
      (check_request regexp json (some (new_engine regexp config)) messages)
unfolding new_engine
check_request-Checked_example =
    check_request-Checked regexp json (new_engine regexp config) messages refl
