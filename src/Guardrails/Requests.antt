-- ===== src/Guardrails/Requests.antt =====
-- What CheckRequest answers, and what it leaves (backend/internal/guardrails/guardrails.go).
use gateway_llm.Prelude.{
  ◌≡◌, ◌⊎◌, inl, inr, refl, sym, subst, ap, ap₂, ◌∙◌, String, Bool, true, false, not, ◌&&◌, ◌||◌,
  some, List, [], ◌∷◌, ◌++◌, map, if◌then◌else◌,
}
use gateway_llm.Privacy.Bytes.{Bytes}
use gateway_llm.Privacy.Rehydrator.{is_empty}
use gateway_llm.Guardrails.{
  Regexp, Json, Engine, Result, Verdict, halt, keep, replace, no_result, blocked_for,
  message_to_text, matches_any, redact, replace_if, check_message, go_on, check_from, check_request,
}

module _ {P : Type 0} (regexp : Regexp P) (json : Json) (e : Engine P) where
  -- The message has a text that a blocked pattern or the injection pattern matches.
  abbrev pub is_offending : Bytes → Bool
  is_offending raw =
      let text = message_to_text json raw in
      not (is_empty text)
      && (matches_any regexp e.blocked_patterns text
          || e.injection_matcher && regexp.injection text)

  -- Redaction is on and changes the message's text.
  abbrev pub is_altered : Bytes → Bool
  is_altered raw =
      let text = message_to_text json raw in
      e.cfg.redact_pii && (not (is_empty text) && (redact regexp e text).1)

  -- The content that a message goes on with.
  abbrev pub cleaned : Bytes → Bytes
  cleaned raw =
      if is_altered raw then json.marshal (redact regexp e (message_to_text json raw)).0 else raw

  abbrev pub any_offending : List Bytes → Bool
  any_offending [] = false
  any_offending (raw ∷ raws) = is_offending raw || any_offending raws

  abbrev pub any_altered : List Bytes → Bool
  any_altered [] = false
  any_altered (raw ∷ raws) = is_altered raw || any_altered raws

  -- The answer for the contents, and the contents it leaves: nothing offends and each message is
  -- cleaned, or the first that offends is left as it is, with those behind it, and those before it
  -- are cleaned.
  pub data Checked (contents : List Bytes) (redacted : Bool) : Result × List Bytes → Type 0 where
    passed :
        (flag : Bool) (left : List Bytes)
        → any_offending contents ≡ false
        → flag ≡ (redacted || any_altered contents)
        → left ≡ map cleaned contents
        → Checked contents redacted (record no_result { redacted = flag }, left)
    stopped :
        (before : List Bytes) (raw : Bytes) (after left : List Bytes) (reason : String)
        → contents ≡ before ++ raw ∷ after
        → any_offending before ≡ false
        → is_offending raw ≡ true
        → left ≡ map cleaned before ++ raw ∷ after
        → Checked contents redacted (blocked_for reason, left)

  if_true : {A : Type 0} {b : Bool} (x y : A) → b ≡ true → (if b then x else y) ≡ x
  if_true x y h = rw h refl

  or_false : (a : Bool) → a ≡ (a || false)
  or_false true = refl
  or_false false = refl

  or_true : (a : Bool) → true ≡ (a || true)
  or_true true = refl
  or_true false = refl

  or_assoc : (a b c : Bool) → ((a || b) || c) ≡ (a || (b || c))
  or_assoc true b c = refl
  or_assoc false b c = refl

  -- A message: it offends and stops the loop, or it does not and goes on as cleaned.
  abbrev Judged : Bool → Bool → Bytes → Verdict → Type 0
  Judged offends alters new v =
      ((offends ≡ true) × (reason : String) × (v ≡ halt reason))
      ⊎ (offends ≡ false) × (alters ≡ false) × (v ≡ keep)
      ⊎ (offends ≡ false) × (alters ≡ true) × (v ≡ replace new)

  judge :
      (empty matched injected pii changed : Bool) (new : Bytes)
      → Judged
          (not empty && (matched || injected))
          (pii && (not empty && changed))
          (json.marshal new)
          (if empty
            then keep
            else (if matched
                then halt "matched blocked pattern"
                else (if injected
                    then halt "potential prompt injection detected"
                    else (if pii then replace_if regexp json (new, changed) else keep))))
  unfolding replace_if
  judge true m i true c new = inr (inl (refl, refl, refl))
  judge true m i false c new = inr (inl (refl, refl, refl))
  judge false true i p c new = inl (refl, "matched blocked pattern", refl)
  judge false false true p c new = inl (refl, "potential prompt injection detected", refl)
  judge false false false true true new = inr (inr (refl, refl, refl))
  judge false false false true false new = inr (inl (refl, refl, refl))
  judge false false false false c new = inr (inl (refl, refl, refl))

  check_message-Judged :
      (raw : Bytes)
      → Judged
          (is_offending raw)
          (is_altered raw)
          (json.marshal (redact regexp e (message_to_text json raw)).0)
          (check_message regexp json e raw)
  unfolding check_message
  check_message-Judged raw =
      let text = message_to_text json raw in
      judge (is_empty text) (matches_any regexp e.blocked_patterns text)
        (e.injection_matcher && regexp.injection text) e.cfg.redact_pii (redact regexp e text).1
        (redact regexp e text).0

  -- A message that goes on with a content, before what is said of the others.
  Checked-before :
      {raws : List Bytes} {flag : Bool} {out : Result × List Bytes} (raw content : Bytes)
      (redacted : Bool)
      → is_offending raw ≡ false
      → content ≡ cleaned raw
      → flag ≡ (redacted || is_altered raw)
      → Checked raws flag out
      → Checked (raw ∷ raws) redacted (out.0, content ∷ out.1)
  Checked-before {raws} {flag} raw content redacted ok clean marked
        (passed flag' left none_bad f same) =
      passed flag' (content ∷ left) (rw ok none_bad)
        (f
          ∙ (ap (λ b. b || any_altered raws) marked
              ∙ or_assoc redacted (is_altered raw) (any_altered raws)))
        (ap₂ (λ x xs. x ∷ xs) clean same)
  Checked-before raw content redacted ok clean marked
        (stopped before bad after left reason split none_bad is_bad same) =
      stopped (raw ∷ before) bad after (content ∷ left) reason (ap (λ xs. raw ∷ xs) split)
        (rw ok none_bad) is_bad (ap₂ (λ x xs. x ∷ xs) clean same)

  check_from-Checked :
      (contents : List Bytes) (redacted : Bool)
      → Checked contents redacted (check_from regexp json e contents redacted)
  unfolding check_from go_on
  check_from-Checked [] true = passed true [] refl refl refl
  check_from-Checked [] false = passed false [] refl refl refl
  check_from-Checked (raw ∷ raws) redacted = elim (check_message-Judged raw) [
    | inl (bad, reason, v) ↦ rw v (stopped [] raw raws (raw ∷ raws) reason refl refl bad refl)
    | inr (inl (ok, same, v)) ↦ rw v (
        Checked-before raw raw redacted ok (rw same refl) (rw same (or_false redacted))
          (check_from-Checked raws redacted))
    | inr (inr (ok, changed, v)) ↦ rw v (
        Checked-before raw (json.marshal (redact regexp e (message_to_text json raw)).0) redacted ok
          (rw changed refl) (rw changed (or_true redacted)) (check_from-Checked raws true))
  ]

  -- Where the guardrails are on, CheckRequest blocks a request exactly if some message's text matches
  -- a blocked pattern or, where that check is on, the injection pattern, judged before redaction. If
  -- none does, it answers not blocked, leaves each message as redaction has it, and says redacted
  -- exactly if that changed one of them. Otherwise it stops at the first such message with a reason:
  -- that message and those behind it are left as they were, and those before it are redacted.
  pub check_request-Checked :
      (contents : List Bytes)
      → e.cfg.enabled ≡ true
      → Checked contents false (check_request regexp json (some e) contents)
  unfolding check_request
  check_request-Checked contents on =
      subst (λ out. Checked contents false out) (sym (if_true _ _ on))
        (check_from-Checked contents false)
