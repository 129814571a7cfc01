-- ===== src/Privacy/Redactor.antt =====
-- The redactor of backend/internal/privacy/redactor.go. The regular expressions of the rules, sorting
-- and the hexadecimal SHA-256 are parameters; a call runs whole, as it takes the lock for each use
-- of the memo.
pub mod Restore
pub mod Memo
use gateway_llm.Prelude.{
  ℕ, Bool, true, false, Option, none, some, List, [], ◌∷◌, ◌++◌, take, drop, ltb, if◌then◌else◌,
}
use gateway_llm.Privacy.Bytes.{Bytes, codes, slice, Table, find, put}

pub record Span : Type 0 where
  pub category : Bytes
  pub start : ℕ
  pub end : ℕ
  pub value : Bytes
  pub token : Bytes

-- A rule: its category, what Re.FindAllStringIndex(text, -1) gives for a text, and its check.
pub record Rule : Type 0 where
  pub category : Bytes
  pub find_all : Bytes → List (ℕ × ℕ)
  pub validate : Option (Bytes → Bool)

pub record Redactor : Type 0 where
  pub rules : List Rule
  pub salt : Bytes
  pub memo : Table
  pub custom : List Rule

-- NewRedactor, over the default rules
unfoldable pub new_redactor : List Rule → Bytes → Redactor
new_redactor default_rules salt = record {
  rules = default_rules;
  salt = salt;
  memo = [];
  custom = [];
}

-- AddCustomPattern, after the pattern is compiled to what it finds; none is a pattern that is not
-- valid.
unfoldable pub add_custom_pattern :
    Bytes → Option (Bytes → List (ℕ × ℕ)) → Redactor → Redactor × Bool
add_custom_pattern category none r = (r, false)
add_custom_pattern category (some find_all) r = (
  record r {
    custom = r.custom ++ record { category = category; find_all = find_all; validate = none } ∷ [];
  },
  true,
)

-- ru.Validate == nil || ru.Validate(val)
abbrev pub passes : Option (Bytes → Bool) → Bytes → Bool
passes none val = true
passes (some check) val = check val

-- string(cat) + "|" + value
abbrev pub memo_key : Bytes → Bytes → Bytes
memo_key cat val = cat ++ (codes "|" ++ val)

-- The loop of Redact: what is written so far, the mapping, and the end of the last span.
unfoldable pub replace_spans : Bytes → ℕ → List Span → Bytes → Table → Bytes × Table
unfolding put
replace_spans text prev [] out mapping = (out ++ drop prev text, mapping)
replace_spans text prev (s ∷ spans) out mapping =
    let skipped = replace_spans text prev spans out mapping in
    let taken =
      replace_spans text s.end spans (out ++ (slice text prev s.start ++ s.token))
        (put s.token s.value mapping) in
    if ltb s.start prev then skipped else taken

unfoldable pub redact_spans : (List Span → List Span) → Bytes → List Span → Bytes × Table
unfolding replace_spans
redact_spans sort_by_start text [] = (text, [])
redact_spans sort_by_start text (s ∷ spans) = replace_spans text 0 (sort_by_start (s ∷ spans)) [] []

module _ (hex_hash : Bytes → Bytes) where
  -- The token of a value that the memo does not know.
  abbrev pub fresh_token : Bytes → Bytes → Bytes → Bytes
  fresh_token salt cat val =
      codes "<<pii:"
      ++ (cat ++ (codes ":" ++ (take 10 (hex_hash (salt ++ memo_key cat val)) ++ codes ">>")))

  memoize : Option Bytes → Bytes → Bytes → Redactor → Bytes × Redactor
  memoize (some t) cat val r = (t, r)
  memoize none cat val r =
      let tok = fresh_token r.salt cat val in
      (tok, record r { memo = put (memo_key cat val) tok r.memo })

  -- tokenFor
  unfoldable pub token_for : Bytes → Bytes → Redactor → Bytes × Redactor
  unfolding memoize find put
  token_for cat val r = memoize (find (memo_key cat val) r.memo) cat val r

  -- The loop over one rule's matches.
  unfoldable pub match_spans : Bytes → Rule → List (ℕ × ℕ) → Redactor → List Span × Redactor
  unfolding token_for
  match_spans text ru [] r = ([], r)
  match_spans text ru ((a, b) ∷ found) r =
      let val = slice text a b in
      let (tok, r') = token_for ru.category val r in
      let skipped = match_spans text ru found r in
      let (rest, r'') = match_spans text ru found r' in
      if passes ru.validate val
      then (
        record { category = ru.category; start = a; end = b; value = val; token = tok } ∷ rest,
        r'',
      )
      else skipped

  unfoldable pub rule_spans : Bytes → List Rule → Redactor → List Span × Redactor
  unfolding match_spans
  rule_spans text [] r = ([], r)
  rule_spans text (ru ∷ rules) r =
      let (spans, r') = match_spans text ru (ru.find_all text) r in
      let (rest, r'') = rule_spans text rules r' in (spans ++ rest, r'')

  -- findSpans, and Scan
  unfoldable pub find_spans : Bytes → Redactor → List Span × Redactor
  unfolding rule_spans
  find_spans text r = rule_spans text (r.rules ++ r.custom) r

  module _ (sort_by_start : List Span → List Span) where
    -- Redact
    unfoldable pub redact : Bytes → Redactor → (Bytes × Table) × Redactor
    unfolding redact_spans find_spans
    redact text r =
        let (spans, r') = find_spans text r in (redact_spans sort_by_start text spans, r')
