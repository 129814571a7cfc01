-- ===== src/Privacy/Redactor/Memo.antt =====
-- What the memo of the redactor does to its answers (backend/internal/privacy/redactor.go).
use mathlib.Core.List.{append-nil}
use gateway_llm.Prelude.{
  ℕ, ◌≡◌, ◌≢◌, refl, sym, subst, ap, ◌∙◌, some, List, [], ◌∷◌, ◌++◌, if◌then◌else◌, Bool-cases,
  Option-cases, inl, inr,
}
use gateway_llm.Privacy.Bytes.{Bytes, slice, Table, find, put, find-put, bytes_eq, bytes_eq_iff}
use gateway_llm.Privacy.Redactor.{
  Span, Rule, Redactor, new_redactor, redact, redact_spans, find_spans, rule_spans, match_spans,
  token_for, passes, memo_key, fresh_token,
}
use gateway_llm.Privacy.Redactor.Restore.{All}

-- A category without the separator of the memo's keys.
abbrev pub NoBar : Bytes → Type 0
NoBar cat = All (λ c. c ≢ b'|') cat

memo_key_injective :
    (cat cat' val val' : Bytes)
    → NoBar cat
    → NoBar cat'
    → memo_key cat val ≡ memo_key cat' val'
    → (cat ≡ cat') × (val ≡ val')
memo_key_injective [] [] val val' p q e = (refl, cc)
memo_key_injective [] (c ∷ cat') val val' p (q, _) e = absurd (q (cc))
memo_key_injective (c ∷ cat) [] val val' (p, _) q e = absurd (p (cc))
memo_key_injective (c ∷ cat) (d ∷ cat') val val' (_, p) (_, q) e =
    let ih = memo_key_injective cat cat' val val' p q (cc) in
    let head : c ≡ d = cc in (rw (head, ih.0) refl, ih.1)

module _ (hex_hash : Bytes → Bytes) (salt : Bytes) where
  -- The memo says what would be computed.
  abbrev IsTruthful : Table → Type 0
  IsTruthful memo =
      (cat val tok : Bytes)
      → NoBar cat
      → find (memo_key cat val) memo ≡ some tok
      → tok ≡ fresh_token hex_hash salt cat val

  IsTruthful-put :
      (cat val : Bytes) (memo : Table)
      → NoBar cat
      → IsTruthful memo
      → IsTruthful (put (memo_key cat val) (fresh_token hex_hash salt cat val) memo)
  IsTruthful-put cat val memo p h cat' val' tok q e =
      let key = memo_key cat val in
      let key' = memo_key cat' val' in
      let tok' = fresh_token hex_hash salt cat val in
      elim (Bool-cases (bytes_eq key key')) [
        | inl same ↦
            let (c, v) =
              memo_key_injective cat cat' val val' p q ((bytes_eq_iff key key').0 same) in
            let found : some tok' ≡ some tok = sym (rw same at (find-put key' key tok' memo)) ∙ e in
            let eq : tok ≡ tok' = cc in rw (eq, c, v) refl
        | inr other ↦ h cat' val' tok q (sym (rw other at (find-put key' key tok' memo)) ∙ e)
      ]

  -- A redactor with these rules, whose memo is truthful.
  pub record IsSteady (rules custom : List Rule) (r : Redactor) : Type 0 where
    pub rules_kept : r.rules ≡ rules
    pub custom_kept : r.custom ≡ custom
    pub salt_kept : r.salt ≡ salt
    pub truthful : IsTruthful r.memo

  -- The spans with no memo at all.
  pure_matches : Bytes → Rule → List (ℕ × ℕ) → List Span
  pure_matches text ru [] = []
  pure_matches text ru ((a, b) ∷ found) =
      let val = slice text a b in
      let rest = pure_matches text ru found in
      if passes ru.validate val
      then record {
        category = ru.category;
        start = a;
        end = b;
        value = val;
        token = fresh_token hex_hash salt ru.category val;
      }
        ∷ rest
      else rest

  pure_spans : Bytes → List Rule → List Span
  pure_spans text [] = []
  pure_spans text (ru ∷ rules) = pure_matches text ru (ru.find_all text) ++ pure_spans text rules

  module _ (rules custom : List Rule) where
    token_for_lem :
        (cat val : Bytes) (r : Redactor)
        → NoBar cat
        → IsSteady rules custom r
        → ((token_for hex_hash cat val r).0 ≡ fresh_token hex_hash salt cat val)
          × IsSteady rules custom (token_for hex_hash cat val r).1
    unfolding token_for
    token_for_lem cat val r p h = elim (Option-cases (find (memo_key cat val) r.memo)) [
      | inr (tok, e) ↦ rw e (h.truthful cat val tok p e, h)
      | inl e ↦
          rw (e, h.salt_kept)
            (
              refl,
              record {
                rules_kept = h.rules_kept;
                custom_kept = h.custom_kept;
                salt_kept = refl;
                truthful = IsTruthful-put cat val r.memo p h.truthful;
              },
            )
    ]

    match_spans_lem :
        (text : Bytes) (ru : Rule) (found : List (ℕ × ℕ)) (r : Redactor)
        → NoBar ru.category
        → IsSteady rules custom r
        → ((match_spans hex_hash text ru found r).0 ≡ pure_matches text ru found)
          × IsSteady rules custom (match_spans hex_hash text ru found r).1
    unfolding match_spans pure_matches
    match_spans_lem text ru [] r p h = (refl, h)
    match_spans_lem text ru ((a, b) ∷ found) r p h =
        elim (Bool-cases (passes ru.validate (slice text a b))) [
          | inr skipped ↦ rw skipped (match_spans_lem text ru found r p h)
          | inl taken ↦
              let tok = token_for_lem ru.category (slice text a b) r p h in
              let rest = match_spans_lem text ru found _ p tok.1 in
              rw (taken, tok.0, rest.0) (refl, rest.1)
        ]

    rule_spans_lem :
        (text : Bytes) (rs : List Rule) (r : Redactor)
        → All (λ (ru : Rule). NoBar ru.category) rs
        → IsSteady rules custom r
        → ((rule_spans hex_hash text rs r).0 ≡ pure_spans text rs)
          × IsSteady rules custom (rule_spans hex_hash text rs r).1
    unfolding rule_spans pure_spans
    rule_spans_lem text [] r p h = (refl, h)
    rule_spans_lem text (ru ∷ rs) r (p, ps) h =
        let first = match_spans_lem text ru (ru.find_all text) r p h in
        let rest = rule_spans_lem text rs _ ps first.1 in rw (first.0, rest.0) (refl, rest.1)

module _ (hex_hash : Bytes → Bytes) (sort_by_start : List Span → List Span) where
  -- A series of calls of Redact.
  unfoldable pub redact_all : List Bytes → Redactor → Redactor
  redact_all [] r = r
  redact_all (text ∷ texts) r = redact_all texts (redact hex_hash sort_by_start text r).1

  module _ (salt : Bytes) (rules custom : List Rule)
      (bars : All (λ (ru : Rule). NoBar ru.category) (rules ++ custom)) where
    redact-IsSteady :
        (text : Bytes) (r : Redactor)
        → IsSteady hex_hash salt rules custom r
        → ((redact hex_hash sort_by_start text r).0
            ≡ redact_spans sort_by_start text (pure_spans hex_hash salt text (rules ++ custom)))
          × IsSteady hex_hash salt rules custom (redact hex_hash sort_by_start text r).1
    unfolding redact find_spans
    redact-IsSteady text r h =
        let all = rule_spans_lem hex_hash salt rules custom text (rules ++ custom) r bars h in
        let e : rules ++ custom ≡ r.rules ++ r.custom =
          ap (λ l. l ++ custom) (sym h.rules_kept) ∙ ap (λ l. r.rules ++ l) (sym h.custom_kept) in
        subst
          (λ l.
            (redact_spans sort_by_start text (rule_spans hex_hash text l r).0
              ≡ redact_spans sort_by_start text (pure_spans hex_hash salt text (rules ++ custom)))
            × IsSteady hex_hash salt rules custom (rule_spans hex_hash text l r).1)
          e (ap (redact_spans sort_by_start text) (all.0), all.1)

    IsSteady-redact_all :
        (texts : List Bytes) (r : Redactor)
        → IsSteady hex_hash salt rules custom r
        → IsSteady hex_hash salt rules custom (redact_all texts r)
    unfolding redact_all
    IsSteady-redact_all [] r h = h
    IsSteady-redact_all (text ∷ texts) r h =
        IsSteady-redact_all texts _ (redact-IsSteady text r h).1

  -- What Redact answers for a text does not depend on the texts that the redactor has seen before:
  -- the redacted text and the mapping are those of a new redactor with the same rules and the same
  -- salt, so that a value always gets the same token. No category of a rule has a vertical bar,
  -- which separates the category from the value in the keys of the memo.
  pub redact_all-redact :
      (rules : List Rule) (salt text : Bytes) (texts : List Bytes)
      → All (λ (ru : Rule). NoBar ru.category) rules
      → (redact hex_hash sort_by_start text (redact_all texts (new_redactor rules salt))).0
        ≡ (redact hex_hash sort_by_start text (new_redactor rules salt)).0
  redact_all-redact rules salt text texts bars =
      let bars' : All (λ (ru : Rule). NoBar ru.category) (rules ++ []) =
        rw (append-nil rules) bars in
      let fresh : IsSteady hex_hash salt rules [] (new_redactor rules salt) =
        unfold new_redactor find in
        record {
          rules_kept = refl;
          custom_kept = refl;
          salt_kept = refl;
          truthful = λ cat val tok p e. cc;
        } in
      (redact-IsSteady salt rules [] bars' text _
        (IsSteady-redact_all salt rules [] bars' texts _ fresh)).0
      ∙ sym (redact-IsSteady salt rules [] bars' text _ fresh).0
