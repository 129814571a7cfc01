-- ===== src/Privacy/Redactor/Restore.antt =====
-- A redacted text and its mapping give the text back (backend/internal/privacy/redactor.go).
use gateway_llm.Prelude.{
  ℕ, ◌≡◌, ◌≤◌, refl, sym, subst, ap, ◌∙◌, Option, none, some, List, [], ◌∷◌, ◌++◌, drop, ltb,
  Bool-cases, inl, inr, arith,
}
use mathlib.Core.List.{append_assoc, append-nil}
use gateway_llm.Privacy.Bytes.{
  Bytes, slice, slice-append-drop, Table, find, put, find-put, bytes_eq_iff,
}
use gateway_llm.Privacy.Redactor.{
  Span, Rule, Redactor, redact, redact_spans, replace_spans, find_spans, rule_spans, match_spans,
  passes,
}

-- A stretch of a redacted text: what was there before, or a token.
pub data Piece : Type 0 where
  plain : Bytes → Piece
  tagged : Bytes → Piece

abbrev pub render : List Piece → Bytes
render [] = []
render (plain b ∷ ps) = b ++ render ps
render (tagged t ∷ ps) = t ++ render ps

abbrev pub found_or : Bytes → Option Bytes → Bytes
found_or t none = t
found_or t (some v) = v

-- The pieces with the values that the mapping has for the tokens.
abbrev pub restore : Table → List Piece → Bytes
restore m [] = []
restore m (plain b ∷ ps) = b ++ restore m ps
restore m (tagged t ∷ ps) = found_or t (find t m) ++ restore m ps

-- A span is what the text has there, and its token stands for that value.
abbrev pub IsCut : (Bytes → Bytes) → Bytes → Span → Type 0
IsCut original text s =
    (s.start ≤ s.end) × (s.value ≡ slice text s.start s.end) × (original s.token ≡ s.value)

abbrev pub All {ℓ κ} : {A : Type ℓ} → (A → Type κ) → List A → Type κ
All P [] = Unit
All P (x ∷ xs) = P x × All P xs

module _ (original : Bytes → Bytes) (text : Bytes) where
  -- What the loop has still to write: pieces that the final mapping turns into the rest of the text.
  record IsRest (prev : ℕ) (out : Bytes) (mapping : Table) (result : Bytes × Table) : Type 0 where
    pieces : List Piece
    written : result.0 ≡ out ++ render pieces
    restored : restore result.1 pieces ≡ drop prev text
    keeps : (t : Bytes) → find t mapping ≡ some (original t) → find t result.1 ≡ some (original t)

  find-put_original :
      (t : Bytes) (s : Span) (m : Table)
      → original s.token ≡ s.value
      → find t m ≡ some (original t)
      → find t (put s.token s.value m) ≡ some (original t)
  find-put_original t s m e h =
      find-put t s.token s.value m ∙ ground (arith, bytes_eq_iff s.token t)

  IsRest-cut :
      (prev : ℕ) (s : Span) (out : Bytes) (m : Table) (result : Bytes × Table)
      → prev ≤ s.start
      → IsCut original text s
      → IsRest s.end (out ++ (slice text prev s.start ++ s.token)) (put s.token s.value m) result
      → IsRest prev out m result
  IsRest-cut prev s out m result h cut r = record {
    pieces = plain (slice text prev s.start) ∷ tagged s.token ∷ r.pieces;
    written = r.written ∙ simp append_assoc;
    restored =
        let self : find s.token (put s.token s.value m) ≡ some (original s.token) =
          find-put s.token s.token s.value m
          ∙ rw ((bytes_eq_iff s.token s.token).1 refl) (ap some (sym cut.2)) in
        rw (r.keeps s.token self, r.restored, cut.2, cut.1)
          (ap (λ l. slice text prev s.start ++ l) (slice-append-drop text s.start s.end cut.0)
            ∙ slice-append-drop text prev s.start h);
    keeps = λ t e. r.keeps t (find-put_original t s m cut.2 e);
  }

  IsRest-replace_spans :
      (spans : List Span) (prev : ℕ) (out : Bytes) (m : Table)
      → All (IsCut original text) spans
      → IsRest prev out m (replace_spans text prev spans out m)
  unfolding replace_spans
  IsRest-replace_spans [] prev out m cuts = record {
    pieces = plain (drop prev text) ∷ [];
    written = ap (λ l. out ++ l) (sym (append-nil (drop prev text)));
    restored = append-nil (drop prev text);
    keeps = λ t e. e;
  }
  IsRest-replace_spans (s ∷ spans) prev out m (cut, cuts) = elim (Bool-cases (ltb s.start prev)) [
    | inl overlap ↦
        let e : replace_spans text prev (s ∷ spans) out m ≡ replace_spans text prev spans out m =
          rw overlap refl in
        subst (IsRest prev out m) (sym e) (IsRest-replace_spans spans prev out m cuts)
    | inr apart ↦
        let out' = out ++ (slice text prev s.start ++ s.token) in
        let e : replace_spans text prev (s ∷ spans) out m
            ≡ replace_spans text s.end spans out' (put s.token s.value m) =
          rw apart refl in
        subst (IsRest prev out m) (sym e) (
          IsRest-cut prev s out m _ (ground arith) cut
            (IsRest-replace_spans spans s.end out' (put s.token s.value m) cuts))
  ]

  -- From the spans, in the order in which they were sorted.
  pub redact_spans-restores :
      (sort_by_start : List Span → List Span) (spans : List Span)
      → All (IsCut original text) (sort_by_start spans)
      → (pieces : List Piece) × ((redact_spans sort_by_start text spans).0 ≡ render pieces)
        × (restore (redact_spans sort_by_start text spans).1 pieces ≡ text)
  unfolding redact_spans
  redact_spans-restores sort_by_start [] cuts =
      (plain text ∷ [], sym (append-nil text), append-nil text)
  redact_spans-restores sort_by_start (s ∷ spans) cuts =
      let rest = IsRest-replace_spans (sort_by_start (s ∷ spans)) 0 [] [] cuts in
      (rest.pieces, rest.written, rest.restored)

-- Every match of the rule lies from left to right, as the regexp package gives it.
abbrev pub InOrder : Bytes → Rule → Type 0
InOrder text ru = All (λ m. m.0 ≤ m.1) (ru.find_all text)

-- What sorting must keep: it only reorders.
abbrev pub OnlyReorders : (List Span → List Span) → Type 1
OnlyReorders sort = (P : Span → Type 0) (spans : List Span) → All P spans → All P (sort spans)

abbrev IsSlice : Bytes → Span → Type 0
IsSlice text s = (s.start ≤ s.end) × (s.value ≡ slice text s.start s.end)

pub All-append {ℓ κ} :
    {A : Type ℓ} (P : A → Type κ) (xs ys : List A) → All P xs → All P ys → All P (xs ++ ys)
All-append P [] ys h k = k
All-append P (x ∷ xs) ys (p, h) k = (p, All-append P xs ys h k)

All-IsCut :
    (original : Bytes → Bytes) (text : Bytes) (spans : List Span)
    → All (IsSlice text) spans
    → All (λ s. original s.token ≡ s.value) spans
    → All (IsCut original text) spans
All-IsCut original text [] h k = tt
All-IsCut original text (s ∷ spans) (a, h) (b, k) =
    ((a.0, a.1, b), All-IsCut original text spans h k)

module _ (hex_hash : Bytes → Bytes) (text : Bytes) where
  All-match_spans :
      (ru : Rule) (found : List (ℕ × ℕ)) (r : Redactor)
      → All (λ m. m.0 ≤ m.1) found
      → All (IsSlice text) (match_spans hex_hash text ru found r).0
  unfolding match_spans
  All-match_spans ru [] r h = tt
  All-match_spans ru ((a, b) ∷ found) r (p, h) =
      elim (Bool-cases (passes ru.validate (slice text a b))) [
        | inl taken ↦ rw taken ((p, refl), All-match_spans ru found _ h)
        | inr skipped ↦ rw skipped (All-match_spans ru found r h)
      ]

  All-rule_spans :
      (rules : List Rule) (r : Redactor)
      → All (InOrder text) rules
      → All (IsSlice text) (rule_spans hex_hash text rules r).0
  unfolding rule_spans
  All-rule_spans [] r h = tt
  All-rule_spans (ru ∷ rules) r (p, h) =
      All-append (IsSlice text) _ _ (All-match_spans ru (ru.find_all text) r p)
        (All-rule_spans rules _ h)

  -- Redact writes a text that is made of pieces, stretches of its input as they were and tokens,
  -- and with every token replaced by its value in the returned mapping these pieces are the input
  -- again: where the matches of the regular expressions lie from left to right, sorting only
  -- reorders, and no two of the spans found have one token and different values (`original` is the
  -- value of a token). The spans of different rules may overlap.
  pub redact-restores :
      (sort_by_start : List Span → List Span) (r : Redactor) (original : Bytes → Bytes)
      → OnlyReorders sort_by_start
      → All (InOrder text) (r.rules ++ r.custom)
      → All (λ s. original s.token ≡ s.value) (find_spans hex_hash text r).0
      → (let (out, mapping) = (redact hex_hash sort_by_start text r).0 in
          (pieces : List Piece) × (out ≡ render pieces) × (restore mapping pieces ≡ text))
  unfolding redact find_spans
  redact-restores sort_by_start r original reorders in_order distinct =
      let spans = (find_spans hex_hash text r).0 in
      redact_spans-restores original text sort_by_start spans (
        reorders (IsCut original text) spans (
          All-IsCut original text spans (All-rule_spans (r.rules ++ r.custom) r in_order) distinct))
