-- ===== src/SmartRoute/Deciding.antt =====
-- SmartRoute's decision of backend/internal/smartroute/smartroute.go, with the rule classifier.
-- Arithmetic on float64, JSON and the three patterns are parameters; the classifier that a Router
-- holds is a function. The loading of trained weights (ml.go) is left out.
pub mod Scan
pub mod Overrides
use Prim.Native.String.{String}
use gateway_llm.Prelude.{
  ℕ, ◌+◌, ◌-◌, Bool, true, false, not, ◌&&◌, ◌||◌, Option, none, some, List, [], ◌∷◌, ◌++◌, length,
  take, ltb, leb, ◌==◌, str_eq, if◌then◌else◌,
}
use gateway_llm.Prelude.Int.{ℤ, nonpos, ltb_ℤ, pos}
use gateway_llm.Prelude.Floats.{Floats, zero_float}
use gateway_llm.Router.State.{lookup}
use gateway_llm.Privacy.Bytes.{Bytes, codes}
use gateway_llm.Privacy.Rehydrator.{is_empty, contains}
use gateway_llm.SmartRoute.Shadow.{add_one}

-- The fields of a request that the classifier reads: its messages' contents, how many tools it has,
-- and its response format.
pub record Request : Type 0 where
  pub contents : List Bytes
  pub tools : ℕ
  pub response_format : Bytes

-- json.Unmarshal to a text, or to parts of which those with a text are given.
pub record Json : Type 0 where
  pub text_of : Bytes → Option Bytes
  pub parts_of : Bytes → Option (List Bytes)

-- codeFenceRE, mathRE and reasoningKW, and utf8.RuneCountInString
pub record Patterns : Type 0 where
  pub code_fence : Bytes → Bool
  pub math : Bytes → Bool
  pub reasoning : Bytes → Bool
  pub rune_count : Bytes → ℕ

-- config.SmartRouteConfig and the counters
pub record Router : Type 0 where
  pub enabled : Bool
  pub tiers : List (String × String)
  pub shadow_percent : ℤ
  pub decisions : ℕ
  pub overrides : ℕ

pub record Decision (F : Type 0) : Type 0 where
  pub alias : String
  pub from_alias : String
  pub score : F
  pub bucket : String
  pub overridden : Bool
  pub enabled : Bool

-- maxScan
abbrev pub max_scan : ℕ
max_scan = 32768

join_lines : List Bytes → Bytes
join_lines [] = []
join_lines (t ∷ ts) = t ++ (10 ∷ join_lines ts)

module _ (json : Json) where
  text_of_parts : Option (List Bytes) → Bytes
  unfolding join_lines
  text_of_parts none = []
  text_of_parts (some parts) = join_lines parts

  text_of_decoded : Option Bytes → Bytes → Bytes
  unfolding text_of_parts
  text_of_decoded (some s) raw = s
  text_of_decoded none raw = text_of_parts (json.parts_of raw)

  -- extractText, whose caller drops the Boolean
  unfoldable pub extract_text : Bytes → Bytes
  unfolding text_of_decoded
  extract_text raw = if is_empty raw then [] else text_of_decoded (json.text_of raw) raw

  -- text[:n - used], which panics below zero
  unfoldable pub cut : ℕ → ℕ → Bytes → Option Bytes
  cut n used text = if ltb n used then none else some (take (n - used) text)

  -- The text of one message, cut to what is left to scan.
  unfoldable pub fit : Bytes → Bytes → Option Bytes
  unfolding cut
  fit b text =
      if ltb max_scan (length b + length text) then cut max_scan (length b) text else some text

  then_scan : Option Bytes → (Bytes → Option Bytes) → Option Bytes
  then_scan none next = none
  then_scan (some text) next = next text

  -- The loop of Score over the messages, with what the builder has; none is a panic.
  unfoldable pub scan : List Bytes → Bytes → Option Bytes
  unfolding fit then_scan extract_text
  scan [] b = some b
  scan (raw ∷ contents) b =
      let text = extract_text raw in
      let skipped = scan contents b in
      let rest = λ (b' : Bytes). scan contents b' in
      if is_empty text
      then skipped
      else then_scan (fit b text) (λ t.
        let b' = b ++ (t ++ 10 ∷ []) in if leb max_scan (length b') then some b' else rest b')

module _ {F : Type 0} (fl : Floats F) where
  -- What the length adds.
  unfoldable pub length_score : ℕ → F
  length_score runes =
      if ltb runes 200
      then fl.ratio 0 1
      else (if ltb runes 1000
          then fl.ratio 10 100
          else (if ltb runes 4000
              then fl.ratio 25 100
              else (if ltb runes 12000 then fl.ratio 40 100 else fl.ratio 55 100)))

  abbrev add_if : Bool → ℕ → F → F
  add_if b percent score = if b then fl.plus score (fl.ratio percent 100) else score

  -- The signals of Score, and its ceiling.
  unfoldable pub score_text : Patterns → Request → Bytes → F
  unfolding length_score contains
  score_text pat req text =
      let score =
        add_if
          (not (is_empty req.response_format) && contains (codes "json_schema") req.response_format)
          5
          (add_if (ltb 0 req.tools) 15 (
            add_if (pat.reasoning text) 20 (
              add_if (pat.math text) 20 (
                add_if (pat.code_fence text) 15
                  (fl.plus (zero_float fl) (length_score (pat.rune_count text))))))) in
      if fl.less (fl.ratio 1 1) score then fl.ratio 1 1 else score

  -- bucketOf
  unfoldable pub bucket_of : F → String
  bucket_of score =
      if fl.less score (fl.ratio 33 100)
      then "simple"
      else (if fl.less score (fl.ratio 66 100) then "medium" else "complex")

  abbrev undecided : String → Decision F
  undecided requested = record {
    alias = requested;
    from_alias = requested;
    score = zero_float fl;
    bucket = "";
    overridden = false;
    enabled = false;
  }

  -- The tier's alias, where there is one, it is not empty, and it is another one.
  override : Option String → Decision F → Router → Decision F × Router
  override none d r = (d, r)
  override (some alias) d r = if str_eq alias "" || str_eq alias d.from_alias then (d, r) else (
    record d { alias = alias; overridden = true },
    record r { overrides = add_one r.overrides },
  )

  consult : F → String → Router → Decision F × Router
  unfolding override bucket_of lookup
  consult score requested r =
      let bucket = bucket_of score in
      override (lookup bucket r.tiers)
        (record (undecided requested) { score = score; bucket = bucket; enabled = true })
        (record r { decisions = add_one r.decisions })

  consult_if : Bool → F → String → Router → Decision F × Router
  unfolding consult
  consult_if enabled score requested r =
      if enabled then consult score requested r else (undecided requested, r)

  -- Decide, for a Router that is there
  unfoldable pub decide : (Request → F) → Option Request → String → Router → Decision F × Router
  unfolding consult_if
  decide classify none requested r = (undecided requested, r)
  decide classify (some req) requested r = consult_if r.enabled (classify req) requested r

  -- Pick
  unfoldable pub pick : (Request → F) → Option Request → String → Router → String × Router
  unfolding decide
  pick classify req requested r =
      let (d, r') = decide classify req requested r in (if d.overridden then d.alias else "", r')

-- ShouldShadow, where rand.Intn(100) draws the number
unfoldable pub should_shadow : ℕ → Option Router → Bool
should_shadow drawn none = false
should_shadow drawn (some r) =
    if not r.enabled || nonpos r.shadow_percent then false else ltb_ℤ (pos drawn) r.shadow_percent

-- Stats
unfoldable pub stats : Option Router → ℕ × ℕ
stats none = (0, 0)
stats (some r) = (r.decisions, r.overrides)
