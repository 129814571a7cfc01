-- ===== src/SmartRoute/Tests.antt =====
-- The theorems on smart routing at concrete inputs.
use gateway_llm.Prelude.{
  ℕ, ◌+◌, ◌-◌, ◌*◌, ◌/◌, ◌≡◌, ◌≤◌, refl, true, none, some, [], ◌∷◌, length, ltb, ◌==◌,
}
use gateway_llm.Prelude.Int.{pos, pos_part}
use gateway_llm.Prelude.Floats.{Floats}
use gateway_llm.Privacy.Bytes.{Bytes, codes}
use gateway_llm.SmartRoute.Shadow.{
  ShadowRunner, new_shadow_runner, start, admitted, over_limit, access, move, Reach, here, next,
  IsBounded, Reach-IsBounded,
}
use gateway_llm.SmartRoute.Deciding.{Request, Json, Router, max_scan, scan, decide, pick}
use gateway_llm.SmartRoute.Deciding.Scan.{scan-bounded}
use gateway_llm.SmartRoute.Deciding.Overrides.{Decides, decide-Decides}

-- Scores in hundredths.
abbrev percent : Floats ℕ
percent = record {
  ratio = λ n d. n * 100 / d;
  of_int = λ n. pos_part n * 100;
  plus = λ a b. a + b;
  minus = λ a b. a - b;
  times = λ a b. a * b / 100;
  quotient = λ a b. a * 100 / b;
  sqrt = λ a. a;
  less = λ a b. ltb a b;
  equal = λ a b. a == b;
}

abbrev router : Router
router = record {
  enabled = true;
  tiers = ("simple", "mini") ∷ ("complex", "large") ∷ [];
  shadow_percent = pos 5;
  decisions = 3;
  overrides = 1;
}

abbrev request : Request
request = record { contents = codes "hello" ∷ []; tools = 0; response_format = [] }

overrides_simple : (pick percent (λ req. 10) (some request) "large" router).0 ≡ "mini"
unfolding pick
overrides_simple = refl

decide-Decides_example :
    Decides percent
      (λ req. 10)
      (some request)
      true
      "large"
      router
      (decide percent (λ req. 10) (some request) "large" router).1
      (decide percent (λ req. 10) (some request) "large" router).0
      (pick percent (λ req. 10) (some request) "large" router).0
decide-Decides_example = decide-Decides percent (λ req. 10) (some request) "large" router

abbrev json : Json
json = record { text_of = λ b. some b; parts_of = λ b. none }

scans : scan json (codes "hello" ∷ [] ∷ codes "world" ∷ []) [] ≡ some (codes "hello\nworld\n")
unfolding scan
scans = refl

scan-bounded_example :
    (text : Bytes) × (scan json (codes "hello" ∷ codes "world" ∷ []) [] ≡ some text)
    × (length text ≤ max_scan + 1)
scan-bounded_example = scan-bounded json (codes "hello" ∷ codes "world" ∷ [])

abbrev one : ShadowRunner
one = new_shadow_runner (pos 1)

abbrev after_first : ShadowRunner
after_first = record one { inflight = 1 }

abbrev after_both : ShadowRunner
after_both = record one { inflight = 2 }

-- Two goroutines add themselves, and the second is over the limit.
two_come : Reach (start ∷ start ∷ [], one) (admitted ∷ over_limit ∷ [], after_both)
unfolding new_shadow_runner access
two_come =
    next (next here (move [] (start ∷ []) start one)) (move (admitted ∷ []) [] start after_first)

Reach-IsBounded_example : IsBounded one.max_concurrent (admitted ∷ over_limit ∷ []) after_both
Reach-IsBounded_example = Reach-IsBounded (pos 1) (start ∷ start ∷ []) (refl, (refl, tt)) two_come
