-- ===== src/Caches/Semantic/Tests.antt =====
-- The theorems on the semantic cache at concrete inputs.
use gateway_llm.Prelude.{
  ℕ, ◌+◌, ◌-◌, ◌*◌, ◌/◌, ◌≡◌, refl, String, true, false, some, List, [], ◌∷◌, drop, length, ltb,
  ◌==◌, arith,
}
use gateway_llm.Prelude.Int.{pos, pos_part}
use gateway_llm.Router.State.{lookup}
use gateway_llm.Prelude.Floats.{Floats}
use gateway_llm.Caches.Semantic.{
  Entry, Config, Cache, ring_of, new, enabled, remember, put, find, scan, conclude,
}
use gateway_llm.Caches.Semantic.Latest.{view}
use gateway_llm.Caches.Semantic.Stores.{Call, store_all, made_by, store_all-latest}
use gateway_llm.Caches.Semantic.Best.{Judged, find-Judged}

-- Whole numbers in the place of floats.
abbrev whole : Floats ℕ
whole = record {
  ratio = λ n d. n / d;
  of_int = λ n. pos_part n;
  plus = λ a b. a + b;
  minus = λ a b. a - b;
  times = λ a b. a * b;
  quotient = λ a b. a / b;
  sqrt = λ a. 1;
  less = λ a b. ltb a b;
  equal = λ a b. a == b;
}

whole_irreflexive : (a : ℕ) → ltb a a ≡ false
whole_irreflexive a = ground arith

whole_transitive : (a b c : ℕ) → ltb a b ≡ true → ltb b c ≡ true → ltb a c ≡ true
whole_transitive a b c h k = ground arith

abbrev cfg : Config ℕ
cfg = record { enabled = true; similarity_min = 3; max_entries = pos 2; ttl = pos 100 }

abbrev entry : String → Entry ℕ
entry model = record {
  body = [];
  provider = "openai";
  provider_model = model;
  prompt_tokens = pos 1;
  completion_tokens = pos 1;
  cost_usd = 0;
  stored_at = 0;
}

abbrev call : ℕ → String → String → List ℕ → Call ℕ
call now bucket model vec = record {
  stored_at = now;
  now = now;
  bucket = bucket;
  text = "hello";
  answer = some vec;
  entry = some (entry model);
}

abbrev calls : List (Call ℕ)
calls =
    call 1 "7:gpt" "a" (9 ∷ [])
    ∷ call 2 "7:gpt" "b" (2 ∷ [])
    ∷ call 3 "8:gpt" "c" (5 ∷ [])
    ∷ call 4 "7:gpt" "d" (4 ∷ [])
    ∷ []

abbrev filled : Cache ℕ
filled = store_all calls (new whole cfg true)

store_all-latest_example :
    view (ring_of (lookup "7:gpt" filled.buckets))
    ≡ drop (length (made_by (pos 100) "7:gpt" calls) - 2) (made_by (pos 100) "7:gpt" calls)
unfolding new
store_all-latest_example = store_all-latest whole cfg calls "7:gpt" refl

-- The bucket has forgotten "a", and "d" is the nearer one.
finds_nearest :
    (find whole 50 "7:gpt" "hi" (some (2 ∷ [])) filled).0
    ≡ record { entry = some (record (entry "d") { stored_at = 4 }); similarity = 8; hit = true }
unfolding store_all remember find new scan conclude put lookup
finds_nearest = refl

find-Judged_example :
    Judged whole 50
      (2 ∷ [])
      (ring_of (lookup "7:gpt" filled.buckets)).items
      filled
      (find whole 50 "7:gpt" "hi" (some (2 ∷ [])) filled)
find-Judged_example =
    find-Judged whole 50 "7:gpt" "hi" (2 ∷ []) filled
      (record { irreflexive = whole_irreflexive; transitive = whole_transitive })
      (unfold store_all remember new enabled in refl) refl refl
