-- ===== src/Billing/Catalog/Tests.antt =====
-- The theorems on prices at concrete inputs.
use text.Mathlib.TextLemmas.{cons≢nil}
use gateway_llm.Prelude.{
  Bool-cases, inl, inr, eq_iff, ℕ, ◌+◌, ◌-◌, ◌*◌, ◌/◌, ◌%◌, ◌≡◌, refl, true, none, some, List, [],
  ◌∷◌, ltb, ◌==◌, str_eq,
}
use gateway_llm.Prelude.Int.{pos, pos_part}
use gateway_llm.Prelude.Floats.{Floats}
use gateway_llm.Router.State.{lookup}
use gateway_llm.Billing.Receipt.{Time}
use gateway_llm.Billing.Receipt.Toy.{toy, toy-IsSound}
use gateway_llm.Billing.Prices.{
  UsageInfo, Prices, Engine, price_key, new_engine, get_pricing, get_all_pricing, calculate,
  split_slash,
}
use gateway_llm.Billing.Prices.Merged.{or_else}
use gateway_llm.Billing.Catalog.{
  Row, Discount, Codec, sign_row, verify_row, price_of, load_operator_catalog, set_operator_pub_key,
}
use gateway_llm.Billing.Catalog.Loading.{
  Load, custom, operator, verifier, load_all, newest, count_rejected, get_all_pricing-get_pricing,
  load_operator_catalog-newest,
}
use gateway_llm.Billing.Catalog.Signing.{SignsText, Columns, read_back, sign_row-verify_row}

-- Whole numbers in the place of floats.
abbrev whole : Floats ℕ
whole = record {
  ratio = λ n d. n / d;
  of_int = λ n. pos_part n;
  plus = λ a b. a + b;
  minus = λ a b. a - b;
  times = λ a b. a * b;
  quotient = λ a b. a / b;
  sqrt = λ a. a;
  less = λ a b. ltb a b;
  equal = λ a b. a == b;
}

abbrev codec : Codec ℕ
codec = record {
  lib = toy;
  marshal_row = λ c. some (c.input_cost_per_token ∷ c.output_cost_per_token ∷ []);
  format = λ t. t.location;
}

toy-SignsText : SignsText toy
toy-SignsText priv body =
    let text = toy.base64_encode (toy.sign_bytes priv body) in
    elim (Bool-cases (str_eq text "")) [
      | inl e ↦ absurd (cons≢nil ((eq_iff text "").0 e))
      | inr e ↦ e
    ]

abbrev row : ℕ → Row ℕ
row price = record {
  provider = "openai";
  model = "gpt-4o";
  mode = "chat";
  input_cost_per_token = price;
  output_cost_per_token = 4;
  cache_read_cost_per_token = some 1;
  input_cost_per_image = none;
  input_cost_per_character = none;
  input_cost_per_second = none;
  max_input_tokens = none;
  max_output_tokens = none;
  size_pricing = [];
  effective_from = record { instant = 1234567; location = "CET" };
  signed_at = none;
  signature = "";
  signed_by_key_id = "";
}

abbrev now : Time
now = record { instant = 5000000; location = "CET" }

-- The row of price 2, signed.
abbrev signed_row : Row ℕ
signed_row = record (row 2) {
  effective_from = record { instant = 1234000; location = "UTC" };
  signed_at = some (record { instant = 5000000; location = "UTC" });
  signature = "1111111.111.11.1111.";
  signed_by_key_id = "111.";
}

signs : sign_row codec (some (3 ∷ 3 ∷ [])) now now (row 2) ≡ (true, signed_row)
unfolding sign_row
signs = refl

-- Columns for prices below ten.
abbrev columns : Columns ℕ
columns = record { per_token = λ p. p % 10; per_unit = λ p. p % 10; sizes = λ m. m }

sign_row-verify_row_example :
    verify_row codec (3 ∷ []) (read_back columns "EST" none signed_row) ≡ none
sign_row-verify_row_example =
    sign_row-verify_row codec columns toy-IsSound toy-SignsText (3 ∷ 3 ∷ []) now now (row 2)
      signed_row "EST" none (3 ∷ [], refl) (refl, refl, refl, refl, refl, refl, refl) signs

-- A row of price 12 is signed, and no longer verifies when its column has cut it.
rounds :
    (let (done, row') = sign_row codec (some (3 ∷ 3 ∷ [])) now now (row 12) in
      verify_row codec (3 ∷ []) (read_back columns "EST" none row'))
    ≡ some "ed25519: signature mismatch"
unfolding sign_row verify_row
rounds = refl

abbrev decoded : Prices ℕ
decoded = ("openai/gpt-4o", price_of whole codec (row 9)) ∷ []

abbrev engine : Engine ℕ
engine = set_operator_pub_key (some (3 ∷ [])) (new_engine (some decoded))

-- The signed row sets the price, and the unsigned one counts as failed.
loads_signed :
    get_pricing "openai" "gpt-4o"
      (load_operator_catalog whole codec 7 (some (some (signed_row ∷ row 1 ∷ []))) engine).1
    ≡ some (price_of whole codec signed_row)
unfolding get_pricing load_operator_catalog set_operator_pub_key new_engine
loads_signed = refl

load_operator_catalog-newest_example :
    (let e' =
        (load_operator_catalog whole codec 7 (some (some (signed_row ∷ row 1 ∷ []))) engine).1 in
      let name = price_key "openai" "gpt-4o" in
      (get_pricing "openai" "gpt-4o" e'
        ≡ or_else
            (newest whole codec engine.pub_key name (signed_row ∷ row 1 ∷ []))
            (or_else (lookup name engine.custom) (lookup name engine.built_in)))
      × (e'.failed_verify ≡ count_rejected whole codec engine.pub_key (signed_row ∷ row 1 ∷ [])))
load_operator_catalog-newest_example =
    load_operator_catalog-newest whole codec 7 (signed_row ∷ row 1 ∷ []) engine "openai" "gpt-4o"

abbrev loads : List (Load ℕ)
loads =
    custom (some (some []))
    ∷ verifier (some (3 ∷ []))
    ∷ operator 7 (some (some (signed_row ∷ row 1 ∷ [])))
    ∷ operator 8 (some none)
    ∷ []

get_all_pricing-get_pricing_example :
    lookup
      (price_key "openai" "gpt-4o")
      (get_all_pricing (load_all whole codec loads (new_engine (some decoded))))
    ≡ get_pricing "openai" "gpt-4o" (load_all whole codec loads (new_engine (some decoded)))
get_all_pricing-get_pricing_example =
    get_all_pricing-get_pricing whole codec (some decoded) loads "openai" "gpt-4o"

abbrev rows : List (Discount ℕ)
rows =
    record { org_id = none; provider = "openai"; discount_pct = 3; attested_at = some now }
    ∷ record { org_id = some "7"; provider = "openai"; discount_pct = 5; attested_at = none }
    ∷ []

abbrev usage : UsageInfo ℕ
usage = record {
  prompt_tokens = pos 10;
  completion_tokens = pos 2;
  cached_tokens = pos 4;
  image_count = pos 0;
  image_size = "";
  character_count = pos 0;
  duration_seconds = 0;
}

-- Ten tokens at 9 and two at 4, less four cached ones at 8.
calculates :
    (calculate whole "chat" "openai" "gpt-4o" usage (new_engine (some decoded))).0.total_cost ≡ 66
unfolding calculate new_engine price_of split_slash
calculates = refl
