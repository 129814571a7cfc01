-- ===== src/Billing/Prices.antt =====
-- The prices of backend/internal/cost/engine.go. Arithmetic on float64, the embedded JSON and the
-- database are parameters; locks and loggers are left out: each function is one step.
pub mod Merged
use Prim.Native.Char.{code}
use Prim.Native.String.{◌++◌}
use gateway_llm.Prelude.{
  ℕ, String, Bool, true, false, ◌||◌, Option, none, some, List, [], ◌∷◌, ◌==◌, str_eq,
  if◌then◌else◌,
}
use gateway_llm.Prelude.Int.{ℤ, pos, nonpos}
use gateway_llm.Prelude.Floats.{Floats, zero_float}
use gateway_llm.Router.State.{lookup, store}

-- A nil map of sizes is the empty one.
pub record ModelPricing (F : Type 0) : Type 0 where
  pub provider : String
  pub model : String
  pub mode : String
  pub input_cost_per_token : F
  pub output_cost_per_token : F
  pub input_cost_per_image : F
  pub input_cost_per_character : F
  pub input_cost_per_second : F
  pub cache_read_cost_per_token : F
  pub max_input_tokens : ℤ
  pub max_output_tokens : ℤ
  pub size_pricing : List (String × F)

pub record CostResult (F : Type 0) : Type 0 where
  pub input_cost : F
  pub output_cost : F
  pub total_cost : F
  pub prompt_tokens : ℤ
  pub completion_tokens : ℤ
  pub currency : String

pub record UsageInfo (F : Type 0) : Type 0 where
  pub prompt_tokens : ℤ
  pub completion_tokens : ℤ
  pub cached_tokens : ℤ
  pub image_count : ℤ
  pub image_size : String
  pub character_count : ℤ
  pub duration_seconds : F

-- models.CustomPricing, the fields that are read
pub record CustomPricing (F : Type 0) : Type 0 where
  pub provider : String
  pub model : String
  pub input_cost_per_token : Option F
  pub output_cost_per_token : Option F
  pub cache_read_cost_per_token : Option F
  pub input_cost_per_image : Option F
  pub input_cost_per_character : Option F
  pub input_cost_per_second : Option F
  pub size_pricing : List (String × F)

abbrev pub Prices : Type 0 → Type 0
Prices F = List (String × ModelPricing F)

-- Engine, with the catalog's state
pub record Engine (F : Type 0) : Type 0 where
  pub built_in : Prices F
  pub custom : Prices F
  pub operator : Prices F
  pub org_discounts : List (String × List (String × F))
  pub pub_key : Option (List ℕ)
  pub failed_verify : ℕ
  pub loaded : Bool
  pub loaded_at : ℕ

in_front : String → Option (String × String) → Option (String × String)
in_front c none = none
in_front c (some (a, b)) = some (c ++ a, b)

-- strings.SplitN(key, "/", 2), where it has two parts
unfoldable pub split_slash : String → Option (String × String)
unfolding in_front
split_slash String.[] = none
split_slash (String.◌∷◌ c s) =
    let rest = split_slash s in
    if code c == b'/' then some ("", s) else in_front (String.◌∷◌ c "") rest

-- provider + "/" + model
abbrev pub price_key : String → String → String
price_key provider model = provider ++ ("/" ++ model)

module _ {F : Type 0} where
  name_parts : Option (String × String) → ModelPricing F → ModelPricing F
  name_parts none p = p
  name_parts (some (provider, model)) p = record p { provider = provider; model = model }

  -- The map of the decoded JSON, its entries named by their keys.
  unfoldable pub load_built_in : Prices F → Prices F → Prices F
  unfolding name_parts store
  load_built_in [] prices = prices
  load_built_in ((key, p) ∷ decoded) prices =
      load_built_in decoded (store key (name_parts (split_slash key) p) prices)

  -- NewEngine: where the embedded JSON cannot be decoded, there is no built-in price.
  unfoldable pub new_engine : Option (Prices F) → Engine F
  unfolding load_built_in
  new_engine decoded = record {
    built_in = elim decoded [ none ↦ [] | some prices ↦ load_built_in prices [] ];
    custom = [];
    operator = [];
    org_discounts = [];
    pub_key = none;
    failed_verify = 0;
    loaded = false;
    loaded_at = 0;
  }

  -- The operator's price, else the custom one, else the built-in one.
  first_price :
      Option (ModelPricing F)
      → Option (ModelPricing F)
      → Option (ModelPricing F)
      → Option (ModelPricing F)
  first_price (some p) custom built_in = some p
  first_price none (some p) built_in = some p
  first_price none none built_in = built_in

  -- GetPricing
  unfoldable pub get_pricing : String → String → Engine F → Option (ModelPricing F)
  unfolding lookup first_price
  get_pricing provider model e =
      let key = price_key provider model in
      first_price (lookup key e.operator) (lookup key e.custom) (lookup key e.built_in)

  -- for k, v := range m { result[k] = v }
  unfoldable pub copy_all : Prices F → Prices F → Prices F
  unfolding store
  copy_all [] result = result
  copy_all ((k, v) ∷ m) result = copy_all m (store k v result)

  -- GetAllPricing
  unfoldable pub get_all_pricing : Engine F → Prices F
  unfolding copy_all
  get_all_pricing e = copy_all e.operator (copy_all e.custom (copy_all e.built_in []))

module _ {F : Type 0} (fl : Floats F) where
  abbrev pub or_zero : Option F → F
  or_zero none = zero_float fl
  or_zero (some x) = x

  abbrev pub custom_price : CustomPricing F → ModelPricing F
  custom_price p = record {
    provider = p.provider;
    model = p.model;
    mode = "";
    input_cost_per_token = or_zero p.input_cost_per_token;
    output_cost_per_token = or_zero p.output_cost_per_token;
    input_cost_per_image = or_zero p.input_cost_per_image;
    input_cost_per_character = or_zero p.input_cost_per_character;
    input_cost_per_second = or_zero p.input_cost_per_second;
    cache_read_cost_per_token = or_zero p.cache_read_cost_per_token;
    max_input_tokens = pos 0;
    max_output_tokens = pos 0;
    size_pricing = p.size_pricing;
  }

  unfoldable pub store_custom : List (CustomPricing F) → Prices F → Prices F
  unfolding store
  store_custom [] prices = prices
  store_custom (p ∷ rows) prices =
      store_custom rows (store (price_key p.provider p.model) (custom_price p) prices)

  custom_answer : Option (List (CustomPricing F)) → Engine F → Bool × Engine F
  unfolding store_custom
  custom_answer none e = (false, e)
  custom_answer (some rows) e = (true, record e { custom = store_custom rows [] })

  -- LoadCustomPricing, with the database's answer: no database, an error, or its rows. True is that
  -- there is no error.
  unfoldable pub load_custom_pricing :
      Option (Option (List (CustomPricing F))) → Engine F → Bool × Engine F
  unfolding custom_answer
  load_custom_pricing none e = (true, e)
  load_custom_pricing (some answer) e = custom_answer answer e

  abbrev at_least_one : ℤ → ℤ
  at_least_one n = if nonpos n then pos 1 else n

  abbrev or_image : F → Option F → F
  or_image price none = price
  or_image price (some x) = x

  -- The price of an image of this size.
  abbrev pub image_price : ModelPricing F → String → F
  image_price p size =
      if str_eq size ""
      then p.input_cost_per_image
      else or_image p.input_cost_per_image (lookup size p.size_pricing)

  -- The cost of the prompt of a chat, less what cached tokens save.
  unfoldable pub chat_input : ModelPricing F → UsageInfo F → F
  chat_input p usage =
      let full = fl.times (fl.of_int usage.prompt_tokens) p.input_cost_per_token in
      if nonpos usage.cached_tokens
        || (if fl.less (zero_float fl) p.cache_read_cost_per_token then false else true)
      then full
      else fl.minus full (
          fl.times (fl.of_int usage.cached_tokens)
            (fl.minus p.input_cost_per_token p.cache_read_cost_per_token))

  -- The two costs of a call of the endpoint; none is an endpoint that is not known.
  unfoldable pub endpoint_costs : String → ModelPricing F → UsageInfo F → Option (F × F)
  unfolding chat_input lookup
  endpoint_costs endpoint p usage =
      let nothing = zero_float fl in
      if str_eq endpoint "chat" || str_eq endpoint "responses" || str_eq endpoint "completions"
      then some
          (chat_input p usage, fl.times (fl.of_int usage.completion_tokens) p.output_cost_per_token)
      else (if str_eq endpoint "embeddings" || str_eq endpoint "moderations"
          then some (fl.times (fl.of_int usage.prompt_tokens) p.input_cost_per_token, nothing)
          else (if str_eq endpoint "images"
              then some (
                fl.times (fl.of_int (at_least_one usage.image_count))
                    (image_price p usage.image_size),
                nothing,
              )
              else (if str_eq endpoint "audio/speech"
                  then some (
                    fl.times (fl.of_int usage.character_count) p.input_cost_per_character,
                    nothing,
                  )
                  else (if str_eq endpoint "audio/transcriptions"
                      then some (fl.times usage.duration_seconds p.input_cost_per_second, nothing)
                      else none))))

  abbrev free : UsageInfo F → CostResult F
  free usage = record {
    input_cost = zero_float fl;
    output_cost = zero_float fl;
    total_cost = zero_float fl;
    prompt_tokens = usage.prompt_tokens;
    completion_tokens = usage.completion_tokens;
    currency = "USD";
  }

  total : Option (F × F) → UsageInfo F → CostResult F × Bool
  total none usage = (free usage, false)
  total (some (input, output)) usage = (
    record (free usage) {
      input_cost = input;
      output_cost = output;
      total_cost = fl.plus input output;
    },
    true,
  )

  priced : String → Option (ModelPricing F) → UsageInfo F → CostResult F × Bool
  unfolding total endpoint_costs
  priced endpoint none usage = (free usage, true)
  priced endpoint (some p) usage = total (endpoint_costs endpoint p usage) usage

  -- Calculate, and whether there is no error
  unfoldable pub calculate : String → String → String → UsageInfo F → Engine F → CostResult F × Bool
  unfolding priced get_pricing
  calculate endpoint provider model usage e = priced endpoint (get_pricing provider model e) usage
