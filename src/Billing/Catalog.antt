-- ===== src/Billing/Catalog.antt =====
-- The operator's signed catalog and the discounts of backend/internal/cost/catalog.go. Signing,
-- encoding and the database's answers are parameters; locks and loggers are left out.
pub mod Loading
pub mod Signing
mod Tests
pub mod Discounts
use gateway_llm.Prelude.{
  ℕ, suc, ◌*◌, ◌/◌, String, Bool, true, false, Option, none, some, List, [], ◌∷◌, length, ◌==◌,
  str_eq, if◌then◌else◌,
}
use gateway_llm.Prelude.Int.{ℤ, pos, nonpos}
use gateway_llm.Prelude.Floats.{Floats, zero_float}
use gateway_llm.Router.State.{lookup, store}
use gateway_llm.Billing.Receipt.{Bytes, Time, utc, Library}
use gateway_llm.Billing.Prices.{
  ModelPricing, UsageInfo, Prices, Engine, price_key, get_pricing, or_zero,
}

-- models.OperatorPriceCatalog, without the columns that are neither priced nor signed.
pub record Row (F : Type 0) : Type 0 where
  pub provider : String
  pub model : String
  pub mode : String
  pub input_cost_per_token : F
  pub output_cost_per_token : F
  pub cache_read_cost_per_token : Option F
  pub input_cost_per_image : Option F
  pub input_cost_per_character : Option F
  pub input_cost_per_second : Option F
  pub max_input_tokens : Option ℤ
  pub max_output_tokens : Option ℤ
  pub size_pricing : List (String × F)
  pub effective_from : Time
  pub signed_at : Option Time
  pub signature : String
  pub signed_by_key_id : String

-- CatalogCanonical
pub record CatalogCanonical (F : Type 0) : Type 0 where
  pub provider : String
  pub model : String
  pub mode : String
  pub input_cost_per_token : F
  pub output_cost_per_token : F
  pub cache_read_cost_per_token : Option F
  pub input_cost_per_image : Option F
  pub input_cost_per_character : Option F
  pub input_cost_per_second : Option F
  pub max_input_tokens : Option ℤ
  pub max_output_tokens : Option ℤ
  pub size_pricing : List (String × F)
  pub effective_from : String

-- models.OrgProviderDiscount, the fields that are read
pub record Discount (F : Type 0) : Type 0 where
  pub org_id : Option String
  pub provider : String
  pub discount_pct : F
  pub attested_at : Option Time

-- t.UTC().Truncate(time.Microsecond)
abbrev pub truncate : Time → Time
truncate t = record { instant = t.instant / 1000 * 1000; location = "UTC" }

-- json.Marshal and Format(time.RFC3339Nano), over the library of the receipts.
pub record Codec (F : Type 0) : Type 0 where
  pub lib : Library
  pub marshal_row : CatalogCanonical F → Option Bytes
  pub format : Time → String

module _ {F : Type 0} (codec : Codec F) where
  open codec use {lib, marshal_row, format}

  -- CanonicalCatalogBytes, for a row that is there
  unfoldable pub canonical_row : Row F → Option Bytes
  canonical_row c = marshal_row (record {
    provider = c.provider;
    model = c.model;
    mode = c.mode;
    input_cost_per_token = c.input_cost_per_token;
    output_cost_per_token = c.output_cost_per_token;
    cache_read_cost_per_token = c.cache_read_cost_per_token;
    input_cost_per_image = c.input_cost_per_image;
    input_cost_per_character = c.input_cost_per_character;
    input_cost_per_second = c.input_cost_per_second;
    max_input_tokens = c.max_input_tokens;
    max_output_tokens = c.max_output_tokens;
    size_pricing = c.size_pricing;
    effective_from = format (truncate c.effective_from);
  })

  sign_canonical : Bytes → Time → Row F → Option Bytes → Bool × Row F
  sign_canonical priv now row none = (false, row)
  sign_canonical priv now row (some body) = (
    true,
    record row {
      signature = lib.base64_encode (lib.sign_bytes priv body);
      signed_by_key_id = lib.hex_prefix (lib.append_hash (lib.public_key priv));
      signed_at = some (utc now);
    },
  )

  -- The start of validity, now where there is none, in whole microseconds.
  abbrev pub normalize : Time → Row F → Row F
  normalize now row = record row {
    effective_from = truncate (if row.effective_from.instant == 0 then now else row.effective_from);
  }

  -- SignCatalogRow with the two readings of the clock: whether there is no error, and the row.
  unfoldable pub sign_row : Option Bytes → Time → Time → Row F → Bool × Row F
  unfolding sign_canonical canonical_row
  sign_row none start now row = (false, row)
  sign_row (some priv) start now row =
      let row' = normalize start row in sign_canonical priv now row' (canonical_row row')

  check_row : Bytes → Bytes → Option Bytes → Option String
  check_row pub_key sig none = some "marshal"
  check_row pub_key sig (some body) =
      if lib.verify_bytes pub_key body sig then none else some "ed25519: signature mismatch"

  check_signature : Bytes → Row F → Option Bytes → Option String
  unfolding check_row canonical_row
  check_signature pub_key row none = some "decode sig"
  check_signature pub_key row (some sig) = check_row pub_key sig (canonical_row row)

  -- VerifyCatalogRow: no error, or the error's text.
  unfoldable pub verify_row : Bytes → Row F → Option String
  unfolding check_signature
  verify_row pub_key row =
      if str_eq row.signature ""
      then some "row is unsigned"
      else check_signature pub_key row (lib.base64_decode row.signature)

  -- Without a key no row is verified.
  unfoldable pub accepts : Option Bytes → Row F → Bool
  unfolding verify_row
  accepts none row = true
  accepts (some pub_key) row = elim (verify_row pub_key row) [ none ↦ true | some err ↦ false ]

module _ {F : Type 0} (fl : Floats F) (codec : Codec F) where
  abbrev or_zero_int : Option ℤ → ℤ
  or_zero_int none = pos 0
  or_zero_int (some n) = n

  -- The price of a row.
  unfoldable pub price_of : Row F → ModelPricing F
  price_of row = record {
    provider = row.provider;
    model = row.model;
    mode = row.mode;
    input_cost_per_token = row.input_cost_per_token;
    output_cost_per_token = row.output_cost_per_token;
    input_cost_per_image = or_zero fl row.input_cost_per_image;
    input_cost_per_character = or_zero fl row.input_cost_per_character;
    input_cost_per_second = or_zero fl row.input_cost_per_second;
    cache_read_cost_per_token = or_zero fl row.cache_read_cost_per_token;
    max_input_tokens = or_zero_int row.max_input_tokens;
    max_output_tokens = or_zero_int row.max_output_tokens;
    size_pricing = row.size_pricing;
  }

  -- The loop of LoadOperatorCatalog: the next map, and how many rows failed.
  unfoldable pub load_rows : Option Bytes → List (Row F) → Prices F → ℕ → Prices F × ℕ
  unfolding accepts price_of store
  load_rows key [] next failed = (next, failed)
  load_rows key (row ∷ rows) next failed =
      load_rows key rows
        (if accepts codec key row
          then store (price_key row.provider row.model) (price_of row) next
          else next)
        (if accepts codec key row then failed else suc failed)

  operator_answer : ℕ → Option (List (Row F)) → Engine F → Bool × Engine F
  unfolding load_rows
  operator_answer now none e = (false, e)
  operator_answer now (some rows) e =
      let (next, failed) = load_rows e.pub_key rows [] 0 in
      (true, record e { operator = next; failed_verify = failed; loaded = true; loaded_at = now })

  -- LoadOperatorCatalog, with the store's answer: no store, an error, or its rows. True is that
  -- there is no error.
  unfoldable pub load_operator_catalog :
      ℕ → Option (Option (List (Row F))) → Engine F → Bool × Engine F
  unfolding operator_answer
  load_operator_catalog now none e = (true, e)
  load_operator_catalog now (some answer) e = operator_answer now answer e

abbrev pub or_empty : {V : Type 0} → Option (List V) → List V
or_empty none = []
or_empty (some m) = m

abbrev pub org_key : Option String → String
org_key none = ""
org_key (some id) = id

module _ {F : Type 0} where
  -- SetOperatorPubKey
  unfoldable pub set_operator_pub_key : Option Bytes → Engine F → Engine F
  set_operator_pub_key key e = record e { pub_key = key }

  -- next[k][provider] = pct, the inner map made where there is none
  unfoldable pub store_discount :
      String → String → F → List (String × List (String × F)) → List (String × List (String × F))
  unfolding lookup store
  store_discount org provider pct m = store org (store provider pct (or_empty (lookup org m))) m

  -- A row that is not attested is passed over.
  next_discounts :
      Discount F
      → Option Time
      → List (String × List (String × F))
      → List (String × List (String × F))
  unfolding store_discount
  next_discounts row none next = next
  next_discounts row (some t) next =
      store_discount (org_key row.org_id) row.provider row.discount_pct next

  -- The loop of LoadEffectiveDiscounts.
  unfoldable pub load_discounts :
      List (Discount F) → List (String × List (String × F)) → List (String × List (String × F))
  unfolding next_discounts
  load_discounts [] next = next
  load_discounts (row ∷ rows) next = load_discounts rows (next_discounts row row.attested_at next)

  discount_answer : Option (List (Discount F)) → Engine F → Bool × Engine F
  unfolding load_discounts
  discount_answer none e = (false, e)
  discount_answer (some rows) e = (true, record e { org_discounts = load_discounts rows [] })

  -- LoadEffectiveDiscounts
  unfoldable pub load_effective_discounts :
      Option (Option (List (Discount F))) → Engine F → Bool × Engine F
  unfolding discount_answer
  load_effective_discounts none e = (true, e)
  load_effective_discounts (some answer) e = discount_answer answer e

  find_inner : String → Option (List (String × F)) → Option F
  unfolding lookup
  find_inner provider none = none
  find_inner provider (some inner) = lookup provider inner

  -- m[org][provider], where both are there
  unfoldable pub find_discount : String → String → List (String × List (String × F)) → Option F
  unfolding find_inner lookup
  find_discount org provider m = find_inner provider (lookup org m)

  -- CatalogStats
  unfoldable pub catalog_stats : Engine F → ℕ × ℕ × ℕ × Bool
  catalog_stats e = (
    length e.operator,
    e.failed_verify,
    e.loaded_at,
    elim e.pub_key [ none ↦ false | some key ↦ true ],
  )

module _ {F : Type 0} (fl : Floats F) where
  or_global : Option F → Option F → F
  or_global (some d) other = d
  or_global none other = or_zero fl other

  -- discountFor
  unfoldable pub discount_for : String → String → Engine F → F
  unfolding or_global find_discount
  discount_for org provider e =
      or_global (find_discount org provider e.org_discounts)
        (find_discount "" provider e.org_discounts)

  rate_of : F → Option (ModelPricing F) → Option (F × F × F)
  rate_of d none = none
  rate_of d (some p) =
      let mul = fl.minus (fl.ratio 1 1) d in
      some (fl.times p.input_cost_per_token mul, fl.times p.output_cost_per_token mul, d)

  -- EffectiveRate
  unfoldable pub effective_rate : String → String → String → Engine F → Option (F × F × F)
  unfolding rate_of discount_for get_pricing
  effective_rate org provider model e =
      rate_of (discount_for org provider e) (get_pricing provider model e)

  -- The cost less what cached tokens would save on the baseline.
  less_cached : Option (ModelPricing F) → UsageInfo F → F → F → F
  less_cached none usage d c = c
  less_cached (some p) usage d c =
      if fl.less (zero_float fl) p.cache_read_cost_per_token
      then fl.minus c (
          fl.times
            (fl.times (fl.of_int usage.cached_tokens)
              (fl.minus p.input_cost_per_token p.cache_read_cost_per_token))
            (fl.minus (fl.ratio 1 1) d))
      else c

  not_below_zero : F → F
  not_below_zero c = if fl.less c (zero_float fl) then zero_float fl else c

  baseline_at : Option (F × F × F) → Option (ModelPricing F) → UsageInfo F → Option (F × F)
  unfolding less_cached not_below_zero
  baseline_at none p usage = none
  baseline_at (some (input, output, d)) p usage =
      let c =
        fl.plus (fl.times (fl.of_int usage.prompt_tokens) input)
          (fl.times (fl.of_int usage.completion_tokens) output) in
      some (not_below_zero (if nonpos usage.cached_tokens then c else less_cached p usage d c), d)

  -- BaselineCost
  unfoldable pub baseline_cost : String → String → String → UsageInfo F → Engine F → Option (F × F)
  unfolding baseline_at effective_rate
  baseline_cost org provider model usage e =
      baseline_at (effective_rate org provider model e) (get_pricing provider model e) usage
