-- ===== src/Billing/Catalog/Loading.antt =====
-- What a load of the operator's catalog leaves in the engine (backend/internal/cost/catalog.go).
use gateway_llm.Prelude.{
  ℕ, suc, ◌+◌, ◌≡◌, refl, sym, ap, ◌∙◌, String, Bool, true, false, ◌&&◌, Option, none, some, List,
  [], ◌∷◌, ◌++◌, str_eq, eq_iff, if◌then◌else◌, Bool-cases, inl, inr, arith,
}
use gateway_llm.Prelude.Floats.{Floats}
use gateway_llm.Router.State.{lookup, store, lookup-store}
use gateway_llm.Billing.Receipt.{Bytes}
use gateway_llm.Billing.Prices.{
  ModelPricing, CustomPricing, Prices, Engine, price_key, new_engine, get_pricing, get_all_pricing,
  load_custom_pricing,
}
use gateway_llm.Billing.Prices.Merged.{
  or_else, IsMap, IsMap-store, IsConsistent, IsConsistent-new_engine,
  IsConsistent-load_custom_pricing, get_all_pricing_lem, get_pricing_lem, or_else-none,
  nothing_there,
}
use gateway_llm.Billing.Catalog.{
  Row, Discount, Codec, accepts, price_of, load_rows, load_operator_catalog, operator_answer,
  load_effective_discounts, discount_answer, set_operator_pub_key,
}

-- One change of the engine.
pub data Load (F : Type 0) : Type 0 where
  custom : Option (Option (List (CustomPricing F))) → Load F
  operator : ℕ → Option (Option (List (Row F))) → Load F
  discounts : Option (Option (List (Discount F))) → Load F
  verifier : Option Bytes → Load F

module _ {F : Type 0} (fl : Floats F) (codec : Codec F) where
  abbrev pub load : Load F → Engine F → Engine F
  load (custom answer) e = (load_custom_pricing fl answer e).1
  load (operator now answer) e = (load_operator_catalog fl codec now answer e).1
  load (discounts answer) e = (load_effective_discounts answer e).1
  load (verifier k) e = set_operator_pub_key k e

  unfoldable pub load_all : List (Load F) → Engine F → Engine F
  load_all [] e = e
  load_all (l ∷ ls) e = load_all ls (load l e)

  IsMap-next :
      (b : Bool) (name : String) (p : ModelPricing F) (next : Prices F)
      → IsMap next
      → IsMap (if b then store name p next else next)
  IsMap-next true name p next h = IsMap-store name p next h
  IsMap-next false name p next h = h

  IsMap-load_rows :
      (k : Option Bytes) (rows : List (Row F)) (next : Prices F) (failed : ℕ)
      → IsMap next
      → IsMap (load_rows fl codec k rows next failed).0
  unfolding load_rows
  IsMap-load_rows k [] next failed h = h
  IsMap-load_rows k (row ∷ rows) next failed h = IsMap-load_rows k rows _ _ (
      IsMap-next (accepts codec k row) (price_key row.provider row.model) (price_of fl codec row)
        next h)

  IsConsistent-load : (l : Load F) (e : Engine F) → IsConsistent e → IsConsistent (load l e)
  unfolding load_operator_catalog operator_answer load_effective_discounts discount_answer
      set_operator_pub_key
  IsConsistent-load (custom answer) e c = IsConsistent-load_custom_pricing fl answer e c
  IsConsistent-load (operator now none) e c = c
  IsConsistent-load (operator now (some none)) e c = c
  IsConsistent-load (operator now (some (some rows))) e c = record {
    built_in = c.built_in;
    custom = c.custom;
    operator = IsMap-load_rows e.pub_key rows [] 0 tt;
  }
  IsConsistent-load (discounts none) e c = c
  IsConsistent-load (discounts (some none)) e c = c
  IsConsistent-load (discounts (some (some rows))) e c = record {
    built_in = c.built_in;
    custom = c.custom;
    operator = c.operator;
  }
  IsConsistent-load (verifier k) e c = record {
    built_in = c.built_in;
    custom = c.custom;
    operator = c.operator;
  }

  IsConsistent-load_all :
      (ls : List (Load F)) (e : Engine F) → IsConsistent e → IsConsistent (load_all ls e)
  unfolding load_all
  IsConsistent-load_all [] e c = c
  IsConsistent-load_all (l ∷ ls) e c = IsConsistent-load_all ls (load l e) (IsConsistent-load l e c)

  -- After any series of loads of custom prices, operator catalogs, discounts and keys on a new
  -- engine, failed loads included, the merged prices that GetAllPricing gives have for every
  -- provider and model the price that GetPricing gives, and none where it gives none.
  pub get_all_pricing-get_pricing :
      (decoded : Option (Prices F)) (loads : List (Load F)) (provider model : String)
      → (let e = load_all loads (new_engine decoded) in
          lookup (price_key provider model) (get_all_pricing e) ≡ get_pricing provider model e)
  get_all_pricing-get_pricing decoded loads provider model =
      get_all_pricing_lem provider model (load_all loads (new_engine decoded))
        (IsConsistent-load_all loads (new_engine decoded) (IsConsistent-new_engine decoded))

  -- The price of the last row for the key that is accepted, or else what there is.
  abbrev pub newest : Option Bytes → String → List (Row F) → Option (ModelPricing F)
  newest k name [] = none
  newest k name (row ∷ rows) = or_else (newest k name rows) (
      if accepts codec k row && str_eq (price_key row.provider row.model) name
      then some (price_of fl codec row)
      else none)

  abbrev pub count_rejected : Option Bytes → List (Row F) → ℕ
  count_rejected k [] = 0
  count_rejected k (row ∷ rows) = (if accepts codec k row then 0 else 1) + count_rejected k rows

  or_else_assoc :
      (a b c : Option (ModelPricing F)) → or_else (or_else a b) c ≡ or_else a (or_else b c)
  or_else_assoc none b c = refl
  or_else_assoc (some a) b c = refl

  lookup_next :
      (b : Bool) (name key : String) (p : ModelPricing F) (next : Prices F)
      → lookup key (if b then store name p next else next)
        ≡ or_else (if b && str_eq name key then some p else none) (lookup key next)
  lookup_next false name key p next = refl
  lookup_next true name key p next =
      lookup-store key name p next
      ∙ (elim (Bool-cases (str_eq name key)) [ inl e ↦ rw e refl | inr e ↦ rw e refl ])

  count_next :
      (b : Bool) (failed n : ℕ)
      → (if b then failed else suc failed) + n ≡ failed + ((if b then 0 else 1) + n)
  count_next true failed n = omega arith
  count_next false failed n = omega arith

  load_rows_lem :
      (k : Option Bytes) (name : String) (rows : List (Row F)) (next : Prices F) (failed : ℕ)
      → (lookup name (load_rows fl codec k rows next failed).0
          ≡ or_else (newest k name rows) (lookup name next))
        × ((load_rows fl codec k rows next failed).1 ≡ failed + count_rejected k rows)
  unfolding load_rows
  load_rows_lem k name [] next failed = (refl, omega arith)
  load_rows_lem k name (row ∷ rows) next failed =
      let b = accepts codec k row in
      let own = price_key row.provider row.model in
      let p = price_of fl codec row in
      let ih =
        load_rows_lem k name rows (if b then store own p next else next)
          (if b then failed else suc failed) in
      (
        ih.0
            ∙ ap (or_else (newest k name rows)) (lookup_next b own name p next)
            ∙ sym (
                or_else_assoc (newest k name rows) (if b && str_eq own name then some p else none)
                  (lookup name next)),
        ih.1 ∙ count_next b failed (count_rejected k rows),
      )

  -- After LoadOperatorCatalog got its rows, the price of a provider and a model is that of the last
  -- row for them that is accepted, and only where there is none the custom or else the built-in
  -- price; the number of failed rows is that of the rows that are not accepted. With a key a row is
  -- accepted exactly if VerifyCatalogRow has no error, without one every row is.
  pub load_operator_catalog-newest :
      (now : ℕ) (rows : List (Row F)) (e : Engine F) (provider model : String)
      → (let e' = (load_operator_catalog fl codec now (some (some rows)) e).1 in
          let name = price_key provider model in
          (get_pricing provider model e'
            ≡ or_else
                (newest e.pub_key name rows)
                (or_else (lookup name e.custom) (lookup name e.built_in)))
          × (e'.failed_verify ≡ count_rejected e.pub_key rows))
  unfolding load_operator_catalog operator_answer
  load_operator_catalog-newest now rows e provider model =
      let e' = (load_operator_catalog fl codec now (some (some rows)) e).1 in
      let name = price_key provider model in
      let all = load_rows_lem e.pub_key name rows [] 0 in
      (
        get_pricing_lem provider model e'
            ∙ ap (λ p. or_else p (or_else (lookup name e.custom) (lookup name e.built_in)))
                (all.0
                  ∙ ap (or_else (newest e.pub_key name rows)) (nothing_there name)
                  ∙ or_else-none (newest e.pub_key name rows)),
        all.1 ∙ omega arith,
      )

  newest_unverified :
      (name : String) (rows : List (Row F)) (row : Row F)
      → str_eq (price_key row.provider row.model) name ≡ true
      → newest none name (rows ++ row ∷ []) ≡ some (price_of fl codec row)
  unfolding accepts
  newest_unverified name [] row own = rw own refl
  newest_unverified name (r ∷ rows) row own = rw (newest_unverified name rows row own) refl

  count_rejected_unverified : (rows : List (Row F)) → count_rejected none rows ≡ 0
  unfolding accepts
  count_rejected_unverified [] = refl
  count_rejected_unverified (row ∷ rows) = omega (arith, count_rejected_unverified rows)

  -- Where no public key is set, the last row that the store gives sets the price of its provider and
  -- model whatever its signature is, an empty one included, and no row counts as failed.
  pub unverified_row_loads :
      (now : ℕ) (rows : List (Row F)) (row : Row F) (e : Engine F)
      → e.pub_key ≡ none
      → (let e' = (load_operator_catalog fl codec now (some (some (rows ++ row ∷ []))) e).1 in
          (get_pricing row.provider row.model e' ≡ some (price_of fl codec row))
          × (e'.failed_verify ≡ 0))
  unverified_row_loads now rows row e no_key =
      let name = price_key row.provider row.model in
      let (price, failed) =
        load_operator_catalog-newest now (rows ++ row ∷ []) e row.provider row.model in
      let others = or_else (lookup name e.custom) (lookup name e.built_in) in
      (
        price
            ∙ ap (λ k. or_else (newest k name (rows ++ row ∷ [])) others) (no_key)
            ∙ ap (λ p. or_else p others)
                (newest_unverified name rows row ((eq_iff name name).1 refl)),
        failed
            ∙ ap (λ k. count_rejected k (rows ++ row ∷ [])) (no_key)
            ∙ count_rejected_unverified (rows ++ row ∷ []),
      )
