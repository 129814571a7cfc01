-- ===== src/Billing/Prices/Merged.antt =====
-- The merged prices against the price of a model (backend/internal/cost/engine.go).
use gateway_llm.Prelude.{
  ◌≡◌, refl, sym, ap, subst, ◌∙◌, String, false, Option, none, some, List, [], ◌∷◌, str_eq, eq_iff,
  Bool-cases, inl, inr, arith,
}
use gateway_llm.Prelude.Floats.{Floats}
use gateway_llm.Router.State.{lookup, store, lookup-store}
use gateway_llm.Billing.Prices.{
  ModelPricing, CustomPricing, Prices, Engine, price_key, load_built_in, new_engine, first_price,
  get_pricing, copy_all, get_all_pricing, store_custom, load_custom_pricing, custom_answer,
  custom_price, name_parts, split_slash,
}

-- The first of two answers that is there.
abbrev pub or_else {ℓ} : {A : Type ℓ} → Option A → Option A → Option A
or_else none b = b
or_else (some a) b = some a

pub or_else-none {ℓ} : {A : Type ℓ} (o : Option A) → or_else o none ≡ o
or_else-none none = refl
or_else-none (some a) = refl

module _ {F : Type 0} where
  -- The keys of the list are those of a map: each is there once.
  abbrev pub IsMap : Prices F → Type 0
  IsMap [] = Unit
  IsMap ((k, v) ∷ m) = (lookup k m ≡ none) × IsMap m

  lookup_self : (k : String) (v : ModelPricing F) (m : Prices F) → lookup k ((k, v) ∷ m) ≡ some v
  unfolding lookup
  lookup_self k v m = rw ((eq_iff k k).1 refl) refl

  pub IsMap-store : (k : String) (v : ModelPricing F) (m : Prices F) → IsMap m → IsMap (store k v m)
  unfolding store lookup
  IsMap-store k v [] h = (refl, tt)
  IsMap-store k v ((j, w) ∷ m) (fresh, h) = elim (Bool-cases (str_eq j k)) [
    | inl same ↦
        let e : j ≡ k = (eq_iff j k).0 same in rw same ((subst (λ i. lookup i m ≡ none) e fresh), h)
    | inr other ↦
        let back : str_eq k j ≡ false = ground (arith, eq_iff j k, eq_iff k j) in
        rw other ((lookup-store j k v m ∙ rw back fresh), IsMap-store k v m h)
  ]

  lookup-copy_all :
      (key : String) (m result : Prices F)
      → IsMap m
      → lookup key (copy_all m result) ≡ or_else (lookup key m) (lookup key result)
  unfolding copy_all
  lookup-copy_all key [] result h = unfold lookup in refl
  lookup-copy_all key ((k, v) ∷ m) result (fresh, h) =
      lookup-copy_all key m (store k v result) h
      ∙ ap (or_else (lookup key m)) (lookup-store key k v result)
      ∙ (elim (Bool-cases (str_eq k key)) [
        | inl same ↦
            let e : k ≡ key = (eq_iff k key).0 same in
            let none_there : lookup key m ≡ none = subst (λ i. lookup i m ≡ none) e fresh in
            unfold lookup in rw (same, none_there) refl
        | inr other ↦ unfold lookup in rw other refl
      ])

  first_price_lem : (a b c : Option (ModelPricing F)) → first_price a b c ≡ or_else a (or_else b c)
  unfolding first_price
  first_price_lem (some p) b c = refl
  first_price_lem none (some p) c = refl
  first_price_lem none none c = refl

  -- The price of a model is the first of the three maps that has one.
  pub get_pricing_lem :
      (provider model : String) (e : Engine F)
      → (let key = price_key provider model in
          get_pricing provider model e
          ≡ or_else (lookup key e.operator) (or_else (lookup key e.custom) (lookup key e.built_in)))
  unfolding get_pricing
  get_pricing_lem provider model e =
      let key = price_key provider model in
      first_price_lem (lookup key e.operator) (lookup key e.custom) (lookup key e.built_in)

  pub nothing_there : (key : String) → lookup {V = ModelPricing F} key [] ≡ none
  unfolding lookup
  nothing_there key = refl

  pub record IsConsistent (e : Engine F) : Type 0 where
    pub built_in : IsMap e.built_in
    pub custom : IsMap e.custom
    pub operator : IsMap e.operator

  pub get_all_pricing_lem :
      (provider model : String) (e : Engine F)
      → IsConsistent e
      → lookup (price_key provider model) (get_all_pricing e) ≡ get_pricing provider model e
  unfolding get_all_pricing
  get_all_pricing_lem provider model e c =
      let key = price_key provider model in
      lookup-copy_all key e.operator _ c.operator
      ∙ ap (or_else (lookup key e.operator)) (
          lookup-copy_all key e.custom _ c.custom
          ∙ ap (or_else (lookup key e.custom)) (
              lookup-copy_all key e.built_in [] c.built_in
              ∙ ap (or_else (lookup key e.built_in)) (nothing_there key)
              ∙ or_else-none (lookup key e.built_in)))
      ∙ sym (get_pricing_lem provider model e)

  IsMap-load_built_in :
      (decoded prices : Prices F) → IsMap prices → IsMap (load_built_in decoded prices)
  unfolding load_built_in
  IsMap-load_built_in [] prices h = h
  IsMap-load_built_in ((k, p) ∷ decoded) prices h =
      IsMap-load_built_in decoded _ (IsMap-store k (name_parts (split_slash k) p) prices h)

  pub IsConsistent-new_engine : (decoded : Option (Prices F)) → IsConsistent (new_engine decoded)
  unfolding new_engine
  IsConsistent-new_engine none = record { built_in = tt; custom = tt; operator = tt }
  IsConsistent-new_engine (some prices) = record {
    built_in = IsMap-load_built_in prices [] tt;
    custom = tt;
    operator = tt;
  }

module _ {F : Type 0} (fl : Floats F) where
  IsMap-store_custom :
      (rows : List (CustomPricing F)) (prices : Prices F)
      → IsMap prices
      → IsMap (store_custom fl rows prices)
  unfolding store_custom
  IsMap-store_custom [] prices h = h
  IsMap-store_custom (p ∷ rows) prices h =
      IsMap-store_custom rows _
        (IsMap-store (price_key p.provider p.model) (custom_price fl p) prices h)

  pub IsConsistent-load_custom_pricing :
      (answer : Option (Option (List (CustomPricing F)))) (e : Engine F)
      → IsConsistent e
      → IsConsistent (load_custom_pricing fl answer e).1
  unfolding load_custom_pricing custom_answer
  IsConsistent-load_custom_pricing none e c = c
  IsConsistent-load_custom_pricing (some none) e c = c
  IsConsistent-load_custom_pricing (some (some rows)) e c = record {
    built_in = c.built_in;
    custom = IsMap-store_custom rows [] tt;
    operator = c.operator;
  }
