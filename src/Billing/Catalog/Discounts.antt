-- ===== src/Billing/Catalog/Discounts.antt =====
-- The discount of an organization (backend/internal/cost/catalog.go).
use gateway_llm.Prelude.{
  ◌≡◌, refl, sym, ap, ◌∙◌, String, ◌&&◌, Option, none, some, List, [], ◌∷◌, str_eq, eq_iff,
  if◌then◌else◌, Bool-cases, inl, inr,
}
use gateway_llm.Prelude.Floats.{Floats}
use gateway_llm.Router.State.{lookup, store, lookup-store}
use gateway_llm.Billing.Prices.{Engine, or_zero}
use gateway_llm.Billing.Prices.Merged.{or_else}
use gateway_llm.Billing.Receipt.{Time}
use gateway_llm.Billing.Catalog.{
  Discount, or_empty, org_key, store_discount, load_discounts, load_effective_discounts,
  discount_answer, find_discount, find_inner, next_discounts, or_global, discount_for,
}

module _ {F : Type 0} where
  -- What a row says for the organization and the provider: nothing unless it is attested.
  abbrev pub attested_pct : String → String → Discount F → Option Time → Option F
  attested_pct org provider row none = none
  attested_pct org provider row (some t) =
      if str_eq (org_key row.org_id) org && str_eq row.provider provider
      then some row.discount_pct
      else none

  -- The last attested row for the organization and the provider.
  abbrev pub newest_pct : String → String → List (Discount F) → Option F
  newest_pct org provider [] = none
  newest_pct org provider (row ∷ rows) =
      or_else (newest_pct org provider rows) (attested_pct org provider row row.attested_at)

  find_inner_lem :
      (provider : String) (o : Option (List (String × F)))
      → find_inner provider o ≡ lookup provider (or_empty o)
  unfolding find_inner lookup
  find_inner_lem provider none = refl
  find_inner_lem provider (some inner) = refl

  find_discount_lem :
      (org provider : String) (m : List (String × List (String × F)))
      → find_discount org provider m ≡ lookup provider (or_empty (lookup org m))
  unfolding find_discount
  find_discount_lem org provider m = find_inner_lem provider (lookup org m)

  find-store_discount :
      (org provider o p : String) (pct : F) (m : List (String × List (String × F)))
      → find_discount org provider (store_discount o p pct m)
        ≡ or_else
            (if str_eq o org && str_eq p provider then some pct else none)
            (find_discount org provider m)
  unfolding store_discount
  find-store_discount org provider o p pct m =
      find_discount_lem org provider _
      ∙ rw
          (
            find_discount_lem org provider m,
            lookup-store org o (store p pct (or_empty (lookup o m))) m,
          )
          (elim (Bool-cases (str_eq o org)) [
            | inr other ↦ rw other refl
            | inl same ↦
                let e : o ≡ org = (eq_iff o org).0 same in
                rw (same, lookup-store provider p pct (or_empty (lookup o m)))
                  (elim (Bool-cases (str_eq p provider)) [
                    | inl here ↦ rw here refl
                    | inr there ↦ rw there (rw e refl)
                  ])
          ])

  or_else_assoc : (a b c : Option F) → or_else (or_else a b) c ≡ or_else a (or_else b c)
  or_else_assoc none b c = refl
  or_else_assoc (some a) b c = refl

  find-next_discounts :
      (org provider : String) (row : Discount F) (t : Option Time)
      → (m : List (String × List (String × F)))
      → find_discount org provider (next_discounts row t m)
        ≡ or_else (attested_pct org provider row t) (find_discount org provider m)
  unfolding next_discounts
  find-next_discounts org provider row none m = refl
  find-next_discounts org provider row (some t) m =
      find-store_discount org provider (org_key row.org_id) row.provider row.discount_pct m

  find-load_discounts :
      (org provider : String) (rows : List (Discount F)) (m : List (String × List (String × F)))
      → find_discount org provider (load_discounts rows m)
        ≡ or_else (newest_pct org provider rows) (find_discount org provider m)
  unfolding load_discounts
  find-load_discounts org provider [] m = refl
  find-load_discounts org provider (row ∷ rows) m =
      find-load_discounts org provider rows (next_discounts row row.attested_at m)
      ∙ ap (or_else (newest_pct org provider rows))
          (find-next_discounts org provider row row.attested_at m)
      ∙ sym (
          or_else_assoc (newest_pct org provider rows)
            (attested_pct org provider row row.attested_at) (find_discount org provider m))

  no_discount : (org provider : String) → find_discount {F = F} org provider [] ≡ none
  unfolding find_discount
  no_discount org provider = refl

  or_else-none : (o : Option F) → or_else o none ≡ o
  or_else-none none = refl
  or_else-none (some a) = refl

module _ {F : Type 0} (fl : Floats F) where
  or_global_lem : (a b : Option F) → or_global fl a b ≡ or_zero fl (or_else a b)
  unfolding or_global
  or_global_lem none b = refl
  or_global_lem (some a) b = refl

  -- After LoadEffectiveDiscounts got its rows, the discount of an organization at a provider is that
  -- of the last attested row for both, else that of the last attested row for the provider without
  -- an organization, else zero. A row that is not attested counts nowhere.
  pub load_effective_discounts-newest :
      (rows : List (Discount F)) (e : Engine F) (org provider : String)
      → discount_for fl org provider (load_effective_discounts (some (some rows)) e).1
        ≡ or_zero fl (or_else (newest_pct org provider rows) (newest_pct "" provider rows))
  unfolding discount_for load_effective_discounts discount_answer
  load_effective_discounts-newest rows e org provider =
      let loaded = λ (o : String).
        find-load_discounts o provider rows []
        ∙ ap (or_else (newest_pct o provider rows)) (no_discount o provider)
        ∙ or_else-none (newest_pct o provider rows) in
      or_global_lem (find_discount org provider (load_discounts rows []))
        (find_discount "" provider (load_discounts rows []))
      ∙ rw (loaded org, loaded "") refl
