-- ===== src/Billing/Catalog/Signing.antt =====
-- What VerifyCatalogRow says of a signed row (backend/internal/cost/catalog.go).
use gateway_llm.Prelude.{
  ◌*◌, ◌/◌, ◌≡◌, refl, ap, subst, ◌∙◌, String, Bool, true, false, Option, none, some, List, str_eq,
  arith,
}
use gateway_llm.Billing.Receipt.{Bytes, Time, utc, Library, IsGenerated, IsSound}
use gateway_llm.Billing.Catalog.{
  Row, Codec, canonical_row, sign_row, sign_canonical, normalize, verify_row, check_signature,
  check_row,
}

-- The text of a signature is not empty.
abbrev pub SignsText : Library → Type 0
SignsText lib =
    (priv body : Bytes) → str_eq (lib.base64_encode (lib.sign_bytes priv body)) "" ≡ false

-- What a float64 is that a column of operator_price_catalog took and gave back, where the database
-- rounds it: NUMERIC(20,12) for a price per token or character, NUMERIC(12,6) for one per image or
-- second, and JSONB for the prices of sizes (db/migrations/011_smartroute_moat.sql).
pub record Columns (F : Type 0) : Type 0 where
  pub per_token : F → F
  pub per_unit : F → F
  pub sizes : List (String × F) → List (String × F)

abbrev through : {F : Type 0} → (F → F) → Option F → Option F
through column none = none
through column (some x) = some (column x)

-- A row as the database gives it back: its prices as the columns keep them, the start of validity
-- in whole microseconds and in the database's time zone, the time of signing as it may be.
abbrev pub read_back : {F : Type 0} → Columns F → String → Option Time → Row F → Row F
read_back columns zone signed_at row = record row {
  input_cost_per_token = columns.per_token row.input_cost_per_token;
  output_cost_per_token = columns.per_token row.output_cost_per_token;
  cache_read_cost_per_token = through columns.per_token row.cache_read_cost_per_token;
  input_cost_per_image = through columns.per_unit row.input_cost_per_image;
  input_cost_per_character = through columns.per_token row.input_cost_per_character;
  input_cost_per_second = through columns.per_unit row.input_cost_per_second;
  size_pricing = columns.sizes row.size_pricing;
  effective_from = record { instant = row.effective_from.instant / 1000 * 1000; location = zone };
  signed_at = signed_at;
}

-- The columns keep the row's prices without rounding them.
abbrev pub Fits : {F : Type 0} → Columns F → Row F → Type 0
Fits columns row =
    (columns.per_token row.input_cost_per_token ≡ row.input_cost_per_token)
    × (columns.per_token row.output_cost_per_token ≡ row.output_cost_per_token)
    × (through columns.per_token row.cache_read_cost_per_token ≡ row.cache_read_cost_per_token)
    × (through columns.per_unit row.input_cost_per_image ≡ row.input_cost_per_image)
    × (through columns.per_token row.input_cost_per_character ≡ row.input_cost_per_character)
    × (through columns.per_unit row.input_cost_per_second ≡ row.input_cost_per_second)
    × (columns.sizes row.size_pricing ≡ row.size_pricing)

module _ {F : Type 0} (codec : Codec F) (columns : Columns F) where
  open codec use {lib}

  canonical-read_back :
      (zone signature key_id : String) (at signed_at : Option Time) (row : Row F)
      → Fits columns row
      → canonical_row codec (
          read_back columns zone at (record row {
            signature = signature;
            signed_by_key_id = key_id;
            signed_at = signed_at;
          }))
        ≡ canonical_row codec row
  unfolding canonical_row
  canonical-read_back zone signature key_id at signed_at row (a, b, c, d, f, g, s) =
      let e : row.effective_from.instant / 1000 * 1000 / 1000 * 1000
          ≡ row.effective_from.instant / 1000 * 1000 =
        omega arith in
      rw (e, a, b, c, d, f, g, s, canonical_row) refl

  module _ (sound : IsSound lib) (text : SignsText lib) where
    verify_written :
        (priv body : Bytes) (row : Row F)
        → IsGenerated lib priv
        → row.signature ≡ lib.base64_encode (lib.sign_bytes priv body)
        → canonical_row codec row ≡ some body
        → verify_row codec (lib.public_key priv) row ≡ none
    unfolding verify_row check_signature check_row
    verify_written priv body row generated s e =
        let accepted = sound.accepts priv body generated in
        rw (s, text priv body, sound.decodes (lib.sign_bytes priv body), e, accepted) refl

    verify-sign_canonical :
        (priv : Bytes) (now : Time) (row row' : Row F) (body : Option Bytes) (zone : String)
        (at : Option Time)
        → IsGenerated lib priv
        → Fits columns row
        → canonical_row codec row ≡ body
        → sign_canonical codec priv now row body ≡ (true, row')
        → verify_row codec (lib.public_key priv) (read_back columns zone at row') ≡ none
    unfolding sign_canonical
    verify-sign_canonical priv now row row' none zone at generated fits e h = cc
    verify-sign_canonical priv now row row' (some body) zone at generated fits e h =
        let sig = lib.base64_encode (lib.sign_bytes priv body) in
        let id = lib.hex_prefix (lib.append_hash (lib.public_key priv)) in
        let written : Row F = record row {
          signature = sig;
          signed_by_key_id = id;
          signed_at = some (utc now);
        } in
        subst
          (λ (r : Row F).
            verify_row codec (lib.public_key priv) (read_back columns zone at r) ≡ none)
          (ap (λ (p : Bool × Row F). p.1) h)
          (verify_written priv body (read_back columns zone at written) generated refl
            (canonical-read_back zone sig id at (some (utc now)) row fits ∙ e))

    -- A row that SignCatalogRow signed without an error, with a key that ed25519.GenerateKey made and
    -- with prices that the columns of the database keep without rounding, passes VerifyCatalogRow
    -- under the public key of the signing key also when it comes back from the database, its start
    -- of validity cut to whole microseconds and in another time zone, its time of signing another:
    -- where the library accepts the signatures of generated keys, decodes its own base64, and writes
    -- no signature as an empty text. Of prices that the columns round it says nothing.
    pub sign_row-verify_row :
        (priv : Bytes) (start now : Time) (row row' : Row F) (zone : String) (at : Option Time)
        → IsGenerated lib priv
        → Fits columns row
        → sign_row codec (some priv) start now row ≡ (true, row')
        → verify_row codec (lib.public_key priv) (read_back columns zone at row') ≡ none
    unfolding sign_row
    sign_row-verify_row priv start now row row' zone at generated fits h =
        verify-sign_canonical priv now (normalize codec start row) row' _ zone at generated fits
          refl h
