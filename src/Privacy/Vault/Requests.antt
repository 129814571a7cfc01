-- ===== src/Privacy/Vault/Requests.antt =====
-- The life of a request's mapping in the vault (backend/internal/privacy/engine.go).
use gateway_llm.Prelude.{
  ◌≡◌, ◌≢◌, ◌⊎◌, refl, ap, ◌∙◌, String, false, Option, none, some, List, [], ◌∷◌, ◌==◌, str_eq,
  eq_iff, if◌then◌else◌, Bool-cases, inl, inr, arith,
}
use gateway_llm.Router.State.{lookup, store, lookup-store}
use gateway_llm.Privacy.Bytes.{Bytes, Table, put, bytes_eq}
use gateway_llm.Privacy.Redactor.{Span, Redactor}
use gateway_llm.Privacy.Rehydrator.{is_empty, whole}
use gateway_llm.Privacy.Vault.{
  Message, Engine, Json, Vault, delete, merge, redact_request, rehydrate_response, rehydrate_with,
  rehydrate_bytes, Redacted, redact_messages, redact_text, take_mapping, extract_text, bytes_with,
}

lookup-delete :
    (key id : String) (v : Vault)
    → lookup key (delete id v) ≡ (if str_eq id key then none else lookup key v)
unfolding lookup delete
lookup-delete key id [] = ground arith
lookup-delete key id ((k, m) ∷ rest) =
    ground (arith, eq_iff k id, eq_iff k key, eq_iff id key, lookup-delete key id rest)

put_nonempty : (k v : Bytes) (m : Table) → is_empty (put k v m) ≡ false
unfolding put
put_nonempty k v [] = refl
put_nonempty k v ((j, w) ∷ m) = elim (Bool-cases (bytes_eq j k)) [
  | inl e ↦ rw e refl
  | inr e ↦ rw e refl
]

merge_nonempty : (entries m : Table) → is_empty m ≡ false → is_empty (merge entries m) ≡ false
unfolding merge
merge_nonempty [] m h = h
merge_nonempty ((t, o) ∷ entries) m h = merge_nonempty entries (put t o m) (put_nonempty t o m)

merge_some : (entries m : Table) → is_empty entries ≡ false → is_empty (merge entries m) ≡ false
unfolding merge
merge_some [] m h = cc
merge_some ((t, o) ∷ entries) m h = merge_nonempty entries (put t o m) (put_nonempty t o m)

-- What was counted is in the mapping.
abbrev Counted : Redacted → Type 0
Counted acc = (acc.count ≡ 0) ⊎ (is_empty acc.merged ≡ false)

module _ (json : Json) (hex_hash : Bytes → Bytes) (sort_by_start : List Span → List Span) where
  Counted-take_mapping :
      (m : Message) (red : Bytes) (mapping : Table) (r : Redactor) (acc : Redacted)
      → Counted acc
      → Counted (take_mapping json hex_hash sort_by_start m ((red, mapping), r) acc)
  unfolding take_mapping
  Counted-take_mapping m red mapping r acc h = elim (Bool-cases (is_empty mapping)) [
    | inl nothing ↦ rw nothing h
    | inr more ↦ rw more (inr (merge_some mapping acc.merged more))
  ]

  Counted-redact_text :
      (m : Message) (text : Option Bytes) (acc : Redacted)
      → Counted acc
      → Counted (redact_text json hex_hash sort_by_start m text acc)
  unfolding redact_text
  Counted-redact_text m none acc h = h
  Counted-redact_text m (some text) acc h = elim (Bool-cases (is_empty text)) [
    | inl e ↦ rw e h
    | inr e ↦ rw e (Counted-take_mapping m _ _ _ acc h)
  ]

  Counted-redact_messages :
      (ms : List Message) (acc : Redacted)
      → Counted acc
      → Counted (redact_messages json hex_hash sort_by_start ms acc)
  unfolding redact_messages
  Counted-redact_messages [] acc h = h
  Counted-redact_messages (m ∷ ms) acc h =
      Counted-redact_messages ms _ (Counted-redact_text m (extract_text json m.content) acc h)

  vault-redact_request :
      (id : String) (messages : List Message) (e : Engine)
      → (redact_request json hex_hash sort_by_start id (some messages) e).0 ≢ 0
      → (m : Table) × ((redact_request json hex_hash sort_by_start id (some messages) e).2.vault
          ≡ store id m e.vault)
        × (is_empty m ≡ false)
  unfolding redact_request
  vault-redact_request id messages e counted =
      let start : Redacted = record {
        messages = [];
        merged = [];
        count = 0;
        redactor = e.redactor;
      } in
      let done = redact_messages json hex_hash sort_by_start messages start in
      elim (Counted-redact_messages messages start (inl refl)) [
        | inl zero ↦ absurd (counted zero)
        | inr full ↦
            let some_counted : (done.count == 0) ≡ false = ground arith in
            (done.merged, rw some_counted refl, full)
      ]

  rehydrate_lem :
      (id : String) (m : Table) (v : Vault) (e : Engine)
      → e.vault ≡ store id m v
      → lookup id e.vault ≡ some m
  rehydrate_lem id m v e h = rw (h, lookup-store id id m v, (eq_iff id id).1 refl) refl

  vault-rehydrate_response :
      (id : String) (m : Table) (choices : List (Option Message)) (e : Engine)
      → lookup id e.vault ≡ some m
      → is_empty m ≡ false
      → (rehydrate_response json id choices e).1.vault ≡ delete id e.vault
  unfolding rehydrate_response rehydrate_with
  vault-rehydrate_response id m choices e h full = rw (h, full) refl

  -- Where RedactRequest counts a redaction, the vault has a mapping for the request that is not
  -- empty: RehydrateBytes rewrites a body by it, and RehydrateResponse takes it out of the vault,
  -- after which every other request's mapping is what it was before.
  pub redact_request-rehydrate :
      (id key : String) (messages : List Message) (choices : List (Option Message)) (body : Bytes)
      → (e : Engine) → (redact_request json hex_hash sort_by_start id (some messages) e).0 ≢ 0
      → str_eq id key ≡ false
      → (let e' = (redact_request json hex_hash sort_by_start id (some messages) e).2 in
          let after = (rehydrate_response json id choices e').1.vault in
          (m : Table) × (lookup id e'.vault ≡ some m)
          × (is_empty m ≡ false)
          × (rehydrate_bytes id body e' ≡ whole (some m) body)
          × (lookup id after ≡ none)
          × (lookup key after ≡ lookup key e.vault))
  redact_request-rehydrate id key messages choices body e counted other =
      let e' = (redact_request json hex_hash sort_by_start id (some messages) e).2 in
      let (m, stored, full) = vault-redact_request id messages e counted in
      let there = rehydrate_lem id m e.vault e' stored in
      let gone = vault-rehydrate_response id m choices e' there full in
      let v = e'.vault in
      (
        m,
        there,
        full,
        (unfold rehydrate_bytes bytes_with in rw (there, full) refl),
        ap (lookup id) gone ∙ lookup-delete id id v ∙ rw ((eq_iff id id).1 refl) refl,
        ap (lookup key) gone
            ∙ lookup-delete key id v
            ∙ rw other (ap (lookup key) stored ∙ lookup-store key id m e.vault ∙ rw other refl),
      )
