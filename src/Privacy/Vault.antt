-- ===== src/Privacy/Vault.antt =====
-- The vault and the facade of backend/internal/privacy/vault.go and engine.go. Decoding and encoding
-- of JSON are parameters.
pub mod Requests
use gateway_llm.Prelude.{
  ℕ, ◌+◌, String, Bool, true, false, not, ◌||◌, Option, none, some, List, [], ◌∷◌, ◌++◌, length,
  ◌==◌, str_eq, if◌then◌else◌,
}
use gateway_llm.Router.State.{lookup, store}
use gateway_llm.Privacy.Bytes.{Bytes, Table, put, bytes_eq}
use gateway_llm.Privacy.Redactor.{Span, Redactor, redact}
use gateway_llm.Privacy.Rehydrator.{is_empty, whole}

-- MemoryVault: the mappings by request. Put, Get and Size are `store`, `lookup` and `length`.
abbrev pub Vault : Type 0
Vault = List (String × Table)

-- delete(v.m, id)
unfoldable pub delete : String → Vault → Vault
delete id [] = []
delete id ((k, m) ∷ rest) = let kept = delete id rest in if str_eq k id then kept else (k, m) ∷ kept

-- The fields of a message and of a choice that the engine reads and writes.
pub record Message : Type 0 where
  pub role : String
  pub content : Bytes

pub record Engine : Type 0 where
  pub redactor : Redactor
  pub vault : Vault

-- merged.Entries[tok] = orig, for every entry
unfoldable pub merge : Table → Table → Table
unfolding put
merge [] merged = merged
merge ((tok, original) ∷ entries) merged = merge entries (put tok original merged)

-- json.Unmarshal to a text, or to parts of which those with a text are given; json.Marshal of a text.
pub record Json : Type 0 where
  pub text_of : Bytes → Option Bytes
  pub parts_of : Bytes → Option (List Bytes)
  pub of_text : Bytes → Bytes

join : List Bytes → Bytes
join [] = []
join (b ∷ bs) = b ++ join bs

-- The text that is there and is not empty, else none.
abbrev pub nonempty : Bytes → Option Bytes
nonempty b = if is_empty b then none else some b

module _ (json : Json) where
  of_parts : Option (List Bytes) → Option Bytes
  unfolding join
  of_parts none = none
  of_parts (some parts) = nonempty (join parts)

  of_decoded : Option Bytes → Bytes → Option Bytes
  unfolding of_parts
  of_decoded (some s) raw = some s
  of_decoded none raw = of_parts (json.parts_of raw)

  -- extractText
  unfoldable pub extract_text : Bytes → Option Bytes
  unfolding of_decoded
  extract_text raw = if is_empty raw then none else of_decoded (json.text_of raw) raw

-- What the loop of RedactRequest carries.
pub record Redacted : Type 0 where
  pub messages : List Message
  pub merged : Table
  pub count : ℕ
  pub redactor : Redactor

module _ (json : Json) (hex_hash : Bytes → Bytes) (sort_by_start : List Span → List Span) where
  -- The rest of a turn, once the message's text is redacted.
  take_mapping : Message → (Bytes × Table) × Redactor → Redacted → Redacted
  unfolding merge
  take_mapping m ((red, mapping), r) acc =
      if is_empty mapping
      then record acc { messages = acc.messages ++ m ∷ []; redactor = r }
      else record {
        messages = acc.messages ++ record m { content = json.of_text red } ∷ [];
        merged = merge mapping acc.merged;
        count = acc.count + length mapping;
        redactor = r;
      }

  redact_text : Message → Option Bytes → Redacted → Redacted
  unfolding take_mapping redact
  redact_text m none acc = record acc { messages = acc.messages ++ m ∷ [] }
  redact_text m (some text) acc =
      if is_empty text
      then record acc { messages = acc.messages ++ m ∷ [] }
      else take_mapping m (redact hex_hash sort_by_start text acc.redactor) acc

  -- The loop of RedactRequest.
  unfoldable pub redact_messages : List Message → Redacted → Redacted
  unfolding redact_text extract_text
  redact_messages [] acc = acc
  redact_messages (m ∷ ms) acc =
      redact_messages ms (redact_text m (extract_text json m.content) acc)

  -- RedactRequest, for an engine that is there: the number of redactions, the messages, the engine.
  unfoldable pub redact_request :
      String → Option (List Message) → Engine → ℕ × Option (List Message) × Engine
  unfolding redact_messages store
  redact_request id none e = (0, none, e)
  redact_request id (some messages) e =
      let done =
        redact_messages messages
          (record { messages = []; merged = []; count = 0; redactor = e.redactor }) in
      (
        done.count,
        some done.messages,
        record {
          redactor = done.redactor;
          vault = if done.count == 0 then e.vault else store id done.merged e.vault;
        },
      )

module _ (json : Json) where
  -- restored != txt, and the content that is written then
  restore_text : Table → Message → Option Bytes → Message
  unfolding whole bytes_eq
  restore_text mapping m none = m
  restore_text mapping m (some txt) =
      let restored = whole (some mapping) txt in
      if bytes_eq restored txt then m else record m { content = json.of_text restored }

  restore_choice : Table → Option Message → Option Message
  unfolding restore_text extract_text
  restore_choice mapping none = none
  restore_choice mapping (some m) = some (restore_text mapping m (extract_text json m.content))

  restore_choices : Table → List (Option Message) → List (Option Message)
  unfolding restore_choice
  restore_choices mapping [] = []
  restore_choices mapping (c ∷ cs) = restore_choice mapping c ∷ restore_choices mapping cs

  rehydrate_with :
      String → Option Table → List (Option Message) → Engine → List (Option Message) × Engine
  unfolding restore_choices delete
  rehydrate_with id none choices e = (choices, e)
  rehydrate_with id (some mapping) choices e =
      if is_empty mapping
      then (choices, e)
      else (restore_choices mapping choices, record e { vault = delete id e.vault })

  -- RehydrateResponse, for an engine and a response that are there
  unfoldable pub rehydrate_response :
      String → List (Option Message) → Engine → List (Option Message) × Engine
  unfolding rehydrate_with lookup
  rehydrate_response id choices e = rehydrate_with id (lookup id e.vault) choices e

bytes_with : Option Table → Bytes → Bytes
unfolding whole
bytes_with none body = body
bytes_with (some mapping) body = if is_empty mapping then body else whole (some mapping) body

-- RehydrateBytes, for an engine that is there
unfoldable pub rehydrate_bytes : String → Bytes → Engine → Bytes
unfolding bytes_with lookup
rehydrate_bytes id body e = bytes_with (lookup id e.vault) body
