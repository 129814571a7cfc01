-- ===== src/Privacy/Tests.antt =====
-- The theorems on redaction at concrete texts.
use gateway_llm.Prelude.{
  ◌≤◌, ◌≡◌, ◌≢◌, refl, false, none, some, List, [], ◌∷◌, ◌++◌, map, length, leb, arith,
  if◌then◌else◌,
}
use gateway_llm.Router.State.{lookup}
use gateway_llm.Privacy.Bytes.{Bytes, codes, Table}
use gateway_llm.Privacy.Redactor.{Span, Rule, Redactor, new_redactor, redact, find_spans}
use gateway_llm.Privacy.Redactor.Restore.{Piece, render, restore, redact-restores}
use gateway_llm.Privacy.Redactor.Memo.{redact_all, redact_all-redact}
use gateway_llm.Privacy.Rehydrator.{contains, is_empty, whole, max_token_len}
use gateway_llm.Privacy.Rehydrator.Chunks.{stream, write_all, concat, stream-chunks, stream-misses}
use gateway_llm.Privacy.Vault.{
  Message, Engine, Json, redact_request, rehydrate_response, rehydrate_bytes,
}
use gateway_llm.Privacy.Vault.Requests.{redact_request-rehydrate}

-- A pattern that matches the three bytes from the third on.
abbrev third : Rule
third = record {
  category = codes "SSN";
  find_all = λ text. if leb 5 (length text) then (2, 5) ∷ [] else [];
  validate = none;
}

abbrev digest : Bytes → Bytes
digest b = codes "0123456789abcdef"

abbrev sort : List Span → List Span
sort spans = spans

abbrev redactor : Redactor
redactor = new_redactor (third ∷ []) (codes "salt")

redacts :
    (redact digest sort (codes "my 123 ok") redactor).0
    ≡ (codes "my<<pii:SSN:0123456789>>3 ok", (codes "<<pii:SSN:0123456789>>", codes " 12") ∷ [])
unfolding new_redactor redact
redacts = refl

redact-restores_example :
    (let (out, mapping) = (redact digest sort (codes "my 123 ok") redactor).0 in
      (pieces : List Piece) × (out ≡ render pieces) × (restore mapping pieces ≡ codes "my 123 ok"))
unfolding new_redactor find_spans
redact-restores_example =
    redact-restores digest (codes "my 123 ok") sort redactor (λ t. codes " 12") (λ P spans h. h)
      ((omega arith, tt), tt) (refl, tt)

redact_all-redact_example :
    (redact digest sort
      (codes "my 123 ok")
      (redact_all digest sort (codes "ab 12" ∷ codes "xy 12" ∷ []) redactor)).0
    ≡ (redact digest sort (codes "my 123 ok") redactor).0
redact_all-redact_example =
    redact_all-redact digest sort (third ∷ []) (codes "salt") (codes "my 123 ok")
      (codes "ab 12" ∷ codes "xy 12" ∷ []) (omega arith, tt)

abbrev token : Bytes
token = codes "<<pii:SSN:0123456789>>"

abbrev mapping : Table
mapping = (token, codes "123-45-6789") ∷ []

-- Eleven bytes of the token stand before the cut of a single write of 75 bytes.
abbrev long_text : Bytes
long_text = token ++ codes " is the number that you asked for, and this is the end"

stream-chunks_example :
    (chunks : List Bytes) × (stream mapping (long_text ∷ codes "!" ∷ [])
      ≡ map (whole (some mapping)) chunks)
    × (concat chunks ≡ concat (long_text ∷ codes "!" ∷ []))
    × (length
          (write_all (long_text ∷ codes "!" ∷ []) (record { mapping = mapping; buf = [] }) []).0.buf
        ≤ max_token_len)
stream-chunks_example = stream-chunks mapping (long_text ∷ codes "!" ∷ [])

whole_replaces :
    whole (some mapping) long_text
    ≡ codes "123-45-6789 is the number that you asked for, and this is the end"
unfolding whole
whole_replaces = refl

stream-misses_example : concat (stream mapping (long_text ∷ [])) ≡ long_text
stream-misses_example =
    stream-misses token (codes "123-45-6789") long_text (omega arith) (unfold contains in refl)
      (unfold contains in refl)

abbrev json : Json
json = record { text_of = λ b. some b; parts_of = λ b. none; of_text = λ b. b }

abbrev engine : Engine
engine = record { redactor = redactor; vault = ("r0", mapping) ∷ [] }

abbrev message : Message
message = record { role = "user"; content = codes "my 123 ok" }

redact_request-rehydrate_example :
    (let e' = (redact_request json digest sort "r1" (some (message ∷ [])) engine).2 in
      let after = (rehydrate_response json "r1" (some message ∷ []) e').1.vault in
      (m : Table) × (lookup "r1" e'.vault ≡ some m)
      × (is_empty m ≡ false)
      × (rehydrate_bytes "r1" token e' ≡ whole (some m) token)
      × (lookup "r1" after ≡ none)
      × (lookup "r0" after ≡ lookup "r0" engine.vault))
redact_request-rehydrate_example =
    redact_request-rehydrate json digest sort "r1" "r0" (message ∷ []) (some message ∷ []) token
      engine (λ h. counted h) refl
  where
    counted : (redact_request json digest sort "r1" (some (message ∷ [])) engine).0 ≢ 0
    counted h =
        let e : (redact_request json digest sort "r1" (some (message ∷ [])) engine).0 ≡ 1 =
          unfold redact_request new_redactor in refl in
        omega arith
