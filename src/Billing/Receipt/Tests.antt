-- ===== src/Billing/Receipt/Tests.antt =====
-- The theorems on receipts at concrete inputs.
use gateway_llm.Prelude.{
  zero, suc, ℕ, ◌≡◌, refl, String, true, false, none, some, Option, List, [], ◌∷◌, length,
}
use gateway_llm.Prelude.Int.{pos}
use gateway_llm.Billing.Receipt.{Receipt, Draw, Signed, signed, refused, new, sign, Bytes}
use gateway_llm.Router.State.{lookup, store}
use gateway_llm.Billing.Receipt.Toy.{toy, toy-IsSound, to_text, of_text, of_text-to_text}
use gateway_llm.Billing.Receipt.Signing.{sign_all, AllVerify, sign-verify}
use gateway_llm.Billing.Receipt.Chain.{Linked, sign-Linked}
use gateway_llm.Billing.Receipt.Key.{
  Files, Read, content, not_exist, loaded, load_or_generate_key, load_or_generate_key-reload,
}
use gateway_llm.Billing.Receipt.Key

abbrev sample : String → ℕ → Receipt
sample org cost = record {
  id = "";
  trace_id = "t";
  org_id = org;
  api_key_id = "";
  alias = "gpt";
  provider = "openai";
  provider_model = "gpt-4o";
  region = "";
  timestamp = record { instant = 0; location = "UTC" };
  req_hash = "";
  resp_hash = "";
  prompt_tokens = pos 3;
  output_tokens = pos 4;
  total_tokens = pos 7;
  cost_usd = cost;
  prev_receipt_id = "";
  prev_hash = "";
  public_key_id = "";
  signature = "";
}

abbrev draw : String → Draw
draw uuid = record { now = record { instant = 9; location = "CET" }; uuid = uuid }

abbrev calls : List (Draw × Option Receipt)
calls =
    (draw "r1", some (sample "a" 2))
    ∷ (draw "r2", some (sample "b" 1))
    ∷ (draw "r3", none)
    ∷ (draw "r4", some (sample "a" 0))
    ∷ []

-- The links of the signed receipts.
abbrev links : List Signed → List (String × String)
links [] = []
links (refused message ∷ out) = links out
links (signed r ∷ out) = (r.prev_receipt_id, r.prev_hash) ∷ links out

links_made :
    links (sign_all toy calls (new toy (5 ∷ 5 ∷ []) true))
    ≡ ("", "") ∷ ("", "") ∷ ("r1", "11.") ∷ []
unfolding sign_all sign new lookup store
links_made = refl

sign-verify_example : AllVerify toy (5 ∷ []) (sign_all toy calls (new toy (5 ∷ 5 ∷ []) false))
sign-verify_example = sign-verify toy toy-IsSound (5 ∷ 5 ∷ []) false calls (5 ∷ [], refl)

sign-Linked_example : Linked toy [] calls (sign_all toy calls (new toy (5 ∷ 5 ∷ []) true))
sign-Linked_example = sign-Linked toy (5 ∷ 5 ∷ []) calls

abbrev zeros : ℕ → Bytes
zeros zero = []
zeros (suc n) = 0 ∷ zeros n

-- The world is the one file.
abbrev disk : Files (Option String)
disk = record {
  read_file = λ path w. elim w [ none ↦ not_exist | some text ↦ content text ];
  generate_key = λ w. (some (zeros 64), w);
  dir = λ path. "/keys";
  mkdir_all = λ path w. w;
  write_file = λ path text w. some (some text);
  encode = to_text;
  decode = λ s. some (of_text 0 s);
}

disk_reads_back :
    (path text : String) (w w' : Option String)
    → disk.write_file path text w ≡ some w'
    → disk.read_file path w' ≡ content text
disk_reads_back path text w w' h = let e : some text ≡ w' = cc in rw (← e) refl

disk_key_size :
    (w : Option String) (key : Bytes) → (disk.generate_key w).0 ≡ some key → length key ≡ 64
disk_key_size w key h = let e : zeros 64 ≡ key = cc in rw (← e) refl

disk-IsSound : Key.IsSound disk
disk-IsSound = record {
  reads_back = disk_reads_back;
  decodes = λ b. rw (of_text-to_text b) refl;
  key_size = disk_key_size;
}

generated :
    load_or_generate_key disk "/keys/k" none ≡ (loaded (zeros 64), some (to_text (zeros 64)))
unfolding load_or_generate_key
generated = refl

load_or_generate_key-reload_example :
    load_or_generate_key disk "/keys/k" (some (to_text (zeros 64)))
    ≡ (loaded (zeros 64), some (to_text (zeros 64)))
load_or_generate_key-reload_example =
    load_or_generate_key-reload disk disk-IsSound "/keys/k" (zeros 64) none
      (some (to_text (zeros 64))) refl generated
