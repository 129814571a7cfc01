-- ===== src/Billing/Receipt.antt =====
-- The signed receipts of backend/internal/receipt/receipt.go. A byte string is a list of numbers, a
-- float64 its bit pattern. Ed25519, SHA-256, base64 and encoding/json are a parameter, as are the
-- clock and the fresh identifiers, and the file system of the key.
pub mod Signing
pub mod Chain
pub mod Key
pub mod Toy
mod Tests
use gateway_llm.Prelude.{
  ℕ, String, Bool, true, false, not, Option, none, some, List, [], ◌∷◌, ◌≡◌, ◌==◌, str_eq, take,
  if◌then◌else◌, length,
}
use gateway_llm.Prelude.Int.{ℤ}
use gateway_llm.Router.State.{lookup, store}

abbrev pub Bytes : Type 0
Bytes = List ℕ

-- time.Time: nanoseconds since the zero time, and the location it is shown in.
pub record Time : Type 0 where
  pub instant : ℕ
  pub location : String

-- t.UTC()
abbrev pub utc : Time → Time
utc t = record t { location = "UTC" }

pub record Receipt : Type 0 where
  pub id : String
  pub trace_id : String
  pub org_id : String
  pub api_key_id : String
  pub alias : String
  pub provider : String
  pub provider_model : String
  pub region : String
  pub timestamp : Time
  pub req_hash : String
  pub resp_hash : String
  pub prompt_tokens : ℤ
  pub output_tokens : ℤ
  pub total_tokens : ℤ
  pub cost_usd : ℕ
  pub prev_receipt_id : String
  pub prev_hash : String
  pub public_key_id : String
  pub signature : String

pub record ChainTail : Type 0 where
  pub id : String
  pub hash : String

pub record Signer : Type 0 where
  pub priv : Bytes
  pub pub_key : Bytes
  pub key_id : String
  pub chain_last : List (String × ChainTail)
  pub chained : Bool

-- The struct that is marshalled, in the order of its fields.
pub record Canonical : Type 0 where
  pub id : String
  pub trace_id : String
  pub org_id : String
  pub api_key_id : String
  pub alias : String
  pub provider : String
  pub provider_model : String
  pub region : String
  pub timestamp : Time
  pub req_hash : String
  pub resp_hash : String
  pub prompt_tokens : ℤ
  pub output_tokens : ℤ
  pub total_tokens : ℤ
  pub cost_usd : ℕ
  pub prev_receipt_id : String
  pub prev_hash : String
  pub public_key_id : String

-- The libraries that the package calls. `generate_key b` is the private key that ed25519.GenerateKey
-- makes of the bytes that the random source gives; `hex_prefix b` is the first 16 characters of the hex form,
-- and `append_hash b` is sha256.New().Sum(b). `sign_bytes` panics on a private key of another size than 64
-- bytes: no theorem says what a signature is then.
pub record Library : Type 0 where
  pub generate_key : Bytes → Option Bytes
  pub public_key : Bytes → Bytes
  pub sign_bytes : Bytes → Bytes → Bytes
  pub verify_bytes : Bytes → Bytes → Bytes → Bool
  pub sha256 : Bytes → Bytes
  pub append_hash : Bytes → Bytes
  pub hex : Bytes → String
  pub hex_prefix : Bytes → String
  pub base64_encode : Bytes → String
  pub base64_decode : String → Option Bytes
  pub marshal : Canonical → Option Bytes

-- A private key that ed25519.GenerateKey makes, whose two halves belong together.
abbrev pub IsGenerated : Library → Bytes → Type 0
IsGenerated lib priv = (random : Bytes) × (lib.generate_key random ≡ some priv)

-- What the libraries document: a signature by a generated key is accepted under its public key, and
-- base64 decodes what it encoded.
pub record IsSound (lib : Library) : Type 0 where
  pub accepts :
      (priv body : Bytes)
      → IsGenerated lib priv
      → lib.verify_bytes (lib.public_key priv) body (lib.sign_bytes priv body) ≡ true
  pub decodes : (b : Bytes) → lib.base64_decode (lib.base64_encode b) ≡ some b

pub data Signed : Type 0 where
  signed : Receipt → Signed
  refused : String → Signed

-- The clock and the identifier that one call would draw.
pub record Draw : Type 0 where
  pub now : Time
  pub uuid : String

-- The content fields that Sign fills in before it takes the lock.
unfoldable pub fill_in : Draw → Signer → Receipt → Receipt
fill_in d s r = record r {
  timestamp = if r.timestamp.instant == 0 then utc d.now else r.timestamp;
  id = if str_eq r.id "" then d.uuid else r.id;
  public_key_id = s.key_id;
}

follow : Option ChainTail → Receipt → Receipt
follow none r = r
follow (some tail) r = record r { prev_receipt_id = tail.id; prev_hash = tail.hash }

-- The link to the organization's last receipt.
unfoldable pub link : Signer → Receipt → Receipt
unfolding follow
link s r = if s.chained then follow (lookup r.org_id s.chain_last) r else r

module _ (lib : Library) where
  -- New
  unfoldable pub new : Bytes → Bool → Signer
  new priv chained = record {
    priv = priv;
    pub_key = lib.public_key priv;
    key_id = lib.hex_prefix (lib.append_hash (lib.public_key priv));
    chain_last = [];
    chained = chained;
  }

  -- CanonicalBytes
  unfoldable pub canonical_bytes : Receipt → Option Bytes
  canonical_bytes r = lib.marshal (record {
    id = r.id;
    trace_id = r.trace_id;
    org_id = r.org_id;
    api_key_id = r.api_key_id;
    alias = r.alias;
    provider = r.provider;
    provider_model = r.provider_model;
    region = r.region;
    timestamp = utc r.timestamp;
    req_hash = r.req_hash;
    resp_hash = r.resp_hash;
    prompt_tokens = r.prompt_tokens;
    output_tokens = r.output_tokens;
    total_tokens = r.total_tokens;
    cost_usd = r.cost_usd;
    prev_receipt_id = r.prev_receipt_id;
    prev_hash = r.prev_hash;
    public_key_id = r.public_key_id;
  })

  -- The new end of the organization's chain.
  unfoldable pub advance : Bytes → Receipt → Signer → Signer
  advance body r s =
      if s.chained
      then record s {
        chain_last =
            store r.org_id (record { id = r.id; hash = lib.hex (lib.sha256 body) }) s.chain_last;
      }
      else s

  sign_body : Receipt → Signer → Option Bytes → Signed × Signer
  unfolding advance
  sign_body r s none = (refused "marshal", s)
  sign_body r s (some body) = (
    signed (record r { signature = lib.base64_encode (lib.sign_bytes s.priv body) }),
    advance body r s,
  )

  -- Sign. What a refused call leaves in the caller's receipt is not kept.
  unfoldable pub sign : Draw → Option Receipt → Signer → Signed × Signer
  unfolding fill_in link sign_body canonical_bytes
  sign d none s = (refused "nil receipt", s)
  sign d (some rcpt) s = let r = link s (fill_in d s rcpt) in sign_body r s (canonical_bytes r)

  verify_body : Bytes → Bytes → Option Bytes → Option String
  verify_body pub_key sig none = some "marshal"
  verify_body pub_key sig (some body) =
      if lib.verify_bytes pub_key body sig then none else some "ed25519: signature mismatch"

  verify_signature : Bytes → Receipt → Option Bytes → Option String
  unfolding verify_body
  verify_signature pub_key r none = some "decode sig"
  verify_signature pub_key r (some sig) = verify_body pub_key sig (canonical_bytes r)

  -- Verify: no error, or the error's text.
  unfoldable pub verify : Bytes → Option Receipt → Option String
  unfolding verify_signature canonical_bytes
  verify pub_key none = some "nil receipt"
  verify pub_key (some r) = verify_signature pub_key r (lib.base64_decode r.signature)

  -- HashBytes
  unfoldable pub hash_bytes : Bytes → String
  hash_bytes b = lib.hex (lib.sha256 b)
