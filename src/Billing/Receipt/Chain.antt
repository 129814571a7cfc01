-- ===== src/Billing/Receipt/Chain.antt =====
-- The chain of an organization's receipts (backend/internal/receipt/receipt.go).
use mathlib.Core.Option
use gateway_llm.Prelude.{
  String, ◌≡◌, refl, sym, subst, ◌∙◌, true, none, some, Option, List, [], ◌∷◌, inl, inr, str_eq,
  Bool-cases, arith, if◌then◌else◌,
}
use gateway_llm.Router.State.{lookup, lookup-store}
use gateway_llm.Billing.Receipt.{
  Bytes, Receipt, ChainTail, Signer, Library, Signed, signed, refused, Draw, new, sign,
  canonical_bytes, hash_bytes, fill_in, link, follow, advance, sign_body,
}
use gateway_llm.Billing.Receipt.Signing.{sign_all}

-- The organization's latest among the receipts, the latest first.
pub last_of : String → List Receipt → Option Receipt
last_of org [] = none
last_of org (r ∷ done) = if str_eq r.org_id org then some r else last_of org done

module _ (lib : Library) where
  -- The hash of the bytes that are signed.
  pub hash_of : Receipt → Option String
  hash_of r = Option.map (hash_bytes lib) (canonical_bytes lib r)

  -- A receipt names the receipt before it, and the first keeps what the caller gave.
  abbrev pub Continues : Option Receipt → Receipt → Receipt → Type 0
  Continues none given r =
      (r.prev_receipt_id ≡ given.prev_receipt_id) × (r.prev_hash ≡ given.prev_hash)
  Continues (some p) given r = (r.prev_receipt_id ≡ p.id) × (some r.prev_hash ≡ hash_of p)

  -- The answers to the calls, after the receipts that are done: each signed receipt continues its
  -- organization's latest.
  abbrev pub Linked : List Receipt → List (Draw × Option Receipt) → List Signed → Type 0
  Linked done [] [] = Unit
  Linked done ((d, given) ∷ calls) (refused message ∷ out) = Linked done calls out
  Linked done ((d, some given) ∷ calls) (signed r ∷ out) =
      Continues (last_of r.org_id done) given r × Linked (r ∷ done) calls out
  Linked done calls out = ⊥

  abbrev Matches : Option ChainTail → Option Receipt → Type 0
  Matches none none = Unit
  Matches (some t) (some p) = (t.id ≡ p.id) × (some t.hash ≡ hash_of p)
  Matches t p = ⊥

  abbrev Tracks : Signer → List Receipt → Type 0
  Tracks s done = (org : String) → Matches (lookup org s.chain_last) (last_of org done)

  Continues-follow :
      (t : Option ChainTail) (p : Option Receipt) (given r : Receipt) (sig : String)
      → Matches t p
      → r.prev_receipt_id ≡ given.prev_receipt_id
      → r.prev_hash ≡ given.prev_hash
      → Continues p given (record (follow t r) { signature = sig })
  unfolding follow
  Continues-follow none (some p) given r sig m a b = elim m [ ]
  Continues-follow (some t) none given r sig m a b = elim m [ ]
  Continues-follow none none given r sig m a b = (a, b)
  Continues-follow (some t) (some p) given r sig m a b = m

  org_id-follow : (t : Option ChainTail) (r : Receipt) → (follow t r).org_id ≡ r.org_id
  unfolding follow
  org_id-follow none r = refl
  org_id-follow (some t) r = refl

  hash_lem :
      (r : Receipt) (sig : String) (body : Bytes)
      → canonical_bytes lib r ≡ some body
      → hash_of (record r { signature = sig }) ≡ some (lib.hex (lib.sha256 body))
  unfolding hash_of canonical_bytes hash_bytes
  hash_lem r sig body e = rw e refl

  Tracks-advance :
      (body : Bytes) (s : Signer) (r : Receipt) (sig : String) (done : List Receipt)
      → s.chained ≡ true
      → canonical_bytes lib r ≡ some body
      → Tracks s done
      → Tracks (advance lib body r s) (record r { signature = sig } ∷ done)
  unfolding advance last_of hash_of canonical_bytes hash_bytes
  Tracks-advance body s r sig done on e h org = rw on (
      rw
        (lookup-store org r.org_id (record { id = r.id; hash = lib.hex (lib.sha256 body) })
          s.chain_last)
        (elim (Bool-cases (str_eq r.org_id org)) [
          | inl same ↦ rw same (refl, sym (hash_lem r sig body e))
          | inr other ↦ rw other (h org)
        ]))

  chained-sign_body :
      (r : Receipt) (s : Signer) (body : Option Bytes)
      → (sign_body lib r s body).1.chained ≡ s.chained
  unfolding sign_body advance
  chained-sign_body r s none = refl
  chained-sign_body r s (some body) = ground arith

  Continues-link :
      (s : Signer) (done : List Receipt) (given filled r : Receipt) (sig : String)
      → Tracks s done
      → filled.prev_receipt_id ≡ given.prev_receipt_id
      → filled.prev_hash ≡ given.prev_hash
      → follow (lookup filled.org_id s.chain_last) filled ≡ r
      → Continues (last_of r.org_id done) given (record r { signature = sig })
  Continues-link s done given filled r sig h a b f =
      let tail = lookup filled.org_id s.chain_last in
      let at = last_of filled.org_id done in
      subst
        (λ (r : Receipt). Continues (last_of r.org_id done) given (record r { signature = sig }))
        (f)
        (subst
          (λ org.
            Continues (last_of org done) given (record (follow tail filled) { signature = sig }))
          (sym (org_id-follow tail filled))
          (Continues-follow tail at given filled sig (h filled.org_id) a b))

  Linked-sign_body :
      (d : Draw) (given filled : Receipt) (s : Signer) (done : List Receipt)
      → (calls : List (Draw × Option Receipt)) → s.chained ≡ true
      → Tracks s done
      → filled.prev_receipt_id ≡ given.prev_receipt_id
      → filled.prev_hash ≡ given.prev_hash
      → (body : Option Bytes) → (r : Receipt)
      → follow (lookup filled.org_id s.chain_last) filled ≡ r
      → canonical_bytes lib r ≡ body
      → ((s' : Signer) (done' : List Receipt)
          → s'.chained ≡ true
          → Tracks s' done'
          → Linked done' calls (sign_all lib calls s'))
      → Linked done
          ((d, some given) ∷ calls)
          ((sign_body lib r s body).0 ∷ sign_all lib calls (sign_body lib r s body).1)
  unfolding sign_body
  Linked-sign_body d given filled s done calls on h a b none r f e ih = ih s done on h
  Linked-sign_body d given filled s done calls on h a b (some body) r f e ih =
      let sig = lib.base64_encode (lib.sign_bytes s.priv body) in
      (
        Continues-link s done given filled r sig h a b f,
        ih (advance lib body r s) (record r { signature = sig } ∷ done)
            (chained-sign_body r s (some body) ∙ on) (Tracks-advance body s r sig done on e h),
      )

  Linked-sign_all :
      (calls : List (Draw × Option Receipt)) (s : Signer) (done : List Receipt)
      → s.chained ≡ true
      → Tracks s done
      → Linked done calls (sign_all lib calls s)
  unfolding sign_all sign
  Linked-sign_all [] s done on h = tt
  Linked-sign_all ((d, none) ∷ calls) s done on h = Linked-sign_all calls s done on h
  Linked-sign_all ((d, some given) ∷ calls) s done on h =
      let filled = fill_in d s given in
      Linked-sign_body d given filled s done calls on h (unfold fill_in in refl)
        (unfold fill_in in refl) (canonical_bytes lib (link s filled)) (link s filled)
        (unfold link in rw on refl) refl (Linked-sign_all calls)

  -- In any series of calls of Sign on a signer made by New with chains, every receipt that is
  -- signed names the last receipt signed before it for its organization, by its ID and by the hash
  -- of the bytes that were signed there, and an organization's first keeps the two fields that the
  -- caller gave; refused calls leave the chains alone.
  pub sign-Linked :
      (priv : Bytes) (calls : List (Draw × Option Receipt))
      → Linked [] calls (sign_all lib calls (new lib priv true))
  unfolding new last_of lookup
  sign-Linked priv calls = Linked-sign_all calls (new lib priv true) [] refl (λ org. tt)
