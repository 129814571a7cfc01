-- ===== src/Billing/Receipt/Signing.antt =====
-- What Verify says of the receipts that a signer made (backend/internal/receipt/receipt.go).
use gateway_llm.Prelude.{
  ◌≡◌, refl, sym, ap, subst, ◌∙◌, Bool, none, some, Option, List, [], ◌∷◌, arith,
}
use gateway_llm.Billing.Receipt.{
  Bytes, Receipt, Signer, Library, IsGenerated, IsSound, Signed, signed, refused, Draw, new, sign,
  verify, canonical_bytes, fill_in, link, advance, sign_body, verify_signature, verify_body,
}

-- Every receipt that was signed passes Verify under the key.
abbrev pub AllVerify : Library → Bytes → List Signed → Type 0
AllVerify lib key [] = Unit
AllVerify lib key (refused message ∷ rest) = AllVerify lib key rest
AllVerify lib key (signed r ∷ rest) = (verify lib key (some r) ≡ none) × AllVerify lib key rest

-- The key pair of the signer belongs together, and was generated.
abbrev pub IsPair : Library → Signer → Type 0
IsPair lib s = (s.pub_key ≡ lib.public_key s.priv) × IsGenerated lib s.priv

module _ (lib : Library) where
  -- A series of calls of Sign.
  unfoldable pub sign_all : List (Draw × Option Receipt) → Signer → List Signed
  sign_all [] s = []
  sign_all ((d, r) ∷ rest) s = let (o, s') = sign lib d r s in o ∷ sign_all rest s'

  keys-sign_body :
      (r : Receipt) (s : Signer) (body : Option Bytes)
      → ((sign_body lib r s body).1.pub_key ≡ s.pub_key)
        × ((sign_body lib r s body).1.priv ≡ s.priv)
  unfolding sign_body advance
  keys-sign_body r s none = (refl, refl)
  keys-sign_body r s (some body) = ground arith

module _ (lib : Library) (sound : IsSound lib) where
  -- The signature is not among the bytes that are signed.
  verify_signed :
      (r : Receipt) (s : Signer) (body : Bytes)
      → IsPair lib s
      → canonical_bytes lib r ≡ some body
      → verify lib s.pub_key
          (some (record r { signature = lib.base64_encode (lib.sign_bytes s.priv body) }))
        ≡ none
  unfolding verify verify_signature verify_body canonical_bytes
  verify_signed r s body pair e =
      simp (sound.decodes, e, pair.0, sound.accepts s.priv body pair.1) refl

  AllVerify-sign_body :
      (r : Receipt) (s : Signer) (rest : List Signed) (body : Option Bytes)
      → IsPair lib s
      → canonical_bytes lib r ≡ body
      → AllVerify lib s.pub_key rest
      → AllVerify lib s.pub_key ((sign_body lib r s body).0 ∷ rest)
  unfolding sign_body
  AllVerify-sign_body r s rest none pair e h = h
  AllVerify-sign_body r s rest (some body) pair e h = (verify_signed r s body pair e, h)

  keys-sign :
      (d : Draw) (r : Option Receipt) (s : Signer)
      → ((sign lib d r s).1.pub_key ≡ s.pub_key) × ((sign lib d r s).1.priv ≡ s.priv)
  unfolding sign
  keys-sign d none s = (refl, refl)
  keys-sign d (some r) s =
      keys-sign_body lib (link s (fill_in d s r)) s (canonical_bytes lib (link s (fill_in d s r)))

  AllVerify-sign :
      (d : Draw) (r : Option Receipt) (s : Signer) (rest : List Signed)
      → IsPair lib s
      → AllVerify lib s.pub_key rest
      → AllVerify lib s.pub_key ((sign lib d r s).0 ∷ rest)
  unfolding sign
  AllVerify-sign d none s rest pair h = h
  AllVerify-sign d (some r) s rest pair h =
      AllVerify-sign_body (link s (fill_in d s r)) s rest _ pair refl h

  AllVerify-sign_all :
      (calls : List (Draw × Option Receipt)) (s : Signer)
      → IsPair lib s
      → AllVerify lib s.pub_key (sign_all lib calls s)
  unfolding sign_all
  AllVerify-sign_all [] s pair = tt
  AllVerify-sign_all ((d, r) ∷ rest) s pair =
      let keys = keys-sign d r s in
      AllVerify-sign d r s (sign_all lib rest (sign lib d r s).1) pair (
        subst (λ key. AllVerify lib key (sign_all lib rest (sign lib d r s).1)) keys.0
          (AllVerify-sign_all rest (sign lib d r s).1 (
            keys.0 ∙ pair.0 ∙ ap lib.public_key (sym keys.1),
            subst (λ priv. IsGenerated lib priv) (sym keys.1) pair.1,
          )))

  -- Every receipt that Sign returns, in any series of calls on a signer that New made of a private
  -- key which ed25519.GenerateKey made, with or without chains, passes Verify under this key's
  -- public key, where the library accepts the signatures of generated keys and decodes its own
  -- base64. Of a key that was read from a file and not generated so it says nothing.
  pub sign-verify :
      (priv : Bytes) (chained : Bool) (calls : List (Draw × Option Receipt))
      → IsGenerated lib priv
      → AllVerify lib (lib.public_key priv) (sign_all lib calls (new lib priv chained))
  unfolding new
  sign-verify priv chained calls generated =
      AllVerify-sign_all calls (new lib priv chained) (refl, generated)
