-- ===== src/Caches/Semantic/Latest.antt =====
-- The ring of a bucket against the list of what was stored (backend/internal/semcache/semcache.go).
use mathlib.Core.List.{append_assoc, append-nil}
use native.Mathlib.Nat.{mod-lt, mod-eq_of_lt, mod-eq-sub-mod}
use gateway_llm.Prelude.{
  ℕ, zero, suc, ◌+◌, ◌-◌, ◌%◌, ◌≡◌, ◌≤◌, ◌<◌, refl, List, [], ◌∷◌, ◌++◌, length, take, drop, ltb,
  Bool-cases, inl, inr, arith, length-append, ap, sym, ◌∙◌, get_elem?-drop, take_all, length-drop,
  none, take-append-drop,
}
use gateway_llm.Caches.Semantic.{Ring, Record, put, set, ring_of}

module _ {F : Type 0} where
  -- The records of a ring, the oldest first.
  abbrev pub view : Ring F → List (Record F)
  view r = drop r.next r.items ++ take r.next r.items

  -- The specification: a list of at most `cap` records, which forgets from the front.
  abbrev pub remember_last : ℕ → Record F → List (Record F) → List (Record F)
  remember_last cap rec xs = drop (suc (length xs) - cap) (xs ++ rec ∷ [])

  pub record IsRing (cap : ℕ) (r : Ring F) : Type 0 where
    pub bounded : length r.items ≤ cap
    pub partly : length r.items < cap → r.next ≡ 0
    pub inside : r.next < cap

module _ {ℓ} {A : Type ℓ} where
  length-set : (xs : List A) (i : ℕ) (v : A) → length (set xs i v) ≡ length xs
  unfolding set
  length-set [] i v = refl
  length-set (x ∷ xs) zero v = refl
  length-set (x ∷ xs) (suc i) v = ap suc (length-set xs i v)

  take-set : (xs : List A) (i : ℕ) (v : A) → take i (set xs i v) ≡ take i xs
  unfolding set
  take-set [] zero v = refl
  take-set [] (suc i) v = refl
  take-set (x ∷ xs) zero v = refl
  take-set (x ∷ xs) (suc i) v = ap (λ l. x ∷ l) (take-set xs i v)

  drop-set : (xs : List A) (i : ℕ) (v : A) → drop (suc i) (set xs i v) ≡ drop (suc i) xs
  unfolding set
  drop-set [] i v = refl
  drop-set (x ∷ xs) zero v = refl
  drop-set (x ∷ xs) (suc i) v = drop-set xs i v

  take-suc-set :
      (xs : List A) (i : ℕ) (v : A)
      → i < length xs
      → take (suc i) (set xs i v) ≡ take i xs ++ v ∷ []
  unfolding set
  take-suc-set [] i v h = absurd (omega arith)
  take-suc-set (x ∷ xs) zero v h = refl
  take-suc-set (x ∷ xs) (suc i) v h = ap (λ l. x ∷ l) (take-suc-set xs i v (omega arith))

  drop_all : (n : ℕ) (xs : List A) → length xs ≤ n → drop n xs ≡ []
  drop_all zero [] h = refl
  drop_all zero (x ∷ xs) h = absurd (omega arith)
  drop_all (suc n) [] h = refl
  drop_all (suc n) (x ∷ xs) h = drop_all n xs (omega arith)

  -- A write at the oldest place of a full ring, read in order.
  full_view :
      (xs : List A) (i cap : ℕ) (v : A)
      → length xs ≡ cap
      → i < cap
      → drop ((i + 1) % cap) (set xs i v) ++ take ((i + 1) % cap) (set xs i v)
        ≡ drop 1 ((drop i xs ++ take i xs) ++ v ∷ [])
  full_view xs i cap v len inside =
      let (x, _, cut) = get_elem?-drop i xs (omega arith) in
      elim (Bool-cases (ltb (i + 1) cap)) [
        | inl more ↦
            let e : (i + 1) % cap ≡ suc i = mod-eq_of_lt (ground arith) ∙ omega arith in
            rw (e, drop-set xs i v, take-suc-set xs i v (omega arith), cut)
              (sym (append_assoc (drop (suc i) xs) (take i xs) (v ∷ [])))
        | inr last ↦
            let e : (i + 1) % cap ≡ 0 =
              mod-eq-sub-mod (ground arith)
              ∙ (let d : i + 1 - cap ≡ 0 = ground arith in rw d (mod-eq_of_lt (omega arith))) in
            let end : drop (suc i) xs ≡ [] = drop_all (suc i) xs (ground arith) in
            rw (e, cut, end, append-nil)
              (sym (take_all (suc i) (set xs i v) (rw (length-set xs i v) (ground arith)))
                ∙ take-suc-set xs i v (omega arith))
      ]

module _ {F : Type 0} where
  put-IsRing : (cap : ℕ) (rec : Record F) (r : Ring F) → IsRing cap r → IsRing cap (put cap rec r)
  unfolding put
  put-IsRing cap rec r w = elim (Bool-cases (ltb (length r.items) cap)) [
    | inl room ↦ rw room (record {
      bounded = ground (arith, length-append r.items (rec ∷ []));
      partly = λ h. w.partly (ground arith);
      inside = w.inside;
    })
    | inr full ↦ rw full (record {
      bounded = rw (length-set r.items r.next rec) w.bounded;
      partly = λ h. absurd (ground (arith, length-set r.items r.next rec));
      inside = mod-lt (r.next + 1) (omega (arith, w.inside));
    })
  ]

  length-view : (r : Ring F) → length (view r) ≡ length r.items
  length-view r = omega (
    arith,
    length-append (drop r.next r.items) (take r.next r.items),
    length-append (take r.next r.items) (drop r.next r.items),
    ap length (take-append-drop r.next r.items),
  )

  view-put :
      (cap : ℕ) (rec : Record F) (r : Ring F)
      → IsRing cap r
      → view (put cap rec r) ≡ remember_last cap rec (view r)
  unfolding put
  view-put cap rec r w = elim (Bool-cases (ltb (length r.items) cap)) [
    | inl room ↦
        let start = w.partly (ground arith) in
        let few : suc (length (r.items ++ [])) - cap ≡ 0 =
          ground (arith, length-append r.items []) in
        rw (room, start, few) (rw (append-nil, append-nil) refl)
    | inr full ↦
        let len : length r.items ≡ cap = ground (arith, w.bounded) in
        let one : suc (length (view r)) - cap ≡ 1 = omega (arith, length-view r, len) in
        rw (full, one) (full_view r.items r.next cap rec len w.inside)
  ]

  -- All records of a bucket stored one after the other, from an empty ring.
  unfoldable pub put_all : ℕ → List (Record F) → Ring F → Ring F
  put_all cap [] r = r
  put_all cap (rec ∷ recs) r = put_all cap recs (put cap rec r)

  drop-suc : (n : ℕ) (xs : List (Record F)) → drop 1 (drop n xs) ≡ drop (suc n) xs
  drop-suc zero xs = refl
  drop-suc (suc n) [] = refl
  drop-suc (suc n) (x ∷ xs) = drop-suc n xs

  drop-append :
      (n : ℕ) (xs ys : List (Record F)) → n ≤ length xs → drop n (xs ++ ys) ≡ drop n xs ++ ys
  drop-append zero xs ys h = refl
  drop-append (suc n) [] ys h = absurd (omega arith)
  drop-append (suc n) (x ∷ xs) ys h = drop-append n xs ys (omega arith)

  remember_last-drop :
      (cap : ℕ) (rec : Record F) (done : List (Record F))
      → remember_last cap rec (drop (length done - cap) done)
        ≡ drop (length (done ++ rec ∷ []) - cap) (done ++ rec ∷ [])
  remember_last-drop cap rec done = elim (Bool-cases (ltb (length done) cap)) [
    | inl room ↦
        let none : length done - cap ≡ 0 = ground arith in
        let few : suc (length done) - cap ≡ 0 = ground arith in
        let few' : length (done ++ rec ∷ []) - cap ≡ 0 =
          ground (arith, length-append done (rec ∷ [])) in
        rw (none, few, few') refl
    | inr full ↦
        let k = length done - cap in
        let one : suc (length (drop k done)) - cap ≡ 1 = ground (arith, length-drop k done) in
        let next : length (done ++ rec ∷ []) - cap ≡ suc k =
          ground (arith, length-append done (rec ∷ [])) in
        rw (one, next, ← drop-append k done (rec ∷ []) (omega arith))
          (drop-suc k (done ++ rec ∷ []))
  ]

  view-put_all :
      (cap : ℕ) (recs done : List (Record F)) (r : Ring F)
      → IsRing cap r
      → view r ≡ drop (length done - cap) done
      → view (put_all cap recs r) ≡ drop (length (done ++ recs) - cap) (done ++ recs)
  unfolding put_all
  view-put_all cap [] done r w h = rw (append-nil) h
  view-put_all cap (rec ∷ recs) done r w h = rw (← append_assoc done (rec ∷ []) recs) (
      view-put_all cap recs (done ++ rec ∷ []) (put cap rec r) (put-IsRing cap rec r w)
        (view-put cap rec r w ∙ rw h (remember_last-drop cap rec done)))

  -- From an empty ring.
  pub view-put_all_last :
      (room : ℕ) (recs : List (Record F))
      → 0 < room
      → view (put_all room recs (ring_of none)) ≡ drop (length recs - room) recs
  view-put_all_last room recs h =
      view-put_all room recs [] (ring_of none)
        (record { bounded = omega arith; partly = λ _. refl; inside = h })
        (let z : 0 - room ≡ 0 = omega arith in rw z refl)
