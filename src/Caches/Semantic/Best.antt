-- ===== src/Caches/Semantic/Best.antt =====
-- What Lookup finds in a bucket (backend/internal/semcache/semcache.go).
use gateway_llm.Prelude.{
  ℕ, ◌+◌, ◌≡◌, refl, sym, subst, String, true, false, Option, none, some, List, [], ◌∷◌, ◌⊎◌, inl,
  inr, Bool-cases, str_eq,
}
use gateway_llm.Router.State.{lookup}
use gateway_llm.Prelude.Floats.{Floats, IsOrder, zero_float}
use gateway_llm.Caches.Semantic.{
  Entry, Record, Ring, Cache, Found, ring_of, is_live, cosine, consider, scan, conclude, find,
  find_in, find_answer, is_empty, enabled,
}

module _ {F : Type 0} (fl : Floats F) (now : ℕ) (vec : List F) where
  -- A live record of the list with this entry and this similarity.
  abbrev pub Offers : List (Record F) → Entry F → F → Type 0
  Offers [] entry sim = ⊥
  Offers (rec ∷ items) entry sim =
      (rec.entry ≡ entry) × (is_live now rec ≡ true) × (cosine fl vec rec.vec ≡ sim)
      ⊎ Offers items entry sim

  -- No live record of the list is more similar.
  abbrev pub NoneAbove : F → List (Record F) → Type 0
  NoneAbove sim [] = Unit
  NoneAbove sim (rec ∷ items) =
      (is_live now rec ≡ true → fl.less sim (cosine fl vec rec.vec) ≡ false) × NoneAbove sim items

  abbrev OffersBest : List (Record F) → Option (Record F) → F → Type 0
  OffersBest items none sim = ⊥
  OffersBest items (some rec) sim = Offers items rec.entry sim

  -- The loop keeps what it started from, or finds a record that is more similar.
  abbrev Improves : List (Record F) → Option (Record F) × F → Option (Record F) × F → Type 0
  Improves items start result =
      ((result ≡ start) ⊎ (fl.less start.1 result.1 ≡ true) × OffersBest items result.0 result.1)
      × NoneAbove result.1 items

  module _ (order : IsOrder fl) where
    NoneAbove-mono :
        (a b : F) (items : List (Record F))
        → fl.less a b ≡ true
        → NoneAbove a items
        → NoneAbove b items
    NoneAbove-mono a b [] h all = tt
    NoneAbove-mono a b (rec ∷ items) h all = (
      λ live. elim (Bool-cases (fl.less b (cosine fl vec rec.vec))) [
        | inl above ↦
            let t = order.transitive a b (cosine fl vec rec.vec) h above in absurd (cc (all.0 live))
        | inr below ↦ below
      ],
      NoneAbove-mono a b items h all.1,
    )

    -- A record that is not more similar than the start is not more similar than the result.
    none_above_result :
        (rec : Record F) (items : List (Record F)) (start result : Option (Record F) × F)
        → (is_live now rec ≡ true → fl.less start.1 (cosine fl vec rec.vec) ≡ false)
        → (result ≡ start) ⊎ (fl.less start.1 result.1 ≡ true)
        → is_live now rec ≡ true
        → fl.less result.1 (cosine fl vec rec.vec) ≡ false
    none_above_result rec items start result h (inl same) live = rw same (h live)
    none_above_result rec items start result h (inr up) live =
        elim (Bool-cases (fl.less result.1 (cosine fl vec rec.vec))) [
          | inl above ↦
              let t = order.transitive start.1 result.1 (cosine fl vec rec.vec) up above in
              absurd (cc (h live))
          | inr below ↦ below
        ]

    Improves-skip :
        (rec : Record F) (items : List (Record F)) (start result : Option (Record F) × F)
        → (is_live now rec ≡ true → fl.less start.1 (cosine fl vec rec.vec) ≡ false)
        → Improves items start result
        → Improves (rec ∷ items) start result
    Improves-skip rec items start result h (inl same, all) =
        (inl same, (none_above_result rec items start result h (inl same), all))
    Improves-skip rec items start (none, sim) h (inr (up, of), all) = absurd of
    Improves-skip rec items start (some best, sim) h (inr (up, of), all) =
        (inr (up, inr of), (none_above_result rec items start (some best, sim) h (inr up), all))

    Improves-take :
        (rec : Record F) (items : List (Record F)) (start result : Option (Record F) × F)
        → is_live now rec ≡ true
        → fl.less start.1 (cosine fl vec rec.vec) ≡ true
        → Improves items (some rec, cosine fl vec rec.vec) result
        → Improves (rec ∷ items) start result
    Improves-take rec items start result live h (inl same, all) =
        let kept : NoneAbove (cosine fl vec rec.vec) items =
          subst (λ (r : Option (Record F) × F). NoneAbove r.1 items) same all in
        subst (λ (r : Option (Record F) × F). Improves (rec ∷ items) start r) (sym same)
          (inr (h, inl (refl, live, refl)), ((λ _. order.irreflexive _), kept))
    Improves-take rec items start (none, sim) live h (inr (up, of), all) = absurd of
    Improves-take rec items start (some best, sim) live h (inr (up, of), all) = (
      inr (order.transitive _ _ _ h up, inr of),
      (
        none_above_result rec items (some rec, cosine fl vec rec.vec) (some best, sim)
            (λ _. order.irreflexive _) (inr up),
        all,
      ),
    )

    Improves-turn :
        (rec : Record F) (items : List (Record F)) (start : Option (Record F) × F)
        → ((st : Option (Record F) × F) → Improves items st (scan fl now vec items st))
        → Improves (rec ∷ items) start (scan fl now vec items (consider fl now vec rec start))
    Improves-turn rec items (best, sim) ih =
        let P = λ (st : Option (Record F) × F).
          Improves (rec ∷ items) (best, sim) (scan fl now vec items st) in
        let skip = Improves-skip rec items (best, sim) (scan fl now vec items (best, sim)) in
        elim (Bool-cases (is_live now rec)) [
          | inr dead ↦
              let e : consider fl now vec rec (best, sim) ≡ (best, sim) =
                unfold consider in rw dead refl in
              subst P (sym e) (skip (λ live. cc) (ih (best, sim)))
          | inl live ↦ elim (Bool-cases (fl.less sim (cosine fl vec rec.vec))) [
            | inl more ↦
                let e : consider fl now vec rec (best, sim) ≡ (some rec, cosine fl vec rec.vec) =
                  unfold consider in rw (live, more) refl in
                subst P (sym e) (
                  Improves-take rec items (best, sim) _ live more
                    (ih (some rec, cosine fl vec rec.vec)))
            | inr less ↦
                let e : consider fl now vec rec (best, sim) ≡ (best, sim) =
                  unfold consider in rw (live, less) refl in
                subst P (sym e) (skip (λ _. less) (ih (best, sim)))
          ]
        ]

    Improves-scan :
        (items : List (Record F)) (start : Option (Record F) × F)
        → Improves items start (scan fl now vec items start)
    unfolding scan
    Improves-scan [] start = (inl refl, tt)
    Improves-scan (rec ∷ items) start = Improves-turn rec items start (Improves-scan items)

module _ {F : Type 0} (fl : Floats F) where
  -- The answer of Lookup over the records of a bucket, and the counters after it.
  pub data Judged (now : ℕ) (vec : List F) (items : List (Record F)) (c : Cache F)
      : Found F × Cache F → Type 0 where
    hit :
        (entry : Entry F) (sim : F)
        → Offers fl now vec items entry sim
        → NoneAbove fl now vec sim items
        → fl.less (zero_float fl) sim ≡ true
        → fl.less sim c.cfg.similarity_min ≡ false
        → Judged now vec items c (
          record { entry = some entry; similarity = sim; hit = true },
          record c { hits = c.hits + 1 },
        )
    miss :
        (sim : F)
        → NoneAbove fl now vec sim items
        → (sim ≡ zero_float fl) ⊎ (fl.less sim c.cfg.similarity_min ≡ true)
        → Judged now vec items c (
          record { entry = none; similarity = sim; hit = false },
          record c { misses = c.misses + 1 },
        )

  Judged-conclude :
      (now : ℕ) (vec : List F) (items : List (Record F)) (c : Cache F)
      → (result : Option (Record F) × F) → Improves fl now vec items (none, zero_float fl) result
      → Judged now vec items c (conclude fl result c)
  unfolding conclude
  Judged-conclude now vec items c (none, sim) (inl same, all) = miss sim all (inl (cc))
  Judged-conclude now vec items c (none, sim) (inr (up, of), all) = absurd of
  Judged-conclude now vec items c (some best, sim) (inl same, all) = absurd (cc)
  Judged-conclude now vec items c (some best, sim) (inr (up, of), all) =
      elim (Bool-cases (fl.less sim c.cfg.similarity_min)) [
        | inl low ↦ rw low (miss sim all (inr low))
        | inr high ↦ rw high (hit best.entry sim of all up high)
      ]

  Judged-find_in :
      (now : ℕ) (vec : List F) (c : Cache F) (r : Option (Ring F))
      → IsOrder fl
      → Judged now vec (ring_of r).items c (find_in fl now vec r c)
  unfolding find_in
  Judged-find_in now vec c none order = miss (zero_float fl) tt (inl refl)
  Judged-find_in now vec c (some r) order =
      Judged-conclude now vec r.items c _
        (Improves-scan fl now vec order r.items (none, zero_float fl))

  -- On an enabled cache with an embedder that gives a vector which is not empty for a text which is
  -- not empty, Lookup answers with the entry of a live record of the bucket to which no live record
  -- of the bucket is preferable by its similarity, which is above zero and at least SimilarityMin,
  -- and counts a hit; or it answers with none, counts a miss, and no live record is above the
  -- similarity that it tells, which is zero or below SimilarityMin. Not-a-number similarities
  -- included, where the order of floats is irreflexive and transitive.
  pub find-Judged :
      (now : ℕ) (bucket text : String) (vec : List F) (c : Cache F)
      → IsOrder fl
      → enabled (some c) ≡ true
      → str_eq text "" ≡ false
      → is_empty vec ≡ false
      → Judged now vec
          (ring_of (lookup bucket c.buckets)).items
          c
          (find fl now bucket text (some vec) c)
  unfolding find find_answer
  find-Judged now bucket text vec c order on given full =
      rw (on, given, full) (Judged-find_in now vec c (lookup bucket c.buckets) order)
