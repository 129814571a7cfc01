-- ===== src/Caches/Semantic/Stores.antt =====
-- A series of calls of Store, bucket by bucket (backend/internal/semcache/semcache.go).
use gateway_llm.Prelude.{
  ℕ, ◌+◌, ◌-◌, ◌<◌, ◌≡◌, refl, String, true, Option, none, some, List, [], ◌∷◌, ◌++◌, ◌||◌, not,
  length, drop, str_eq, eq_iff, if◌then◌else◌, Bool-cases, inl, inr, arith, sym, ◌∙◌, ap,
}
use gateway_llm.Prelude.Int.{ℤ, pos_part}
use gateway_llm.Router.State.{lookup, lookup-store}
use gateway_llm.Prelude.Floats.{Floats}
use gateway_llm.Caches.Semantic.{
  Entry, Config, Record, Ring, Cache, ring_of, is_empty, new, enabled, remember, keep_answer,
  keep_vector, put,
}
use gateway_llm.Caches.Semantic.Latest.{view, put_all, view-put_all_last}

-- The arguments of one call of Store, with its clock and the embedder's answer.
pub record Call (F : Type 0) : Type 0 where
  pub stored_at : ℕ
  pub now : ℕ
  pub bucket : String
  pub text : String
  pub answer : Option (List F)
  pub entry : Option (Entry F)

module _ {F : Type 0} where
  abbrev pub store_call : Call F → Cache F → Cache F
  store_call k c = remember k.stored_at k.now k.bucket k.text k.answer k.entry c

  unfoldable pub store_all : List (Call F) → Cache F → Cache F
  store_all [] c = c
  store_all (k ∷ calls) c = store_all calls (store_call k c)

  -- The record that a call stores in a bucket, if it stores one there.
  abbrev made : ℤ → String → Call F → Option (List F) → Option (Entry F) → List (Record F)
  made ttl b k none entry = []
  made ttl b k (some vec) none = []
  made ttl b k (some vec) (some entry) =
      if str_eq k.text "" || is_empty vec || not (str_eq k.bucket b)
      then []
      else record {
        vec = vec;
        entry = record entry { stored_at = k.stored_at };
        expires = k.now + pos_part ttl;
      }
        ∷ []

  abbrev pub made_by : ℤ → String → List (Call F) → List (Record F)
  made_by ttl b [] = []
  made_by ttl b (k ∷ calls) = made ttl b k k.answer k.entry ++ made_by ttl b calls

  -- What the calls leave alone.
  record Kept (c c' : Cache F) : Type 0 where
    cfg : c'.cfg ≡ c.cfg
    embeds : c'.embeds ≡ c.embeds

  Kept-remember :
      (s n : ℕ) (b text : String) (answer : Option (List F)) (entry : Option (Entry F))
      (c : Cache F)
      → Kept c (remember s n b text answer entry c)
  unfolding remember keep_answer keep_vector
  Kept-remember s n b text answer none c = record { cfg = refl; embeds = refl }
  Kept-remember s n b text none (some entry) c = ground arith
  Kept-remember s n b text (some vec) (some entry) c = ground arith

  bucket-remember :
      (k : Call F) (b : String) (answer : Option (List F)) (entry : Option (Entry F)) (c : Cache F)
      → enabled (some c) ≡ true
      → ring_of (lookup b (remember k.stored_at k.now k.bucket k.text answer entry c).buckets)
        ≡ put_all
            (pos_part c.cfg.max_entries)
            (made c.cfg.ttl b k answer entry)
            (ring_of (lookup b c.buckets))
  unfolding remember keep_answer keep_vector put_all
  bucket-remember k b none none c on = refl
  bucket-remember k b none (some entry) c on = rw on (ground arith)
  bucket-remember k b (some vec) none c on = refl
  bucket-remember k b (some vec) (some entry) c on = elim (Bool-cases (str_eq k.text "")) [
    | inl no_text ↦ rw (on, no_text) refl
    | inr text ↦ elim (Bool-cases (is_empty vec)) [
      | inl nil ↦ rw (on, text, nil) refl
      | inr vector ↦ elim (Bool-cases (str_eq k.bucket b)) [
        | inl here ↦
            let e : k.bucket ≡ b = (eq_iff k.bucket b).0 here in
            rw (on, text, vector, lookup-store b k.bucket _ c.buckets, here) (rw e refl)
        | inr there ↦ rw (on, text, vector, lookup-store b k.bucket _ c.buckets, there) refl
      ]
    ]
  ]

  put_all-append :
      (n : ℕ) (xs ys : List (Record F)) (r : Ring F)
      → put_all n (xs ++ ys) r ≡ put_all n ys (put_all n xs r)
  unfolding put_all
  put_all-append n [] ys r = refl
  put_all-append n (x ∷ xs) ys r = put_all-append n xs ys (put n x r)

  bucket-store_all :
      (b : String) (calls : List (Call F)) (c : Cache F)
      → enabled (some c) ≡ true
      → ring_of (lookup b (store_all calls c).buckets)
        ≡ put_all
            (pos_part c.cfg.max_entries)
            (made_by c.cfg.ttl b calls)
            (ring_of (lookup b c.buckets))
  unfolding store_all put_all
  bucket-store_all b [] c on = refl
  bucket-store_all b (k ∷ calls) c on =
      let kept = Kept-remember k.stored_at k.now k.bucket k.text k.answer k.entry c in
      let on' : enabled (some (store_call k c)) ≡ true =
        unfold enabled in rw (kept.cfg, kept.embeds) (unfold enabled in on) in
      let first = bucket-remember k b k.answer k.entry c on in
      let n = pos_part c.cfg.max_entries in
      bucket-store_all b calls (store_call k c) on'
      ∙ ap
          (λ (cfg : Config F).
            put_all (pos_part cfg.max_entries) (made_by cfg.ttl b calls)
              (ring_of (lookup b (store_call k c).buckets)))
          (kept.cfg)
      ∙ ap (put_all n (made_by c.cfg.ttl b calls)) (first)
      ∙ sym (
          put_all-append n (made c.cfg.ttl b k k.answer k.entry) (made_by c.cfg.ttl b calls)
            (ring_of (lookup b c.buckets)))

module _ {F : Type 0} (fl : Floats F) where
  -- After any series of calls of Store on a new, enabled cache with an embedder, the ring of every
  -- bucket, read from the place of the next write on, is the list of the records that these calls
  -- made for that bucket, cut to the last MaxEntries of them. A call makes a record exactly if its
  -- text is not empty, its entry is not nil, and the embedder gives a vector that is not empty.
  pub store_all-latest :
      (cfg : Config F) (calls : List (Call F)) (b : String)
      → cfg.enabled ≡ true
      → (let c = new fl cfg true in
          let recs = made_by c.cfg.ttl b calls in
          view (ring_of (lookup b (store_all calls c).buckets))
          ≡ drop (length recs - pos_part c.cfg.max_entries) recs)
  store_all-latest cfg calls b on =
      let c = new fl cfg true in
      let room : 0 < pos_part c.cfg.max_entries = unfold new in ground arith in
      let on' : enabled (some c) ≡ true = unfold enabled new in rw on refl in
      let empty : ring_of (lookup b c.buckets) ≡ ring_of none = unfold new lookup in refl in
      let recs = made_by c.cfg.ttl b calls in
      ap view
        (bucket-store_all b calls c on' ∙ ap (put_all (pos_part c.cfg.max_entries) recs) (empty))
      ∙ view-put_all_last (pos_part c.cfg.max_entries) (made_by c.cfg.ttl b calls) room
