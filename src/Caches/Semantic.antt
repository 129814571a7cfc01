-- ===== src/Caches/Semantic.antt =====
-- The semantic cache of backend/internal/semcache/semcache.go. A call's clock and the embedder's
-- answer to its text are arguments; the arithmetic of float64 is a parameter. Loggers are left out.
pub mod Latest
pub mod Stores
pub mod Best
mod Tests
use gateway_llm.Prelude.{
  ℕ, ◌+◌, ◌%◌, String, Bool, true, false, not, ◌&&◌, ◌||◌, Option, none, some, List, [], ◌∷◌, ◌++◌,
  length, ltb, ◌==◌, str_eq, zero, suc, if◌then◌else◌,
}
use gateway_llm.Prelude.Int.{ℤ, pos, nonpos, pos_part}
use gateway_llm.Router.State.{lookup, store}
use gateway_llm.Prelude.Floats.{Floats, zero_float}

pub record Entry (F : Type 0) : Type 0 where
  pub body : List ℕ
  pub provider : String
  pub provider_model : String
  pub prompt_tokens : ℤ
  pub completion_tokens : ℤ
  pub cost_usd : F
  pub stored_at : ℕ

pub record Config (F : Type 0) : Type 0 where
  pub enabled : Bool
  pub similarity_min : F
  pub max_entries : ℤ
  pub ttl : ℤ

-- One stored vector with its entry. The zero time is 0.
pub record Record (F : Type 0) : Type 0 where
  pub vec : List F
  pub entry : Entry F
  pub expires : ℕ

pub record Ring (F : Type 0) : Type 0 where
  pub items : List (Record F)
  pub next : ℕ

-- `embeds` says that there is an embedder.
pub record Cache (F : Type 0) : Type 0 where
  pub cfg : Config F
  pub embeds : Bool
  pub buckets : List (String × Ring F)
  pub hits : ℕ
  pub misses : ℕ

-- Entry, similarity and whether it is a hit.
pub record Found (F : Type 0) : Type 0 where
  pub entry : Option (Entry F)
  pub similarity : F
  pub hit : Bool

-- xs[i] = v
pub set {ℓ} : {A : Type ℓ} → List A → ℕ → A → List A
set [] i v = []
set (x ∷ xs) zero v = v ∷ xs
set (x ∷ xs) (suc i) v = x ∷ set xs i v

module _ {F : Type 0} where
  -- Enabled
  unfoldable pub enabled : Option (Cache F) → Bool
  enabled none = false
  enabled (some c) = c.cfg.enabled && c.embeds

  -- The end of Store: an append while there is room, and then over the oldest.
  unfoldable pub put : ℕ → Record F → Ring F → Ring F
  unfolding set
  put cap rec r =
      if ltb (length r.items) cap
      then record r { items = r.items ++ rec ∷ [] }
      else record { items = set r.items r.next rec; next = (r.next + 1) % cap }

  abbrev pub ring_of : Option (Ring F) → Ring F
  ring_of none = record { items = []; next = 0 }
  ring_of (some r) = r

  -- len(vec) == 0
  abbrev pub is_empty : List F → Bool
  is_empty [] = true
  is_empty (x ∷ xs) = false

  -- Store, after the embedder's answer.
  unfoldable pub keep_vector : ℕ → ℕ → String → List F → Entry F → Cache F → Cache F
  unfolding put lookup store
  keep_vector stored_at now bucket vec entry c =
      let rec : Record F = record {
        vec = vec;
        entry = record entry { stored_at = stored_at };
        expires = now + pos_part c.cfg.ttl;
      } in
      record c {
        buckets =
            store bucket (put (pos_part c.cfg.max_entries) rec (ring_of (lookup bucket c.buckets)))
              c.buckets;
      }

  keep_answer : ℕ → ℕ → String → Option (List F) → Entry F → Cache F → Cache F
  unfolding keep_vector
  keep_answer stored_at now bucket none entry c = c
  keep_answer stored_at now bucket (some vec) entry c =
      if is_empty vec then c else keep_vector stored_at now bucket vec entry c

  -- Store, with the two readings of the clock.
  unfoldable pub remember :
      ℕ → ℕ → String → String → Option (List F) → Option (Entry F) → Cache F → Cache F
  unfolding keep_answer
  remember stored_at now bucket text answer none c = c
  remember stored_at now bucket text answer (some entry) c =
      if not (enabled (some c)) || str_eq text ""
      then c
      else keep_answer stored_at now bucket answer entry c

  -- Stats
  unfoldable pub stats : Option (Cache F) → ℕ × ℕ
  stats none = (0, 0)
  stats (some c) = (c.hits, c.misses)

  -- The entry has not expired.
  unfoldable pub is_live : ℕ → Record F → Bool
  is_live now rec = rec.expires == 0 || not (ltb rec.expires now)

module _ {F : Type 0} (fl : Floats F) where
  -- New
  unfoldable pub new : Config F → Bool → Cache F
  new cfg embeds = record {
    cfg = record cfg {
      max_entries = if nonpos cfg.max_entries then pos 256 else cfg.max_entries;
      similarity_min =
          if fl.less cfg.similarity_min (zero_float fl)
            || fl.equal cfg.similarity_min (zero_float fl)
          then fl.ratio 92 100
          else cfg.similarity_min;
      ttl = if nonpos cfg.ttl then pos 1800000000000 else cfg.ttl;
    };
    embeds = embeds;
    buckets = [];
    hits = 0;
    misses = 0;
  }

  -- The loop of cosine: the dot product and the two squares.
  sums : List F → List F → F → F → F → F × F × F
  sums (x ∷ a) (y ∷ b) dot na nb =
      sums a b (fl.plus dot (fl.times x y)) (fl.plus na (fl.times x x)) (fl.plus nb (fl.times y y))
  sums a b dot na nb = (dot, na, nb)

  -- cosine
  unfoldable pub cosine : List F → List F → F
  unfolding sums
  cosine a b =
      let nought = zero_float fl in
      let (dot, na, nb) = sums a b nought nought nought in
      if is_empty a || not (length a == length b) || fl.equal na nought || fl.equal nb nought
      then nought
      else fl.quotient dot (fl.times (fl.sqrt na) (fl.sqrt nb))

  -- One turn of the loop of Lookup.
  unfoldable pub consider : ℕ → List F → Record F → Option (Record F) × F → Option (Record F) × F
  unfolding is_live cosine
  consider now vec rec (best, sim) =
      if not (is_live now rec)
      then (best, sim)
      else (if fl.less sim (cosine vec rec.vec)
          then (some rec, cosine vec rec.vec)
          else (best, sim))

  -- The loop of Lookup.
  unfoldable pub scan : ℕ → List F → List (Record F) → Option (Record F) × F → Option (Record F) × F
  unfolding consider
  scan now vec [] best = best
  scan now vec (rec ∷ items) best = scan now vec items (consider now vec rec best)

  -- The test of the best one, and the counters.
  unfoldable pub conclude : Option (Record F) × F → Cache F → Found F × Cache F
  conclude (none, sim) c =
      (record { entry = none; similarity = sim; hit = false }, record c { misses = c.misses + 1 })
  conclude (some best, sim) c =
      if fl.less sim c.cfg.similarity_min
      then (
        record { entry = none; similarity = sim; hit = false },
        record c { misses = c.misses + 1 },
      )
      else (
        record { entry = some best.entry; similarity = sim; hit = true },
        record c { hits = c.hits + 1 },
      )

  abbrev pub not_found : Found F
  not_found = record { entry = none; similarity = zero_float fl; hit = false }

  unfoldable pub find_in : ℕ → List F → Option (Ring F) → Cache F → Found F × Cache F
  unfolding scan conclude
  find_in now vec none c = (not_found, record c { misses = c.misses + 1 })
  find_in now vec (some r) c = conclude (scan now vec r.items (none, zero_float fl)) c

  find_answer : ℕ → String → Option (List F) → Cache F → Found F × Cache F
  unfolding find_in lookup
  find_answer now bucket none c = (not_found, c)
  find_answer now bucket (some vec) c =
      if is_empty vec then (not_found, c) else find_in now vec (lookup bucket c.buckets) c

  -- Lookup
  unfoldable pub find : ℕ → String → String → Option (List F) → Cache F → Found F × Cache F
  unfolding find_answer enabled
  find now bucket text answer c =
      if not (enabled (some c)) || str_eq text ""
      then (not_found, c)
      else find_answer now bucket answer c
