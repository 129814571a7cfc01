-- ===== src/Access/Register.antt =====
-- The limiter of registrations (backend/internal/server/middleware/register_ratelimit.go). Each
-- call is one step, since it holds the mutex. Times are nanoseconds; `now.Add(-window)` is left on
-- the other side of the comparison. The client's address is an argument, as `clientIP` finds it.
pub mod Counting
pub mod Table
pub mod Steps
pub mod Windows
use gateway_llm.Prelude.{
  ℕ, suc, ◌+◌, ◌<◌, String, Bool, true, false, Option, none, some, List, [], ◌∷◌, ◌++◌, length, ltb,
  leb, if◌then◌else◌,
}
use gateway_llm.Prelude.Int.{ℤ, pos, nonpos, pos_part}
use gateway_llm.Router.State.{lookup, store}

-- RegisterRateLimit
pub record RegisterRateLimit : Type 0 where
  pub hits : List (String × List ℕ)
  pub window : ℕ
  pub limit : ℕ

-- NewRegisterRateLimit: 5 per hour where an argument is not positive
unfoldable pub new_register_rate_limit : ℤ → ℤ → RegisterRateLimit
new_register_rate_limit limit window = record {
  hits = [];
  window = if nonpos window then 3600000000000 else pos_part window;
  limit = if nonpos limit then 5 else pos_part limit;
}

-- The loop that keeps the times after the cutoff.
unfoldable pub keep_after : ℕ → ℕ → List ℕ → List ℕ
keep_after now window [] = []
keep_after now window (t ∷ ts) =
    let rest = keep_after now window ts in if ltb now (t + window) then t ∷ rest else rest

-- The last time, none for an empty slice.
unfoldable pub last : List ℕ → Option ℕ
last [] = none
last (t ∷ ts) = let rest = last ts in elim rest [ none ↦ some t | some u ↦ some u ]

-- len(v) == 0 || v[len(v)-1].Before(cutoff)
unfoldable pub is_expired_entry : ℕ → ℕ → List ℕ → Bool
is_expired_entry now window ts = elim (last ts) [ none ↦ true | some t ↦ ltb (t + window) now ]

-- The loop that prunes the map.
unfoldable pub prune : ℕ → ℕ → List (String × List ℕ) → List (String × List ℕ)
prune now window [] = []
prune now window ((ip, ts) ∷ rest) =
    let kept = prune now window rest in
    if is_expired_entry now window ts then kept else (ip, ts) ∷ kept

abbrev pub hits_of : Option (List ℕ) → List ℕ
hits_of none = []
hits_of (some ts) = ts

-- allow
unfoldable pub allow_register : ℕ → String → RegisterRateLimit → Bool × RegisterRateLimit
allow_register now ip rl =
    let kept = keep_after now rl.window (hits_of (lookup ip rl.hits)) in
    let hits = store ip (kept ++ now ∷ []) rl.hits in
    if leb rl.limit (length kept)
    then (false, record rl { hits = store ip kept rl.hits })
    else (if ltb 1024 (length hits)
        then (true, record rl { hits = prune now rl.window hits })
        else (true, record rl { hits = hits }))
