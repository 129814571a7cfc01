-- ===== src/Access/RateLimit/Rpm.antt =====
-- How many requests of a key pass in one window, with the local counters
-- (backend/internal/server/middleware/ratelimit.go and backend/internal/cache/redis.go).
use Prim.Native.String.{◌++◌}
use gateway_llm.Prelude.{
  ℕ, suc, ◌+◌, ◌-◌, ◌%◌, ◌≤◌, ◌<◌, ◌≡◌, refl, ◌∙◌, String, true, false, some, List, [], ◌∷◌, length,
  ltb, leb, arith, eq_iff, if◌then◌else◌, Bool-cases, inl, inr,
}
use gateway_llm.Prelude.Int.{pos, nonpos}
use gateway_llm.Router.State.{lookup, store, lookup-store}
use gateway_llm.Access.Auth.{ApiKey, Context, Outcome, passed, rejected}
use gateway_llm.Access.Counters.{
  Cache, LocalItem, Redis, is_stale, gt_int64, local_increment_by, increment_by_window,
}
use gateway_llm.Access.RateLimit.{
  RateLimitConfig, limit_of, window_of, is_management_path, rate_limit, check_requests,
  check_tokens, check_caller,
}

abbrev tally : Outcome → ℕ → ℕ
tally (passed ctx) n = suc n
tally (rejected status message) n = n

-- All of the first times are at most the end.
abbrev pub AllBy : ℕ → List (ℕ × ℕ) → Type 0
AllBy end [] = Unit
AllBy end ((t, u) ∷ rest) = (t ≤ end) × AllBy end rest

module _ {W : Type 0} (redis : Redis W) (cfg : RateLimitConfig) where
  -- How many of the requests at those times pass.
  unfoldable pub served : String → Context → List (ℕ × ℕ) → Cache → W → ℕ
  served path ctx [] c w = 0
  served path ctx ((t, u) ∷ rest) c w =
      let (o, c', w') = rate_limit redis cfg t u path ctx c w in
      tally o (served path ctx rest c' w')

-- A counter of k that is alive becomes k + 1, and one that is stale becomes 1.
increment_alive :
    (t : ℕ) (key : String) (window k end : ℕ) (items : List (String × LocalItem))
    → lookup key items ≡ some (record { value = k; expires_at = end })
    → t ≤ end
    → suc k < 9223372036854775808
    → local_increment_by t key 1 window items
      ≡ (suc k, store key (record { value = suc k; expires_at = end }) items)
unfolding local_increment_by
increment_alive t key window k end items e h b =
    let alive : ltb end t ≡ false = ground arith in
    let no_wrap : (k + 1) % 18446744073709551616 ≡ suc k = ground arith in
    rw (e, alive, no_wrap) refl

increment_stale :
    (t : ℕ) (key : String) (window : ℕ) (items : List (String × LocalItem))
    → is_stale t (lookup key items) ≡ true
    → local_increment_by t key 1 window items
      ≡ (1, store key (record { value = 1; expires_at = t + window }) items)
unfolding local_increment_by
increment_stale t key window items e = rw e refl

tally_step :
    (ctx : Context) (k limit n : ℕ)
    → suc limit < 9223372036854775808
    → suc k + n < 9223372036854775808
    → tally
        (if gt_int64 (suc k) (suc limit)
          then rejected 429 "rate limit exceeded (RPM)"
          else passed ctx)
        (if leb (suc k + n) (suc limit) then n else suc limit - suc k)
      ≡ (if leb (k + suc n) (suc limit) then suc n else suc limit - k)
tally_step ctx k limit n l b = elim (Bool-cases (gt_int64 (suc k) (suc limit))) [
  | inl over ↦ rw over (ground arith)
  | inr under ↦ rw under (ground arith)
]

module _ {W : Type 0} (redis : Redis W) (cfg : RateLimitConfig) (path : String) (ctx : Context)
    (key : ApiKey) (who : ctx.api_key ≡ some key) (user : ctx.is_master ≡ false)
    (plane : is_management_path path ≡ false) (limit : ℕ)
    (rpm : limit_of cfg.default_rpm key.rpm_limit ≡ pos (suc limit))
    (no_tpm : nonpos (limit_of cfg.default_tpm key.tpm_limit) ≡ true) where
  -- One request, where the counter becomes n.
  one_request :
      (t u n : ℕ) (items items' : List (String × LocalItem)) (w : W)
      → local_increment_by t ("rpm:" ++ key.id) 1 (window_of cfg.window) items ≡ (n, items')
      → rate_limit redis cfg t u path ctx (record { available = false; items = items }) w ≡ (
        if gt_int64 n (suc limit) then rejected 429 "rate limit exceeded (RPM)" else passed ctx,
        record { available = false; items = items' },
        w,
      )
  unfolding rate_limit check_caller check_requests check_tokens increment_by_window
  one_request t u n items items' w e =
      let limits : leb (suc limit) 0 ≡ false = ground arith in
      elim (Bool-cases (gt_int64 n (suc limit))) [
        | inl over ↦ simp (who, user, plane, rpm, e, over, limits) refl
        | inr under ↦ simp (who, user, plane, rpm, e, under, no_tpm, limits) refl
      ]

  -- From a counter of k that lives until the end.
  served_from :
      (rest : List (ℕ × ℕ)) (k end : ℕ) (items : List (String × LocalItem)) (w : W)
      → lookup ("rpm:" ++ key.id) items ≡ some (record { value = k; expires_at = end })
      → AllBy end rest
      → suc limit < 9223372036854775808
      → k + length rest < 9223372036854775808
      → served redis cfg path ctx rest (record { available = false; items = items }) w
        ≡ (if leb (k + length rest) (suc limit) then length rest else suc limit - k)
  unfolding served
  served_from [] k end items w e by l b = ground arith
  served_from ((t, u) ∷ rest) k end items w e by l b =
      let items' = store ("rpm:" ++ key.id) (record { value = suc k; expires_at = end }) items in
      let step = one_request t u (suc k) items items' w (
        increment_alive t ("rpm:" ++ key.id) (window_of cfg.window) k end items e by.0
          (omega (arith, b))) in
      let kept : lookup ("rpm:" ++ key.id) items'
          ≡ some (record { value = suc k; expires_at = end }) =
        lookup-store ("rpm:" ++ key.id) ("rpm:" ++ key.id)
          (record { value = suc k; expires_at = end }) items
        ∙ rw ((eq_iff ("rpm:" ++ key.id) ("rpm:" ++ key.id)).1 refl) refl in
      let ih = served_from rest (suc k) end items' w kept by.1 l (omega (arith, b)) in
      rw (step, ih) (tally_step ctx k limit (length rest) l (omega (arith, b)))

-- With the local counters and no limit on tokens, of the requests of a key (not the master key, and
-- not on the management plane) that arrive from the first one, which finds no living counter, to
-- the end of the window that it starts, exactly the first n pass, or all if there are fewer; n is
-- the limit of requests, which is positive (n = limit + 1), and n and their number are below 2 ^ 63.
pub rate_limit-window :
    {W : Type 0} (redis : Redis W) (cfg : RateLimitConfig) (path : String) (ctx : Context)
    (key : ApiKey) (limit t u : ℕ) (rest : List (ℕ × ℕ)) (items : List (String × LocalItem)) (w : W)
    → ctx.api_key ≡ some key
    → ctx.is_master ≡ false
    → is_management_path path ≡ false
    → limit_of cfg.default_rpm key.rpm_limit ≡ pos (suc limit)
    → nonpos (limit_of cfg.default_tpm key.tpm_limit) ≡ true
    → is_stale t (lookup ("rpm:" ++ key.id) items) ≡ true
    → AllBy (t + window_of cfg.window) rest
    → suc limit < 9223372036854775808
    → suc (length rest) < 9223372036854775808
    → served redis cfg path ctx ((t, u) ∷ rest) (record { available = false; items = items }) w
      ≡ (if leb (suc (length rest)) (suc limit) then suc (length rest) else suc limit)
unfolding served
rate_limit-window redis cfg path ctx key limit t u rest items w who user plane rpm no_tpm stale by l
      b =
    let id = "rpm:" ++ key.id in
    let end = t + window_of cfg.window in
    let items' = store id (record { value = 1; expires_at = end }) items in
    let step =
      one_request redis cfg path ctx key who user plane limit rpm no_tpm t u 1 items items' w
        (increment_stale t id (window_of cfg.window) items stale) in
    let kept : lookup id items' ≡ some (record { value = 1; expires_at = end }) =
      lookup-store id id (record { value = 1; expires_at = end }) items
      ∙ rw ((eq_iff id id).1 refl) refl in
    let later =
      served_from redis cfg path ctx key who user plane limit rpm no_tpm rest 1 end items' w kept by
        l (omega (arith, b)) in
    rw (step, later) (tally_step ctx 0 limit (length rest) l (omega (arith, b)) ∙ ground arith)
