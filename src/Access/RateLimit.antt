-- ===== src/Access/RateLimit.antt =====
-- The rate limiter of backend/internal/server/middleware/ratelimit.go. The first time argument is
-- the clock when the request counter is changed, the second when the token counter is read.
pub mod Rpm
use Prim.Native.String.{◌++◌}
use gateway_llm.Prelude.{
  ℕ, ◌+◌, String, Bool, true, false, not, ◌||◌, Option, none, some, List, [], ◌∷◌, ◌==◌, str_eq,
  if◌then◌else◌,
}
use gateway_llm.Prelude.Int.{ℤ, pos, nonpos, pos_part}
use gateway_llm.Access.Auth.{ApiKey, Context, Outcome, passed, rejected, trim_prefix}
use gateway_llm.Access.Counters.{Cache, Redis, increment_by_window, get_counter, gt_int64}

-- config.RateLimitConfig
pub record RateLimitConfig : Type 0 where
  pub default_rpm : ℤ
  pub default_tpm : ℤ
  pub window : ℕ

abbrev has_prefix : String → String → Bool
has_prefix prefix s = elim (trim_prefix prefix s) [ none ↦ false | some rest ↦ true ]

-- isManagementPath
unfoldable pub is_management_path : String → Bool
is_management_path p =
    has_prefix "/v1/management" p
    || str_eq p "/v1/models"
    || str_eq p "/v1/routes"
    || str_eq p "/v1/deployments"

-- The window, one minute where it is zero.
abbrev pub window_of : ℕ → ℕ
window_of window = if window == 0 then 60000000000 else window

-- The key's own limit where it is positive, else the default.
abbrev pub limit_of : ℤ → Option ℤ → ℤ
limit_of standard none = standard
limit_of standard (some n) = if nonpos n then standard else n

module _ {W : Type 0} (redis : Redis W) (cfg : RateLimitConfig) where
  -- The check of the tokens: the counter is read only.
  check_tokens : ℕ → ApiKey → Context → Cache → W → Outcome × Cache × W
  check_tokens read_at key ctx c w =
      let limit = limit_of cfg.default_tpm key.tpm_limit in
      let (used, w') = get_counter redis read_at ("tpm:" ++ key.id) c w in
      if nonpos limit
      then (passed ctx, c, w)
      else (if gt_int64 (pos_part limit) used
          then (passed ctx, c, w')
          else (rejected 429 "rate limit exceeded (TPM)", c, w'))

  -- The check of the requests, which counts this one.
  check_requests : ℕ → ℕ → ApiKey → Context → Cache → W → Outcome × Cache × W
  unfolding check_tokens
  check_requests counted_at read_at key ctx c w =
      let limit = limit_of cfg.default_rpm key.rpm_limit in
      let (count, c', w') =
        increment_by_window redis counted_at ("rpm:" ++ key.id) (pos 1) (window_of cfg.window) c
          w in
      if nonpos limit
      then check_tokens read_at key ctx c w
      else (if gt_int64 count (pos_part limit)
          then (rejected 429 "rate limit exceeded (RPM)", c', w')
          else check_tokens read_at key ctx c' w')

  check_caller : ℕ → ℕ → String → Option ApiKey → Context → Cache → W → Outcome × Cache × W
  unfolding check_requests
  check_caller counted_at read_at path none ctx c w = (passed ctx, c, w)
  check_caller counted_at read_at path (some key) ctx c w =
      if ctx.is_master || is_management_path path
      then (passed ctx, c, w)
      else check_requests counted_at read_at key ctx c w

  -- RateLimit
  unfoldable pub rate_limit : ℕ → ℕ → String → Context → Cache → W → Outcome × Cache × W
  unfolding check_caller
  rate_limit counted_at read_at path ctx c w =
      check_caller counted_at read_at path ctx.api_key ctx c w

module _ {W : Type 0} (redis : Redis W) where
  -- ConsumeTokens
  unfoldable pub consume_tokens : ℕ → Option Cache → String → ℤ → ℕ → W → Option Cache × W
  consume_tokens now none id tokens window w = (none, w)
  consume_tokens now (some c) id tokens window w =
      let (v, c', w') =
        increment_by_window redis now ("tpm:" ++ id) tokens (window_of window) c w in
      if nonpos tokens || str_eq id "" then (some c, w) else (some c', w')
