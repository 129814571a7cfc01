-- ===== src/Access/Counters.antt =====
-- The counters of backend/internal/cache/redis.go. A counter is an int64 pattern. The state of
-- Redis is a type parameter and its commands are a parameter; each time at which a call reads the
-- clock is an argument.
use gateway_llm.Prelude.{
  ℕ, ◌+◌, ◌%◌, String, Bool, true, Option, none, some, List, ltb, if◌then◌else◌,
}
use gateway_llm.Prelude.Int.{ℤ, nonpos, pos_part}
use gateway_llm.Router.State.{lookup, store}

-- localItem
pub record LocalItem : Type 0 where
  pub value : ℕ
  pub expires_at : ℕ

-- Cache: whether Redis is available, and the local items.
pub record Cache : Type 0 where
  pub available : Bool
  pub items : List (String × LocalItem)

-- What GET answers: redis.Nil, another error, or a number.
pub data Reading : Type 0 where
  missing unreadable : Reading
  reads : ℕ → Reading

-- IncrBy and Expire in one pipeline (none if it fails), and Get.
pub record Redis (W : Type 0) : Type 0 where
  pub incr_expire : String → ℕ → ℕ → W → Option ℕ × W
  pub get : String → W → Reading × W

-- a + b on int64
abbrev pub add_int64 : ℕ → ℕ → ℕ
add_int64 a b = (a + b) % 18446744073709551616

-- a > b on int64
abbrev pub gt_int64 : ℕ → ℕ → Bool
gt_int64 a b =
    ltb ((b + 9223372036854775808) % 18446744073709551616)
      ((a + 9223372036854775808) % 18446744073709551616)

-- !ok || now.After(item.expiresAt)
abbrev pub is_stale : ℕ → Option LocalItem → Bool
is_stale now none = true
is_stale now (some item) = ltb item.expires_at now

abbrev value_of : Option LocalItem → ℕ
value_of none = 0
value_of (some item) = item.value

abbrev expiry_of : Option LocalItem → ℕ
expiry_of none = 0
expiry_of (some item) = item.expires_at

-- localIncrementBy
unfoldable pub local_increment_by :
    ℕ → String → ℕ → ℕ → List (String × LocalItem) → ℕ × List (String × LocalItem)
local_increment_by now key n window items =
    let item = lookup key items in
    let sum = add_int64 (value_of item) n in
    if is_stale now item
    then (n, store key (record { value = n; expires_at = now + window }) items)
    else (sum, store key (record { value = sum; expires_at = expiry_of item }) items)

-- localGet
unfoldable pub local_get : ℕ → String → List (String × LocalItem) → ℕ
local_get now key items =
    let item = lookup key items in if is_stale now item then 0 else value_of item

local_increment : ℕ → String → ℕ → ℕ → Cache → ℕ × Cache
local_increment now key n window c =
    let (v, items) = local_increment_by now key n window c.items in (v, record c { items = items })

module _ {W : Type 0} (redis : Redis W) where
  on_incremented : Option ℕ × W → ℕ → String → ℕ → ℕ → Cache → ℕ × Cache × W
  unfolding local_increment
  on_incremented (some v, w) now key n window c = (v, c, w)
  on_incremented (none, w) now key n window c =
      let (v, c') = local_increment now key n window c in (v, c', w)

  -- IncrementByWindow and redisIncrementBy; the error that they return is always nil.
  unfoldable pub increment_by_window : ℕ → String → ℤ → ℕ → Cache → W → ℕ × Cache × W
  unfolding on_incremented local_increment
  increment_by_window now key n window c w =
      let by = if nonpos n then 1 else pos_part n in
      if c.available
      then on_incremented (redis.incr_expire key by window w) now key by window c
      else on_incremented (none, w) now key by window c

  on_read : Reading × W → ℕ → String → Cache → ℕ × W
  on_read (missing, w) now key c = (0, w)
  on_read (unreadable, w) now key c = (local_get now key c.items, w)
  on_read (reads v, w) now key c = (v, w)

  -- GetCounter; the error that it returns is always nil.
  unfoldable pub get_counter : ℕ → String → Cache → W → ℕ × W
  unfolding on_read
  get_counter now key c w =
      if c.available then on_read (redis.get key w) now key c else (local_get now key c.items, w)
