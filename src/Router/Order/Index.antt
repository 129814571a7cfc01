-- ===== src/Router/Order/Index.antt =====
-- Indices computed from a counter (backend/internal/router/router.go). A counter is a uint64, and
-- the source converts it to int: a pattern of 2 ^ 63 or more is negative there, and the remainder
-- of a negative int is negative or zero.
use gateway_llm.Prelude.{
  ℕ, zero, suc, ◌+◌, ◌-◌, ◌%◌, Option, none, some, List, [], ◌∷◌, length, get_elem?, ltb, ◌==◌,
  if◌then◌else◌,
}

abbrev pub u64_mod : ℕ
u64_mod = 18446744073709551616

abbrev pub int_max : ℕ
int_max = 9223372036854775808

infixl 5 ◌>>=◌
abbrev pub ◌>>=◌ {ℓ κ} : {A : Type ℓ} {B : Type κ} → Option A → (A → Option B) → Option B
none >>= f = none
some a >>= f = f a

-- int(x) % n as an index: none if it is negative.
unfoldable pub int_index : ℕ → ℕ → Option ℕ
int_index x n =
    if ltb x int_max then some (x % n) else (if (u64_mod - x) % n == 0 then some 0 else none)

-- counter.Add(1)
unfoldable pub next_count : ℕ → ℕ
next_count c = (c + 1) % u64_mod

module _ {ℓ} {A : Type ℓ} where
  -- The loop that fills ordered[i], ordered[i + 1], ... from xs at the index that `at` computes.
  unfoldable pub gather : (ℕ → Option ℕ) → ℕ → ℕ → List A → Option (List A)
  gather at i zero xs = some []
  gather at i (suc k) xs = do
    j ← at i
    x ← get_elem? xs j
    rest ← gather at (i + 1) k xs
    some (x ∷ rest)

  -- ordered[i] = group[(idx + i) % n], for an index idx that is not negative
  unfoldable pub rotate : ℕ → List A → Option (List A)
  unfolding gather
  rotate idx group = gather (λ i. some ((idx + i) % length group)) 0 (length group) group
