-- ===== src/Access/Register/Counting.antt =====
-- Counts of times in a window, for the limiter of
-- backend/internal/server/middleware/register_ratelimit.go.
use gateway_llm.Prelude.{
  ℕ, suc, ◌+◌, ◌≤◌, ◌<◌, ◌≡◌, refl, true, ◌&&◌, some, List, [], ◌∷◌, ◌++◌, length, ltb, leb, arith,
  if◌then◌else◌, Bool-cases, inl, inr,
}
use gateway_llm.Access.Register.{keep_after, last, is_expired_entry}

-- How many of the times are at or after `from` and before `from + window`.
abbrev pub count_from : ℕ → ℕ → List ℕ → ℕ
count_from from window [] = 0
count_from from window (t ∷ ts) =
    let rest = count_from from window ts in
    if leb from t && ltb t (from + window) then suc rest else rest

abbrev pub AllFrom : ℕ → List ℕ → Type 0
AllFrom start [] = Unit
AllFrom start (t ∷ ts) = (start ≤ t) × AllFrom start ts

abbrev pub AllUpTo : ℕ → List ℕ → Type 0
AllUpTo now [] = Unit
AllUpTo now (t ∷ ts) = (t ≤ now) × AllUpTo now ts

abbrev pub Sorted : List ℕ → Type 0
Sorted [] = Unit
Sorted (t ∷ ts) = AllFrom t ts × Sorted ts

pub count-keep_after :
    (now window from : ℕ) (ts : List ℕ)
    → now < from + window
    → count_from from window (keep_after now window ts) ≡ count_from from window ts
unfolding keep_after
count-keep_after now window from [] h = refl
count-keep_after now window from (t ∷ ts) h = ground (arith, count-keep_after now window from ts h)

pub count-append :
    (from window : ℕ) (xs ys : List ℕ)
    → count_from from window (xs ++ ys) ≡ count_from from window xs + count_from from window ys
count-append from window [] ys = omega arith
count-append from window (x ∷ xs) ys = ground (arith, count-append from window xs ys)

pub count-length : (from window : ℕ) (ts : List ℕ) → count_from from window ts ≤ length ts
count-length from window [] = omega arith
count-length from window (t ∷ ts) = ground (arith, count-length from window ts)

-- Times that are all too late are not counted.
pub count_late :
    (from window now : ℕ) (ts : List ℕ)
    → AllFrom now ts
    → from + window ≤ now
    → count_from from window ts ≡ 0
count_late from window now [] a h = refl
count_late from window now (t ∷ ts) a h = ground (arith, count_late from window now ts a.1 h)

pub AllFrom-weaken : (a b : ℕ) (ts : List ℕ) → a ≤ b → AllFrom b ts → AllFrom a ts
AllFrom-weaken a b [] h v = tt
AllFrom-weaken a b (t ∷ ts) h v = (omega (arith, v.0), AllFrom-weaken a b ts h v.1)

pub AllUpTo-weaken : (a b : ℕ) (ts : List ℕ) → a ≤ b → AllUpTo a ts → AllUpTo b ts
AllUpTo-weaken a b [] h v = tt
AllUpTo-weaken a b (t ∷ ts) h v = (omega (arith, v.0), AllUpTo-weaken a b ts h v.1)

AllFrom-keep_after :
    (a now window : ℕ) (ts : List ℕ) → AllFrom a ts → AllFrom a (keep_after now window ts)
unfolding keep_after
AllFrom-keep_after a now window [] v = tt
AllFrom-keep_after a now window (t ∷ ts) v = elim (Bool-cases (ltb now (t + window))) [
  | inl e ↦ rw e (v.0, AllFrom-keep_after a now window ts v.1)
  | inr e ↦ rw e (AllFrom-keep_after a now window ts v.1)
]

pub AllUpTo-keep_after :
    (a now window : ℕ) (ts : List ℕ) → AllUpTo a ts → AllUpTo a (keep_after now window ts)
unfolding keep_after
AllUpTo-keep_after a now window [] v = tt
AllUpTo-keep_after a now window (t ∷ ts) v = elim (Bool-cases (ltb now (t + window))) [
  | inl e ↦ rw e (v.0, AllUpTo-keep_after a now window ts v.1)
  | inr e ↦ rw e (AllUpTo-keep_after a now window ts v.1)
]

pub Sorted-keep_after :
    (now window : ℕ) (ts : List ℕ) → Sorted ts → Sorted (keep_after now window ts)
unfolding keep_after
Sorted-keep_after now window [] v = tt
Sorted-keep_after now window (t ∷ ts) v = elim (Bool-cases (ltb now (t + window))) [
  | inl e ↦ rw e (AllFrom-keep_after t now window ts v.0, Sorted-keep_after now window ts v.1)
  | inr e ↦ rw e (Sorted-keep_after now window ts v.1)
]

AllFrom-snoc : (a now : ℕ) (ts : List ℕ) → a ≤ now → AllFrom a ts → AllFrom a (ts ++ now ∷ [])
AllFrom-snoc a now [] h v = (h, tt)
AllFrom-snoc a now (t ∷ ts) h v = (v.0, AllFrom-snoc a now ts h v.1)

pub AllUpTo-snoc : (now : ℕ) (ts : List ℕ) → AllUpTo now ts → AllUpTo now (ts ++ now ∷ [])
AllUpTo-snoc now [] v = (omega arith, tt)
AllUpTo-snoc now (t ∷ ts) v = (v.0, AllUpTo-snoc now ts v.1)

pub Sorted-snoc : (now : ℕ) (ts : List ℕ) → AllUpTo now ts → Sorted ts → Sorted (ts ++ now ∷ [])
Sorted-snoc now [] u v = (tt, tt)
Sorted-snoc now (t ∷ ts) u v = (AllFrom-snoc t now ts u.0 v.0, Sorted-snoc now ts u.1 v.1)

last_latest :
    (t : ℕ) (ts : List ℕ)
    → Sorted (t ∷ ts)
    → (w : ℕ) × (last (t ∷ ts) ≡ some w) × AllUpTo w (t ∷ ts)
unfolding last
last_latest t [] v = (t, refl, (omega arith, tt))
last_latest t (u ∷ us) v =
    let (w, e, up) = last_latest u us v.1 in (w, rw e refl, (omega (arith, v.0.0, up.0), up))

count_early :
    (from window w : ℕ) (ts : List ℕ) → AllUpTo w ts → w < from → count_from from window ts ≡ 0
count_early from window w [] v h = refl
count_early from window w (t ∷ ts) v h = ground (arith, count_early from window w ts v.1 h)

-- The last of sorted times is the latest: where it is expired, all are.
pub count_expired :
    (from window now : ℕ) (ts : List ℕ)
    → Sorted ts
    → is_expired_entry now window ts ≡ true
    → now < from + window
    → count_from from window ts ≡ 0
unfolding is_expired_entry
count_expired from window now [] v e h = refl
count_expired from window now (t ∷ ts) v e h =
    let (w, at, up) = last_latest t ts v in
    let late : ltb (w + window) now ≡ true = rw (at, is_expired_entry) at e in
    count_early from window w (t ∷ ts) up (ground arith)

-- Keeping times counts no more of them.
pub count-keep_after_le :
    (now window from : ℕ) (ts : List ℕ)
    → count_from from window (keep_after now window ts) ≤ count_from from window ts
unfolding keep_after
count-keep_after_le now window from [] = omega arith
count-keep_after_le now window from (t ∷ ts) =
    ground (arith, count-keep_after_le now window from ts)
