-- ===== src/SmartRoute/Shadow.antt =====
-- The runner of shadow requests of backend/internal/smartroute/shadow.go: `Acquire` and the release
-- that it returns as the atomic accesses that they make, for any number of goroutines. There are
-- fewer than 2 ^ 63 goroutines, so that the count in flight does not wrap.
use gateway_llm.Prelude.{
  ℕ, ◌+◌, ◌-◌, ◌%◌, ◌≤◌, ◌≡◌, refl, sym, ap, ◌∙◌, String, List, [], ◌∷◌, ◌++◌, arith, ltb, str_eq,
  if◌then◌else◌,
}
use gateway_llm.Prelude.Int.{ℤ, nonpos, pos_part}

-- ShadowRunner
pub record ShadowRunner : Type 0 where
  pub max_concurrent : ℕ
  pub inflight : ℕ
  pub launched : ℕ
  pub completed : ℕ
  pub wins : ℕ
  pub losses : ℕ

-- NewShadowRunner
unfoldable pub new_shadow_runner : ℤ → ShadowRunner
new_shadow_runner n = record {
  max_concurrent = if nonpos n then 8 else pos_part n;
  inflight = 0;
  launched = 0;
  completed = 0;
  wins = 0;
  losses = 0;
}

-- Add(1) on a uint64
abbrev pub add_one : ℕ → ℕ
add_one n = (n + 1) % 18446744073709551616

-- Where a goroutine stands: before Acquire; after the count went over the limit, with its Add(-1)
-- to come; after it was admitted, with the count of launches to come; with the release in hand;
-- after the release; refused.
pub data Place : Type 0 where
  start over_limit admitted holding released refused : Place

-- The next atomic access of a goroutine at that place.
unfoldable pub access : Place → ShadowRunner → Place × ShadowRunner
access start s = (
  if ltb s.max_concurrent (s.inflight + 1) then over_limit else admitted,
  record s { inflight = s.inflight + 1 },
)
access over_limit s = (refused, record s { inflight = s.inflight - 1 })
access admitted s = (holding, record s { launched = add_one s.launched })
access holding s = (released, record s { inflight = s.inflight - 1 })
access released s = (released, s)
access refused s = (refused, s)

-- Observe
unfoldable pub observe : String → ShadowRunner → ShadowRunner
observe winner s = record s {
  completed = add_one s.completed;
  wins = if str_eq winner "shadow" then add_one s.wins else s.wins;
  losses = if str_eq winner "primary" then add_one s.losses else s.losses;
}

-- One goroutine of the pool makes its next access, or some result is observed.
pub data Step : List Place × ShadowRunner → List Place × ShadowRunner → Type 0 where
  move :
      (before after : List Place) (p : Place) (s : ShadowRunner)
      → Step (before ++ p ∷ after, s) (before ++ (access p s).0 ∷ after, (access p s).1)
  report :
      (places : List Place) (winner : String) (s : ShadowRunner)
      → Step (places, s) (places, observe winner s)

pub data Reach (x : List Place × ShadowRunner) : List Place × ShadowRunner → Type 0 where
  here : Reach x x
  next : {y z : List Place × ShadowRunner} → Reach x y → Step y z → Reach x z

abbrev pub sum_of : (Place → ℕ) → List Place → ℕ
sum_of w [] = 0
sum_of w (p ∷ ps) = w p + sum_of w ps

sum_of-append :
    (w : Place → ℕ) (ps qs : List Place) → sum_of w (ps ++ qs) ≡ sum_of w ps + sum_of w qs
sum_of-append w [] qs = omega arith
sum_of-append w (p ∷ ps) qs = omega (arith, sum_of-append w ps qs)

-- 1 where the goroutine has been counted in and not yet out.
abbrev pub is_counted : Place → ℕ
is_counted over_limit = 1
is_counted admitted = 1
is_counted holding = 1
is_counted _ = 0

-- 1 where the goroutine may run its shadow request.
abbrev pub is_running : Place → ℕ
is_running admitted = 1
is_running holding = 1
is_running _ = 0

-- 1 where its launch was counted.
abbrev pub is_launched : Place → ℕ
is_launched holding = 1
is_launched released = 1
is_launched _ = 0

-- No goroutine has begun.
abbrev pub AllStart : List Place → Type 0
AllStart [] = Unit
AllStart (p ∷ ps) = (p ≡ start) × AllStart ps

pub record IsBounded (limit : ℕ) (places : List Place) (s : ShadowRunner) : Type 0 where
  pub limit_kept : s.max_concurrent ≡ limit
  pub counted : s.inflight ≡ sum_of is_counted places
  pub running : sum_of is_running places ≤ limit
  pub launches : s.launched ≡ sum_of is_launched places % 18446744073709551616

running-le-counted : (ps : List Place) → sum_of is_running ps ≤ sum_of is_counted ps
running-le-counted [] = omega arith
running-le-counted (start ∷ ps) = omega (arith, running-le-counted ps)
running-le-counted (over_limit ∷ ps) = omega (arith, running-le-counted ps)
running-le-counted (admitted ∷ ps) = omega (arith, running-le-counted ps)
running-le-counted (holding ∷ ps) = omega (arith, running-le-counted ps)
running-le-counted (released ∷ ps) = omega (arith, running-le-counted ps)
running-le-counted (refused ∷ ps) = omega (arith, running-le-counted ps)

-- What one access does to the invariant, the other goroutines by their sums.
record IsBoundedBy (limit counted running launched : ℕ) (p : Place) (s : ShadowRunner)
    : Type 0 where
  limit_kept : s.max_concurrent ≡ limit
  counted_by : s.inflight ≡ counted + is_counted p
  running_by : running + is_running p ≤ limit
  launched_by : s.launched ≡ (launched + is_launched p) % 18446744073709551616

access-IsBoundedBy :
    (limit c r l : ℕ) (p : Place) (s : ShadowRunner)
    → r ≤ c
    → IsBoundedBy limit c r l p s
    → IsBoundedBy limit c r l (access p s).0 (access p s).1
unfolding access
access-IsBoundedBy limit c r l start s h b = ground arith
access-IsBoundedBy limit c r l over_limit s h b = ground arith
access-IsBoundedBy limit c r l admitted s h b = ground arith
access-IsBoundedBy limit c r l holding s h b = ground arith
access-IsBoundedBy limit c r l released s h b = b
access-IsBoundedBy limit c r l refused s h b = b

IsBounded-of_parts :
    (limit : ℕ) (before after : List Place) (p : Place) (s : ShadowRunner)
    → IsBoundedBy limit
        (sum_of is_counted before + sum_of is_counted after)
        (sum_of is_running before + sum_of is_running after)
        (sum_of is_launched before + sum_of is_launched after)
        p
        s
    → IsBounded limit (before ++ p ∷ after) s
IsBounded-of_parts limit before after p s b = record {
  limit_kept = b.limit_kept;
  counted = omega (arith, sum_of-append is_counted before (p ∷ after), b.counted_by);
  running = omega (arith, sum_of-append is_running before (p ∷ after), b.running_by);
  launches =
      rw (sum_of-append is_launched before (p ∷ after))
        (b.launched_by ∙ ap (λ n. n % 18446744073709551616) (omega arith));
}

parts_of-IsBounded :
    (limit : ℕ) (before after : List Place) (p : Place) (s : ShadowRunner)
    → IsBounded limit (before ++ p ∷ after) s
    → IsBoundedBy limit
        (sum_of is_counted before + sum_of is_counted after)
        (sum_of is_running before + sum_of is_running after)
        (sum_of is_launched before + sum_of is_launched after)
        p
        s
parts_of-IsBounded limit before after p s b = record {
  limit_kept = b.limit_kept;
  counted_by = omega (arith, sum_of-append is_counted before (p ∷ after), b.counted);
  running_by = omega (arith, sum_of-append is_running before (p ∷ after), b.running);
  launched_by =
      b.launches
      ∙ ap (λ n. n % 18446744073709551616)
          (omega (arith, sum_of-append is_launched before (p ∷ after)));
}

Step-IsBounded :
    {x y : List Place × ShadowRunner} (limit : ℕ)
    → Step x y
    → IsBounded limit x.0 x.1
    → IsBounded limit y.0 y.1
unfolding observe
Step-IsBounded limit (move before after p s) b =
    IsBounded-of_parts limit before after (access p s).0 (access p s).1 (
      access-IsBoundedBy limit _ _ _ p s
        (omega (arith, running-le-counted before, running-le-counted after))
        (parts_of-IsBounded limit before after p s b))
Step-IsBounded limit (report places winner s) b = record {
  limit_kept = b.limit_kept;
  counted = b.counted;
  running = b.running;
  launches = b.launches;
}

IsBounded-Reach :
    {x y : List Place × ShadowRunner} (limit : ℕ)
    → IsBounded limit x.0 x.1
    → Reach x y
    → IsBounded limit y.0 y.1
IsBounded-Reach limit b here = b
IsBounded-Reach limit b (next r st) = Step-IsBounded limit st (IsBounded-Reach limit b r)

start_sum : (w : Place → ℕ) (pool : List Place) → w start ≡ 0 → AllStart pool → sum_of w pool ≡ 0
start_sum w [] z h = refl
start_sum w (p ∷ pool) z (e, h) = rw e (omega (arith, start_sum w pool z h))

AllStart-IsBounded :
    (n : ℤ) (pool : List Place)
    → AllStart pool
    → IsBounded (new_shadow_runner n).max_concurrent pool (new_shadow_runner n)
unfolding new_shadow_runner
AllStart-IsBounded n pool h = record {
  limit_kept = refl;
  counted = omega (arith, start_sum is_counted pool refl h);
  running = omega (arith, start_sum is_running pool refl h);
  launches = ap (λ n. n % 18446744073709551616) (sym (start_sum is_launched pool refl h));
}

-- In every interleaving of any number of goroutines that call Acquire and the release on a new
-- runner, and of results that are observed, no more shadow requests run at once than the limit, the
-- count in flight is that of the goroutines that have added themselves and not yet taken themselves
-- out, and the count of launches is that of the goroutines that hold or held a release.
pub Reach-IsBounded :
    {places : List Place} {s : ShadowRunner} (n : ℤ) (pool : List Place)
    → AllStart pool
    → Reach (pool, new_shadow_runner n) (places, s)
    → IsBounded (new_shadow_runner n).max_concurrent places s
Reach-IsBounded n pool h r =
    IsBounded-Reach (new_shadow_runner n).max_concurrent (AllStart-IsBounded n pool h) r
