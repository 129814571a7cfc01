-- ===== src/Router/Breaker/Interleaving.antt =====
-- `Allow` of backend/internal/router/circuit_breaker.go as the atomic accesses that it makes, for
-- any number of goroutines that call it at one time `now` with no report between.
use gateway_llm.Prelude.{
  ℕ, zero, suc, ◌+◌, ◌≤◌, ◌<◌, ◌≡◌, subst, Bool, true, false, List, [], ◌∷◌, ◌++◌, arith, ltb, ◌==◌,
  if◌then◌else◌,
}
use gateway_llm.Router.Breaker.{
  CircuitState, CircuitBreaker, circuit_closed, circuit_open, circuit_half_open,
}

-- Where a goroutine stands in `Allow`. `won` has changed the state to half-open and has not yet
-- stored the flag; `won_true`, `probe_true` and `plain_true` have returned true, by the state's
-- compare-and-swap, by the flag's, and with neither.
pub data Place : Type 0 where
  start reads_time swaps_state won swaps_probe won_true probe_true plain_true denied : Place

-- The next atomic access of a goroutine at that place.
load_state : CircuitState → Place
load_state circuit_closed = plain_true
load_state circuit_open = reads_time
load_state circuit_half_open = swaps_probe

load_time : ℕ → CircuitBreaker → Place
load_time now cb =
    if cb.opened_at == 0
    then plain_true
    else (if ltb now (cb.opened_at + cb.open_duration) then denied else swaps_state)

swap_state : CircuitState → CircuitBreaker → Place × CircuitBreaker
swap_state circuit_open cb = (won, record cb { state = circuit_half_open })
swap_state _ cb = (swaps_probe, cb)

swap_probe : Bool → CircuitBreaker → Place × CircuitBreaker
swap_probe true cb = (denied, cb)
swap_probe false cb = (probe_true, record cb { probe_in_flight = true })

pub access : ℕ → Place → CircuitBreaker → Place × CircuitBreaker
unfolding load_state load_time swap_state swap_probe
access now start cb = (load_state cb.state, cb)
access now reads_time cb = (load_time now cb, cb)
access now swaps_state cb = swap_state cb.state cb
access now won cb = (won_true, record cb { probe_in_flight = true })
access now swaps_probe cb = swap_probe cb.probe_in_flight cb
access now p cb = (p, cb)

-- One goroutine of the pool makes its next access.
pub data Step (now : ℕ) : List Place × CircuitBreaker → List Place × CircuitBreaker → Type 0 where
  move :
      (before after : List Place) (p : Place) (cb : CircuitBreaker)
      → Step now
          (before ++ p ∷ after, cb)
          (before ++ (access now p cb).0 ∷ after, (access now p cb).1)

pub data Reach (now : ℕ) (s : List Place × CircuitBreaker)
    : List Place × CircuitBreaker → Type 0 where
  here : Reach now s s
  next : {t u : List Place × CircuitBreaker} → Reach now s t → Step now t u → Reach now s u

abbrev pub sum_of : (Place → ℕ) → List Place → ℕ
sum_of w [] = 0
sum_of w (p ∷ ps) = w p + sum_of w ps

sum_of-append :
    (w : Place → ℕ) (ps qs : List Place) → sum_of w (ps ++ qs) ≡ sum_of w ps + sum_of w qs
sum_of-append w [] qs = omega arith
sum_of-append w (p ∷ ps) qs = omega (arith, sum_of-append w ps qs)

-- 1 where the goroutine has changed the state, waits for the flag, has taken it, or has returned
-- true with neither.
abbrev is_winner : Place → ℕ
is_winner won = 1
is_winner won_true = 1
is_winner _ = 0

abbrev is_stored : Place → ℕ
is_stored won_true = 1
is_stored _ = 0

abbrev is_waiting : Place → ℕ
is_waiting swaps_probe = 1
is_waiting _ = 0

abbrev is_prober : Place → ℕ
is_prober probe_true = 1
is_prober _ = 0

abbrev is_plain : Place → ℕ
is_plain plain_true = 1
is_plain _ = 0

abbrev pub is_admitted : Place → ℕ
is_admitted won_true = 1
is_admitted probe_true = 1
is_admitted plain_true = 1
is_admitted _ = 0

admitted-le :
    (ps : List Place)
    → sum_of is_admitted ps ≡ sum_of is_stored ps + sum_of is_prober ps + sum_of is_plain ps
admitted-le [] = omega arith
admitted-le (p ∷ ps) = ground (arith, admitted-le ps)

stored-le : (ps : List Place) → sum_of is_stored ps ≤ sum_of is_winner ps
stored-le [] = omega arith
stored-le (p ∷ ps) = ground (arith, stored-le ps)

-- The goroutines at each kind of place, against the breaker.
record Counted (winners stored waiting probers plain : ℕ) (cb : CircuitBreaker) : Type 0 where
  timed : 0 < cb.opened_at
  tripped : cb.state ≡ circuit_closed → 1 ≤ 0
  untouched :
      cb.state ≡ circuit_open
      → (winners ≡ 0) × (waiting ≡ 0) × (probers ≡ 0) × (cb.probe_in_flight ≡ false)
  one_winner : winners ≤ 1
  stored_winner : stored ≤ winners
  flag_free : cb.probe_in_flight ≡ false → (probers ≡ 0) × (stored ≡ 0)
  one_prober : probers ≤ 1
  no_plain : plain ≡ 0

access-Counted :
    (now : ℕ) (p : Place) (w s h q l : ℕ) (cb : CircuitBreaker)
    → Counted
        (is_winner p + w)
        (is_stored p + s)
        (is_waiting p + h)
        (is_prober p + q)
        (is_plain p + l)
        cb
    → s ≤ w
    → let p' = (access now p cb).0 in
      Counted
        (is_winner p' + w)
        (is_stored p' + s)
        (is_waiting p' + h)
        (is_prober p' + q)
        (is_plain p' + l)
        (access now p cb).1
unfolding access
access-Counted now start w s h q l cb v r = ground arith
access-Counted now _ w s h q l cb v r = ground arith

abbrev CountedPool : List Place × CircuitBreaker → Type 0
CountedPool (ps, cb) =
    Counted (sum_of is_winner ps) (sum_of is_stored ps) (sum_of is_waiting ps) (sum_of is_prober ps)
      (sum_of is_plain ps) cb

-- Of a pool, the place of one goroutine is taken out of the sum.
sum_of-middle :
    (w : Place → ℕ) (before after : List Place) (p : Place)
    → sum_of w (before ++ p ∷ after) ≡ w p + sum_of w (before ++ after)
sum_of-middle w before after p =
    omega (arith, sum_of-append w before (p ∷ after), sum_of-append w before after)

Step-Counted :
    {now : ℕ} {s t : List Place × CircuitBreaker} → Step now s t → CountedPool s → CountedPool t
Step-Counted {now} (move before after p cb) v = simp sum_of-middle (
    access-Counted now p (sum_of is_winner (before ++ after)) (sum_of is_stored (before ++ after))
      (sum_of is_waiting (before ++ after)) (sum_of is_prober (before ++ after))
      (sum_of is_plain (before ++ after)) cb (simp sum_of-middle at v)
      (stored-le (before ++ after)))

Reach-Counted :
    {now : ℕ} {s t : List Place × CircuitBreaker} → CountedPool s → Reach now s t → CountedPool t
Reach-Counted v here = v
Reach-Counted v (next r st) = Step-Counted st (Reach-Counted v r)

abbrev pub all_start : ℕ → List Place
all_start zero = []
all_start (suc n) = start ∷ all_start n

all_start-sums :
    (n : ℕ)
    → (sum_of is_winner (all_start n) ≡ 0)
      × (sum_of is_stored (all_start n) ≡ 0)
      × (sum_of is_waiting (all_start n) ≡ 0)
      × (sum_of is_prober (all_start n) ≡ 0)
      × (sum_of is_plain (all_start n) ≡ 0)
all_start-sums zero = omega arith
all_start-sums (suc n) = omega (arith, all_start-sums n)

-- Of any number of goroutines that call Allow at one time on an open breaker with a time of opening
-- and its flag clear, and with no report between, at most two have been admitted at any point of any
-- interleaving of their atomic accesses.
pub two_probes_at_most :
    (now n : ℕ) (cb cb' : CircuitBreaker) (ps : List Place)
    → cb.state ≡ circuit_open
    → 0 < cb.opened_at
    → cb.probe_in_flight ≡ false
    → Reach now (all_start n, cb) (ps, cb')
    → sum_of is_admitted ps ≤ 2
two_probes_at_most now n cb cb' ps s o f r =
    let v : CountedPool (all_start n, cb) = ground (arith, all_start-sums n) in
    let v' : CountedPool (ps, cb') = Reach-Counted v r in
    omega (arith, admitted-le ps, v'.stored_winner, v'.one_winner, v'.one_prober, v'.no_plain)

advance :
    {now : ℕ} {s : List Place × CircuitBreaker} (before after : List Place) (p p' : Place)
    (cb cb' : CircuitBreaker)
    → access now p cb ≡ (p', cb')
    → Reach now s (before ++ p ∷ after, cb)
    → Reach now s (before ++ p' ∷ after, cb')
advance {now} {s} before after p p' cb cb' e r =
    subst (λ q. Reach now s (before ++ q.0 ∷ after, q.1)) e (next r (move before after p cb))

-- Between the state's change and the store of the flag a second goroutine takes the flag too: after
-- the cooldown two concurrent calls of Allow on an open breaker can both be admitted, so the
-- half-open state does not always let a single probe through.
pub two_probes_reached :
    (now : ℕ) (cb : CircuitBreaker)
    → cb.state ≡ circuit_open
    → 0 < cb.opened_at
    → cb.probe_in_flight ≡ false
    → cb.opened_at + cb.open_duration ≤ now
    → (cb' : CircuitBreaker) × Reach now (all_start 2, cb) (won_true ∷ probe_true ∷ [], cb')
unfolding access
two_probes_reached now cb s o f h =
    let half : CircuitBreaker = record cb { state = circuit_half_open } in
    let taken : CircuitBreaker = record half { probe_in_flight = true } in
    let r₁ = advance {now = now} [] (start ∷ []) start reads_time cb cb (ground arith) here in
    let r₂ = advance [] (start ∷ []) reads_time swaps_state cb cb (ground arith) r₁ in
    let r₃ = advance [] (start ∷ []) swaps_state won cb half (ground arith) r₂ in
    let r₄ = advance (won ∷ []) [] start swaps_probe half half (ground arith) r₃ in
    let r₅ = advance (won ∷ []) [] swaps_probe probe_true half taken (ground arith) r₄ in
    (taken, advance [] (probe_true ∷ []) won won_true taken taken (ground arith) r₅)
