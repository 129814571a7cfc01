-- ===== src/Access/Register/Windows.antt =====
-- How many registrations one address gets (`allow` of
-- backend/internal/server/middleware/register_ratelimit.go).
use gateway_llm.Prelude.{
  ℕ, ◌+◌, ◌≤◌, ◌≡◌, refl, sym, subst, String, Bool, true, false, ◌&&◌, List, [], ◌∷◌, arith, str_eq,
  if◌then◌else◌, Bool-cases, inl, inr,
}
use gateway_llm.Prelude.Int.{ℤ}
use gateway_llm.Router.State.{lookup}
use gateway_llm.Access.Register.{
  RegisterRateLimit, new_register_rate_limit, hits_of, allow_register,
}
use gateway_llm.Access.Register.Counting.{
  count_from, AllFrom, AllUpTo, Sorted, count_late, AllFrom-weaken, AllUpTo-weaken,
}
use gateway_llm.Access.Register.Table.{Unique}
use gateway_llm.Access.Register.Steps.{Moves, entry, stepped}

-- The times at which an address is admitted.
unfoldable pub admitted : String → RegisterRateLimit → List (ℕ × String) → List ℕ
admitted ip rl [] = []
admitted ip rl ((now, who) ∷ calls) =
    let (ok, rl') = allow_register now who rl in
    let later = admitted ip rl' calls in if ok && str_eq who ip then now ∷ later else later

-- Calls in the order of their times, from a start.
abbrev pub InOrder : ℕ → List (ℕ × String) → Type 0
InOrder start [] = Unit
InOrder start ((now, who) ∷ calls) = (start ≤ now) × InOrder now calls

AllFrom-admitted :
    (ip : String) (rl : RegisterRateLimit) (start : ℕ) (calls : List (ℕ × String))
    → InOrder start calls
    → AllFrom start (admitted ip rl calls)
unfolding admitted
AllFrom-admitted ip rl start [] o = tt
AllFrom-admitted ip rl start ((now, who) ∷ calls) o =
    let rl' = (allow_register now who rl).1 in
    let later =
      AllFrom-weaken start now (admitted ip rl' calls) o.0
        (AllFrom-admitted ip rl' now calls o.1) in
    elim (Bool-cases ((allow_register now who rl).0 && str_eq who ip)) [
      | inl e ↦ rw e (o.0, later)
      | inr e ↦ rw e later
    ]

-- The step of the count: what was there, what this call admits, and what later calls admit.
count_step :
    (from window now limit : ℕ) (ok : Bool) (h h' later : List ℕ)
    → Moves now window limit h h' (entry ok now)
    → AllFrom now later
    → count_from from window h ≤ limit
    → (count_from from window h ≤ limit
        → count_from from window h' + count_from from window later ≤ limit)
    → count_from from window h + count_from from window (if ok then now ∷ later else later) ≤ limit
count_step from window now limit true h h' later m late le next =
    ground (arith, count_late from window now later late, m.covers from, m.fits from)
count_step from window now limit false h h' later m late le next =
    ground (arith, count_late from window now later late, m.covers from, m.fits from)

bounded :
    (ip : String) (from start : ℕ) (rl : RegisterRateLimit) (calls : List (ℕ × String))
    → Unique rl.hits
    → Sorted (hits_of (lookup ip rl.hits))
    → AllUpTo start (hits_of (lookup ip rl.hits))
    → InOrder start calls
    → count_from from rl.window (hits_of (lookup ip rl.hits)) ≤ rl.limit
    → count_from from rl.window (hits_of (lookup ip rl.hits))
        + count_from from rl.window (admitted ip rl calls)
      ≤ rl.limit
unfolding admitted
bounded ip from start rl [] un s u o le = omega (arith, le)
bounded ip from start rl ((now, who) ∷ calls) un s u o le =
    let st =
      stepped now who ip rl un s (AllUpTo-weaken start now (hits_of (lookup ip rl.hits)) o.0 u) in
    let rl' = (allow_register now who rl).1 in
    let h' = hits_of (lookup ip rl'.hits) in
    let later = admitted ip rl' calls in
    count_step from rl.window now rl.limit ((allow_register now who rl).0 && str_eq who ip)
      (hits_of (lookup ip rl.hits)) h' later st.moves (AllFrom-admitted ip rl' now calls o.1) le
      (λ le'.
        subst
          (λ w.
            count_from from w h' ≤ rl.limit
            → count_from from w h' + count_from from w later ≤ rl.limit)
          st.same_window
          (subst
            (λ l.
              count_from from rl'.window h' ≤ l
              → count_from from rl'.window h' + count_from from rl'.window later ≤ l)
            st.same_limit
            (bounded ip from now rl' calls st.unique st.moves.sorted st.moves.up_to o.1))
          (st.moves.fits from le'))

-- Whatever addresses call, and at whatever times in order, an address is admitted at most `limit`
-- times at or after any time and before the end of the window that starts there; `limit` is 5 and
-- the window an hour where NewRegisterRateLimit gets no positive number.
pub admitted-bounded :
    (limit window : ℤ) (ip : String) (calls : List (ℕ × String)) (from : ℕ)
    → InOrder 0 calls
    → let rl = new_register_rate_limit limit window in
      count_from from rl.window (admitted ip rl calls) ≤ rl.limit
unfolding new_register_rate_limit
admitted-bounded limit window ip calls from o =
    let rl = new_register_rate_limit limit window in
    let none_yet : hits_of (lookup ip rl.hits) ≡ [] = unfold lookup in refl in
    omega (
      arith,
      bounded ip from 0 rl calls tt (subst Sorted (sym none_yet) tt)
          (subst (AllUpTo 0) (sym none_yet) tt) o
          (subst (λ h. count_from from rl.window h ≤ rl.limit) (sym none_yet) (omega arith)),
    )
