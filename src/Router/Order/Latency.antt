-- ===== src/Router/Order/Latency.antt =====
-- `leastLatency` of backend/internal/router/router.go.
use mathlib.Core.List.{Perm, append-nil, perm_middle}
use mathlib.Core.List.Perm
use gateway_llm.Prelude.{
  ℕ, ◌+◌, ◌≤◌, ◌<◌, ◌≡◌, refl, false, some, List, [], ◌∷◌, ◌++◌, map, arith, ltb, Bool-cases, inl,
  inr,
}
use gateway_llm.Router.Deployment.{DeploymentInfo, Heap}
use gateway_llm.Router.State.{ModelRouter, Rand}
use gateway_llm.Router.Sort.{unwind}
use gateway_llm.Router.Sort.Laws.{AllOf, unwind-perm}
use gateway_llm.Router.Order.{
  insert_latency, latency_loop, with_latency, first_of_pair, least_latency,
}

abbrev pub Timed : Type 0
Timed = DeploymentInfo × ℕ

insert_latency-perm :
    (rand : Rand) (k : ℕ) (x : Timed) (ys : List Timed)
    → Perm (insert_latency rand k x ys).0 (x ∷ ys)
unfolding insert_latency
insert_latency-perm rand k x [] = Perm.refl (x ∷ [])
insert_latency-perm rand k x (y ∷ ys) = elim (Bool-cases (ltb (x.1 + rand k 10) y.1)) [
  | inl e ↦
      rw e (Perm.trans (Perm.cons y (insert_latency-perm rand (k + 1) x ys)) (Perm.swap x y ys))
  | inr e ↦ rw e (Perm.refl (x ∷ y ∷ ys))
]

latency_loop-perm :
    (rand : Rand) (k : ℕ) (sorted xs : List Timed)
    → Perm (latency_loop rand k sorted xs).0 (xs ++ sorted)
unfolding latency_loop
latency_loop-perm rand k sorted [] = Perm.refl sorted
latency_loop-perm rand k sorted (x ∷ xs) =
    let (sorted', k') = insert_latency rand k x sorted in
    Perm.trans (latency_loop-perm rand k' sorted' xs) (
      Perm.trans (Perm.append_left xs (insert_latency-perm rand k x sorted))
        (perm_middle xs sorted))

-- The head of a list has at most 9 ms more than v, and v at most 9 ms more than the head.
abbrev pub HeadLe : ℕ → List Timed → Type 0
HeadLe v [] = Unit
HeadLe v (y ∷ ys) = y.1 ≤ v + 9

abbrev pub HeadGe : ℕ → List Timed → Type 0
HeadGe v [] = Unit
HeadGe v (y ∷ ys) = v ≤ y.1 + 9

abbrev pub NearlyDescends : List Timed → Type 0
NearlyDescends [] = Unit
NearlyDescends (x ∷ xs) = HeadLe x.1 xs × NearlyDescends xs

-- Each element has at most 9 ms more than the next.
abbrev pub NearlyAscends : List Timed → Type 0
NearlyAscends [] = Unit
NearlyAscends (x ∷ xs) = HeadGe x.1 xs × NearlyAscends xs

insert_latency-HeadLe :
    (rand : Rand) (k v : ℕ) (x : Timed) (ys : List Timed)
    → HeadLe v ys
    → x.1 ≤ v + 9
    → HeadLe v (insert_latency rand k x ys).0
unfolding insert_latency
insert_latency-HeadLe rand k v x [] h l = l
insert_latency-HeadLe rand k v x (y ∷ ys) h l = elim (Bool-cases (ltb (x.1 + rand k 10) y.1)) [
  | inl e ↦ rw e h
  | inr e ↦ rw e l
]

-- What math/rand documents of the numbers below 10.
abbrev pub Below10 : Rand → Type 0
Below10 rand = (k : ℕ) → rand k 10 < 10

near_enough : (x y j : ℕ) → ltb (x + j) y ≡ false → j < 10 → y ≤ x + 9
near_enough x y j e h = ground arith

insert_latency-NearlyDescends :
    (rand : Rand) (k : ℕ) (x : Timed) (ys : List Timed)
    → Below10 rand
    → NearlyDescends ys
    → NearlyDescends (insert_latency rand k x ys).0
unfolding insert_latency
insert_latency-NearlyDescends rand k x [] j h = (tt, tt)
insert_latency-NearlyDescends rand k x (y ∷ ys) j h =
    elim (Bool-cases (ltb (x.1 + rand k 10) y.1)) [
      | inl e ↦ rw e (
        insert_latency-HeadLe rand (k + 1) y.1 x ys h.0 (ground arith),
        insert_latency-NearlyDescends rand (k + 1) x ys j h.1,
      )
      | inr e ↦ rw e (near_enough x.1 y.1 (rand k 10) e (j k), h)
    ]

latency_loop-NearlyDescends :
    (rand : Rand) (k : ℕ) (sorted xs : List Timed)
    → Below10 rand
    → NearlyDescends sorted
    → NearlyDescends (latency_loop rand k sorted xs).0
unfolding latency_loop
latency_loop-NearlyDescends rand k sorted [] j h = h
latency_loop-NearlyDescends rand k sorted (x ∷ xs) j h =
    let (sorted', k') = insert_latency rand k x sorted in
    latency_loop-NearlyDescends rand k' sorted' xs j
      (insert_latency-NearlyDescends rand k x sorted j h)

abbrev JoinLe : List Timed → List Timed → Type 0
JoinLe [] acc = Unit
JoinLe (x ∷ xs) acc = HeadGe x.1 acc

join_next : (x : Timed) (xs acc : List Timed) → HeadLe x.1 xs → JoinLe xs (x ∷ acc)
join_next x [] acc h = tt
join_next x (y ∷ ys) acc h = h

join_nil : (xs : List Timed) → JoinLe xs []
join_nil [] = tt
join_nil (x ∷ xs) = tt

unwind-NearlyAscends :
    (xs acc : List Timed)
    → NearlyDescends xs
    → NearlyAscends acc
    → JoinLe xs acc
    → NearlyAscends (unwind xs acc)
unfolding unwind
unwind-NearlyAscends [] acc d a j = a
unwind-NearlyAscends (x ∷ xs) acc d a j =
    unwind-NearlyAscends xs (x ∷ acc) d.1 (j, a) (join_next x xs acc d.0)

-- The pairs keep the latency that was read.
module _ (h : Heap) where
  Reads : Timed → Type 0
  Reads p = p.1 ≡ (h p.0.addr).latency_ewma

  insert_latency-Reads :
      (rand : Rand) (k : ℕ) (x : Timed) (ys : List Timed)
      → Reads x
      → AllOf Reads ys
      → AllOf Reads (insert_latency rand k x ys).0
  unfolding insert_latency
  insert_latency-Reads rand k x [] p a = (p, tt)
  insert_latency-Reads rand k x (y ∷ ys) p a = elim (Bool-cases (ltb (x.1 + rand k 10) y.1)) [
    | inl e ↦ rw e (a.0, insert_latency-Reads rand (k + 1) x ys p a.1)
    | inr e ↦ rw e (p, a)
  ]

  latency_loop-Reads :
      (rand : Rand) (k : ℕ) (sorted xs : List Timed)
      → AllOf Reads sorted
      → AllOf Reads xs
      → AllOf Reads (latency_loop rand k sorted xs).0
  unfolding latency_loop
  latency_loop-Reads rand k sorted [] a b = a
  latency_loop-Reads rand k sorted (x ∷ xs) a b =
      let (sorted', k') = insert_latency rand k x sorted in
      latency_loop-Reads rand k' sorted' xs (insert_latency-Reads rand k x sorted b.0 a) b.1

  unwind-Reads :
      (xs acc : List Timed) → AllOf Reads xs → AllOf Reads acc → AllOf Reads (unwind xs acc)
  unfolding unwind
  unwind-Reads [] acc a b = b
  unwind-Reads (x ∷ xs) acc a b = unwind-Reads xs (x ∷ acc) a.1 (a.0, b)

  Reads-map : (deps : List DeploymentInfo) → AllOf Reads (map (with_latency h) deps)
  unfolding Reads
  Reads-map [] = tt
  Reads-map (d ∷ ds) = (refl, Reads-map ds)

  with_latency-first :
      (xs : List Timed) → AllOf Reads xs → map (with_latency h) (map first_of_pair xs) ≡ xs
  unfolding Reads
  with_latency-first [] a = refl
  with_latency-first ((d, t) ∷ xs) a = rw (with_latency-first xs a.1, a.0) refl

first-with_latency :
    (h : Heap) (deps : List DeploymentInfo) → map first_of_pair (map (with_latency h) deps) ≡ deps
first-with_latency h [] = refl
first-with_latency h (d ∷ ds) = rw (first-with_latency h ds) refl

-- leastLatency gives the deployments in another order, in which each has at most 9 ms more latency
-- than the next, and changes of the router nothing but the count of drawn numbers.
pub least_latency-nearly_sorted :
    (rand : Rand) (h : Heap) (deps : List DeploymentInfo) (r : ModelRouter)
    → Below10 rand
    → (out : List DeploymentInfo) × (k : ℕ) × (least_latency rand h deps r
        ≡ some (out, record r { draws = k }))
      × Perm out deps
      × NearlyAscends (map (with_latency h) out)
unfolding least_latency
least_latency-nearly_sorted rand h deps r j =
    let timed = map (with_latency h) deps in
    let sorted = (latency_loop rand r.draws [] timed).0 in
    let reads = latency_loop-Reads h rand r.draws [] timed tt (Reads-map h deps) in
    let ordered = unwind sorted [] in
    let near =
      unwind-NearlyAscends sorted [] (latency_loop-NearlyDescends rand r.draws [] timed j tt) tt
        (join_nil sorted) in
    let perm : Perm ordered timed =
      Perm.trans (unwind-perm sorted [])
        (rw append-nil (rw append-nil at (latency_loop-perm rand r.draws [] timed))) in
    (
      map first_of_pair ordered,
      (latency_loop rand r.draws [] timed).1,
      refl,
      rw (first-with_latency h deps) at (Perm.map first_of_pair perm),
      rw (with_latency-first h ordered (unwind-Reads h sorted [] reads tt)) near,
    )
