-- ===== src/Router/Order/Ties/Sorted.antt =====
-- Laws of the loop that rotates runs of equal elements (backend/internal/router/router.go).
use mathlib.Core.List.{Perm, append-nil, append_assoc}
use mathlib.Core.List.Perm
use gateway_llm.Prelude.{
  ℕ, suc, ◌+◌, ◌%◌, ◌≤◌, ◌<◌, ◌≡◌, refl, sym, subst, Bool, true, false, ◌&&◌, Option, some, List,
  [], ◌∷◌, ◌++◌, length, length-append, take, drop, ltb, arith, if◌then◌else◌, Bool-cases, inl, inr,
}
use gateway_llm.Router.Sort.Laws.{AllOf, AllOf-imp, AllOf-append, Ascends}
use gateway_llm.Router.Order.Ties.Segments.{
  AllOf-left, AllOf-right, AllOf-rotated, Ascends-right, Ascends-across, Ascends-append,
  Ascends-of_related,
}
use gateway_llm.Router.Order.Index.{int_index, next_count, int_max}
use gateway_llm.Router.Order.Rotation.{rotate-eq, drop_take-perm}
use gateway_llm.Router.Order.Ties.{close_run, after_run, rotate_runs, rotate_ties}

abbrev pub tally : Bool → ℕ
tally true = 1
tally false = 0

-- How many runs of two or more equal elements that may be rotated a list has, from an element on that
-- heads a run and of which it is known whether the run has another.
module _ {A : Type 0} (same : A → A → Bool) (rotates : A → Bool) where
  abbrev pub runs_from : A → Bool → List A → ℕ
  runs_from x more [] = tally (rotates x && more)
  runs_from x more (y ∷ ys) =
      let longer = runs_from x true ys in
      let next = tally (rotates x && more) + runs_from y false ys in
      if same y x then longer else next

  abbrev pub tie_runs : List A → ℕ
  tie_runs [] = 0
  tie_runs (x ∷ xs) = runs_from x false xs

-- A closed run: the elements of the run in another order.
record Closed {A : Type 0} (c : ℕ) (rotated : Bool) (run : List A) (res : Option (List A × ℕ))
    : Type 1 where
  out : List A
  count : ℕ
  returns : res ≡ some (out, count)
  perm : Perm out run
  counted : count ≡ c + tally rotated
  all : (P : A → Type 0) → AllOf P run → AllOf P out

int_index_small : (c n : ℕ) → c < int_max → int_index c n ≡ some (c % n)
unfolding int_index
int_index_small c n h = ground arith

pub next_count_small : (c : ℕ) → c < int_max → next_count c ≡ suc c
unfolding next_count
next_count_small c h = omega arith

close_run-Closed :
    {A : Type 0} (b : Bool) (c : ℕ) (x : A) (xs : List A)
    → c < int_max
    → Closed c b (x ∷ xs) (close_run b c (x ∷ xs))
unfolding close_run
close_run-Closed false c x xs h = record {
  out = x ∷ xs;
  count = c;
  returns = refl;
  perm = Perm.refl (x ∷ xs);
  counted = omega arith;
  all = λ P a. a;
}
close_run-Closed true c x xs h =
    let run = x ∷ xs in
    let idx : ℕ = c % length run in
    let start : ℕ = idx % length run in
    record {
      out = drop start run ++ take start run;
      count = suc c;
      returns =
          rw (int_index_small c (length run) h, rotate-eq idx x xs, next_count_small c h) refl;
      perm = drop_take-perm start run;
      counted = omega arith;
      all = λ P a. AllOf-rotated P start run a;
    }

-- What the loop leaves of a list that ascends by R, from a count c.
pub record Rotated {A : Type 0} (R : A → A → Type 0) (c runs : ℕ) (xs : List A)
    (res : Option (List A × ℕ)) : Type 1 where
  pub out : List A
  pub count : ℕ
  pub returns : res ≡ some (out, count)
  pub perm : Perm out xs
  pub counted : count ≡ c + runs
  pub few : runs ≤ length xs
  pub all : (P : A → Type 0) → AllOf P xs → AllOf P out
  pub ascends : Ascends R out

tally_small : (b : Bool) → tally b ≤ 1
tally_small true = omega arith
tally_small false = omega arith

-- Elements that the loop takes for equal are related both ways.
module _ {A : Type 0} (R : A → A → Type 0) (same : A → A → Bool) (rotates : A → Bool)
    (same_self : (x : A) → same x x ≡ true)
    (same_related : (x a b : A) → same a x ≡ true → same b x ≡ true → R a b) where
  Closed-Ascends :
      (c : ℕ) (b : Bool) (x : A) (run : List A) {res : Option (List A × ℕ)}
      (cl : Closed c b (x ∷ run) res)
      → AllOf (λ z. same z x ≡ true) run
      → Ascends R cl.out
  Closed-Ascends c b x run cl s =
      Ascends-of_related R (λ z. same z x ≡ true) cl.out (same_related x)
        (cl.all (λ z. same z x ≡ true) (same_self x, s))

  -- A closed run, followed by the rest of the list rotated.
  join_runs :
      (c runs : ℕ) (b : Bool) (run rest : List A) {res : Option (List A × ℕ)}
      (cl : Closed c b run res) (more : ℕ → Option (List A × ℕ))
      (r : Rotated R cl.count runs rest (more cl.count))
      → 0 < length run
      → Ascends R cl.out
      → AllOf (λ z. AllOf (R z) rest) run
      → Rotated R c (tally b + runs) (run ++ rest) (after_run res more)
  unfolding after_run
  join_runs c runs b run rest cl more r l asc across = record {
    out = cl.out ++ r.out;
    count = r.count;
    returns = rw (cl.returns, r.returns) refl;
    perm = Perm.append cl.perm r.perm;
    counted = omega (arith, cl.counted, r.counted);
    few = omega (arith, r.few, tally_small b, length-append {0} run rest);
    all = λ P a.
        AllOf-append P cl.out r.out (cl.all P (AllOf-left P run rest a))
          (r.all P (AllOf-right P run rest a));
    ascends = Ascends-append R cl.out r.out asc r.ascends (
        AllOf-imp (λ z. AllOf (R z) rest) (λ z. AllOf (R z) r.out) cl.out (λ z. r.all (R z))
          (cl.all (λ z. AllOf (R z) rest) across));
  }

  runs_end :
      (c : ℕ) (x : A) (run : List A)
      → rotate_runs same rotates c x run []
        ≡ close_run (rotates x && ltb 0 (length run)) c (x ∷ run)
  unfolding rotate_runs
  runs_end c x run = refl

  runs_longer :
      (c : ℕ) (x : A) (run : List A) (y : A) (ys : List A)
      → same y x ≡ true
      → rotate_runs same rotates c x run (y ∷ ys) ≡ rotate_runs same rotates c x (run ++ y ∷ []) ys
  unfolding rotate_runs
  runs_longer c x run y ys e = rw e refl

  runs_next :
      (c : ℕ) (x : A) (run : List A) (y : A) (ys : List A)
      → same y x ≡ false
      → rotate_runs same rotates c x run (y ∷ ys)
        ≡ after_run
            (close_run (rotates x && ltb 0 (length run)) c (x ∷ run))
            (λ c'. rotate_runs same rotates c' y [] ys)
  unfolding rotate_runs
  runs_next c x run y ys e = rw e refl

  rotate_runs-Rotated :
      (c : ℕ) (x : A) (run ys : List A)
      → c + length run + length ys < int_max
      → AllOf (λ z. same z x ≡ true) run
      → Ascends R (x ∷ run ++ ys)
      → Rotated R c
          (runs_from same rotates x (ltb 0 (length run)) ys)
          (x ∷ run ++ ys)
          (rotate_runs same rotates c x run ys)
  rotate_runs-Rotated c x run [] h s asc =
      let cl = close_run-Closed (rotates x && ltb 0 (length run)) c x run (omega arith) in
      rw (append-nil, runs_end c x run)
        (record {
          out = cl.out;
          count = cl.count;
          returns = cl.returns;
          perm = cl.perm;
          counted = cl.counted;
          few = omega (arith, tally_small (rotates x && ltb 0 (length run)));
          all = cl.all;
          ascends = Closed-Ascends c (rotates x && ltb 0 (length run)) x run cl s;
        })
  rotate_runs-Rotated c x run (y ∷ ys) h s asc = elim (Bool-cases (same y x)) [
    | inl e ↦
        let joined = append_assoc run (y ∷ []) ys in
        let ih =
          rotate_runs-Rotated c x (run ++ y ∷ []) ys (omega (arith, length-append {0} run (y ∷ [])))
            (AllOf-append (λ z. same z x ≡ true) run (y ∷ []) s (e, tt))
            (subst (λ l. Ascends R (x ∷ l)) (sym joined) asc) in
        let k = runs_from same rotates x true ys in
        let more : ltb 0 (length (run ++ y ∷ [])) ≡ true =
          ground (arith, length-append {0} run (y ∷ [])) in
        rw (runs_longer c x run y ys e, e)
          (subst (λ l. Rotated R c k (x ∷ l) (rotate_runs same rotates c x (run ++ y ∷ []) ys))
            joined (rw more at ih))
    | inr e ↦
        let cl = close_run-Closed (rotates x && ltb 0 (length run)) c x run (omega arith) in
        let ih =
          rotate_runs-Rotated cl.count y [] ys
            (omega (arith, cl.counted, tally_small (rotates x && ltb 0 (length run)))) tt
            (Ascends-right R (x ∷ run) (y ∷ ys) asc) in
        rw (runs_next c x run y ys e, e)
          (join_runs c (runs_from same rotates y false ys) (rotates x && ltb 0 (length run))
            (x ∷ run) (y ∷ ys) cl (λ c'. rotate_runs same rotates c' y [] ys) ih (omega arith)
            (Closed-Ascends c (rotates x && ltb 0 (length run)) x run cl s)
            (Ascends-across R (x ∷ run) (y ∷ ys) asc))
  ]

  -- From a count c with c + length xs < 2 ^ 63 the loop does not panic: it gives a permutation of
  -- the list that ascends if the list does, and the count moves on by one for each run rotated.
  pub rotate_ties-Rotated :
      (c : ℕ) (xs : List A)
      → c + length xs < int_max
      → Ascends R xs
      → Rotated R c (tie_runs same rotates xs) xs (rotate_ties same rotates c xs)
  unfolding rotate_ties
  rotate_ties-Rotated c [] h asc = record {
    out = [];
    count = c;
    returns = refl;
    perm = Perm.refl [];
    counted = omega arith;
    few = omega arith;
    all = λ P a. a;
    ascends = tt;
  }
  rotate_ties-Rotated c (x ∷ xs) h asc = rotate_runs-Rotated c x [] xs (omega arith) tt asc
