-- ===== src/Access/Register/Steps.antt =====
-- What one call of `allow` does to the times of one address
-- (backend/internal/server/middleware/register_ratelimit.go).
use gateway_llm.Prelude.{
  ℕ, ◌+◌, ◌≤◌, ◌<◌, ◌≡◌, refl, sym, subst, String, Bool, true, false, ◌&&◌, some, List, [], ◌∷◌,
  ◌++◌, length, ltb, leb, arith, str_eq, eq_iff, if◌then◌else◌, Bool-cases, inl, inr,
}
use gateway_llm.Router.State.{lookup, store, lookup-store}
use gateway_llm.Access.Register.{
  RegisterRateLimit, keep_after, is_expired_entry, prune, hits_of, allow_register,
}
use gateway_llm.Access.Register.Counting.{
  count_from, AllUpTo, Sorted, count-keep_after, count-keep_after_le, count-append, count-length,
  AllUpTo-keep_after, Sorted-keep_after, AllUpTo-snoc, Sorted-snoc, count_expired,
}
use gateway_llm.Access.Register.Table.{Unique, Unique-store, Unique-prune, lookup-prune}

-- What may become of one address's times at `now`, when the times `adm` are admitted.
pub record Moves (now window limit : ℕ) (h h' adm : List ℕ) : Type 0 where
  pub sorted : Sorted h'
  pub up_to : AllUpTo now h'
  pub covers :
      (from : ℕ)
      → now < from + window
      → count_from from window h + count_from from window adm ≡ count_from from window h'
  pub fits : (from : ℕ) → count_from from window h ≤ limit → count_from from window h' ≤ limit

module _ (now window limit : ℕ) where
  one_more :
      (from : ℕ) (kept : List ℕ)
      → length kept < limit
      → count_from from window kept + count_from from window (now ∷ []) ≤ limit
  one_more from kept room = ground (arith, count-length from window kept)

  Moves-same : (h : List ℕ) → Sorted h → AllUpTo now h → Moves now window limit h h []
  Moves-same h s u = record {
    sorted = s;
    up_to = u;
    covers = λ from lt. omega arith;
    fits = λ from le. le;
  }

  Moves-keep :
      (h : List ℕ)
      → Sorted h
      → AllUpTo now h
      → Moves now window limit h (keep_after now window h) []
  Moves-keep h s u = record {
    sorted = Sorted-keep_after now window h s;
    up_to = AllUpTo-keep_after now now window h u;
    covers = λ from lt. omega (arith, count-keep_after now window from h lt);
    fits = λ from le. omega (arith, count-keep_after_le now window from h);
  }

  Moves-admit :
      (h : List ℕ)
      → Sorted h
      → AllUpTo now h
      → length (keep_after now window h) < limit
      → Moves now window limit h (keep_after now window h ++ now ∷ []) (now ∷ [])
  Moves-admit h s u room = record {
    sorted =
        Sorted-snoc now (keep_after now window h) (AllUpTo-keep_after now now window h u)
          (Sorted-keep_after now window h s);
    up_to = AllUpTo-snoc now (keep_after now window h) (AllUpTo-keep_after now now window h u);
    covers = λ from lt.
        rw
          (
            count-append from window (keep_after now window h) (now ∷ []),
            count-keep_after now window from h lt,
          )
          refl;
    fits = λ from le.
        rw (count-append from window (keep_after now window h) (now ∷ []))
          (one_more from (keep_after now window h) room);
  }

  Moves-expire :
      (h h' adm : List ℕ)
      → Moves now window limit h h' adm
      → is_expired_entry now window h' ≡ true
      → Moves now window limit h [] adm
  Moves-expire h h' adm m e = record {
    sorted = tt;
    up_to = tt;
    covers =
        λ from lt. omega (arith, m.covers from lt, count_expired from window now h' m.sorted e lt);
    fits = λ from le. omega arith;
  }

abbrev pub entry : Bool → ℕ → List ℕ
entry true now = now ∷ []
entry false now = []

-- What one call does to the table and to one address's times.
pub record Stepped (now : ℕ) (ip : String) (rl rl' : RegisterRateLimit) (ok : Bool) : Type 0 where
  pub unique : Unique rl'.hits
  pub same_window : rl'.window ≡ rl.window
  pub same_limit : rl'.limit ≡ rl.limit
  pub moves :
      Moves now rl.window rl.limit
        (hits_of (lookup ip rl.hits))
        (hits_of (lookup ip rl'.hits))
        (entry ok now)

module _ (now : ℕ) (who ip : String) (rl : RegisterRateLimit) (unique : Unique rl.hits)
    (s : Sorted (hits_of (lookup ip rl.hits))) (u : AllUpTo now (hits_of (lookup ip rl.hits))) where
  abbrev pub kept : List ℕ
  kept = keep_after now rl.window (hits_of (lookup who rl.hits))

  pick :
      (b ok : Bool) (v : List ℕ)
      → (b ≡ true → Moves now rl.window rl.limit (hits_of (lookup ip rl.hits)) v (entry ok now))
      → Moves now rl.window rl.limit
          (hits_of (lookup ip rl.hits))
          (hits_of (if b then some v else lookup ip rl.hits))
          (entry (ok && b) now)
  pick true true v m = m refl
  pick true false v m = m refl
  pick false true v m = Moves-same now rl.window rl.limit (hits_of (lookup ip rl.hits)) s u
  pick false false v m = Moves-same now rl.window rl.limit (hits_of (lookup ip rl.hits)) s u

  stored :
      (v : List ℕ) (ok : Bool)
      → (str_eq who ip ≡ true
          → Moves now rl.window rl.limit (hits_of (lookup ip rl.hits)) v (entry ok now))
      → Stepped now ip rl (record rl { hits = store who v rl.hits }) (ok && str_eq who ip)
  stored v ok m = record {
    unique = Unique-store who v rl.hits unique;
    same_window = refl;
    same_limit = refl;
    moves = rw (lookup-store ip who v rl.hits) (pick (str_eq who ip) ok v m);
  }

  denied_moves :
      str_eq who ip ≡ true → Moves now rl.window rl.limit (hits_of (lookup ip rl.hits)) kept []
  denied_moves e =
      subst
        (λ x.
          Moves now rl.window rl.limit (hits_of (lookup ip rl.hits))
            (keep_after now rl.window (hits_of (lookup x rl.hits))) [])
        (sym ((eq_iff who ip).0 e))
        (Moves-keep now rl.window rl.limit (hits_of (lookup ip rl.hits)) s u)

  admitted_moves :
      length kept < rl.limit
      → str_eq who ip ≡ true
      → Moves now rl.window rl.limit (hits_of (lookup ip rl.hits)) (kept ++ now ∷ []) (now ∷ [])
  admitted_moves room e =
      subst
        (λ x.
          length (keep_after now rl.window (hits_of (lookup x rl.hits))) < rl.limit
          → Moves now rl.window rl.limit (hits_of (lookup ip rl.hits))
              (keep_after now rl.window (hits_of (lookup x rl.hits)) ++ now ∷ []) (now ∷ []))
        (sym ((eq_iff who ip).0 e))
        (Moves-admit now rl.window rl.limit (hits_of (lookup ip rl.hits)) s u) room

  pruned :
      (hits : List (String × List ℕ)) (ok : Bool)
      → Stepped now ip rl (record rl { hits = hits }) ok
      → Stepped now ip rl (record rl { hits = prune now rl.window hits }) ok
  pruned hits ok st = record {
    unique = Unique-prune now rl.window hits st.unique;
    same_window = refl;
    same_limit = refl;
    moves = elim (lookup-prune now rl.window ip hits st.unique) [
      | inl same ↦ rw same st.moves
      | inr (gone, e) ↦ rw gone (
          Moves-expire now rl.window rl.limit (hits_of (lookup ip rl.hits))
            (hits_of (lookup ip hits)) (entry ok now) st.moves e)
    ];
  }

  pub stepped :
      Stepped now ip rl
        (allow_register now who rl).1
        ((allow_register now who rl).0 && str_eq who ip)
  unfolding allow_register
  stepped = elim (Bool-cases (leb rl.limit (length kept))) [
    | inl full ↦ rw full (stored kept false denied_moves)
    | inr room ↦ elim (Bool-cases (ltb 1024 (length (store who (kept ++ now ∷ []) rl.hits)))) [
      | inl big ↦
          rw (room, big)
            (pruned (store who (kept ++ now ∷ []) rl.hits) (str_eq who ip)
              (stored (kept ++ now ∷ []) true (admitted_moves (ground arith))))
      | inr small ↦
          rw (room, small) (stored (kept ++ now ∷ []) true (admitted_moves (ground arith)))
    ]
  ]
