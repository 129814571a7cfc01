-- ===== src/SmartRoute/Deciding/Overrides.antt =====
-- What a decision says (backend/internal/smartroute/smartroute.go).
use gateway_llm.Prelude.{
  ◌≡◌, ◌≢◌, ◌⊎◌, inl, inr, refl, subst, String, Bool, true, false, ◌||◌, Option, none, some, str_eq,
  eq_iff, if◌then◌else◌, Bool-cases, arith,
}
use gateway_llm.Prelude.Floats.{Floats, zero_float}
use gateway_llm.Router.State.{lookup}
use gateway_llm.SmartRoute.Shadow.{add_one}
use gateway_llm.SmartRoute.Deciding.{
  Request, Router, Decision, decide, pick, consult, consult_if, undecided, override, bucket_of,
}

-- SmartRoute is consulted: it is enabled, and there is a request.
abbrev pub is_consulted : Option Request → Router → Bool
is_consulted none r = false
is_consulted (some q) r = r.enabled

module _ {F : Type 0} (fl : Floats F) where
  -- The bucket of a score, by the thresholds of 33 and 66 hundredths.
  abbrev pub IsBucket : F → String → Type 0
  IsBucket score bucket =
      ((bucket ≡ "simple") × (fl.less score (fl.ratio 33 100) ≡ true))
      ⊎ ((bucket ≡ "medium")
          × (fl.less score (fl.ratio 33 100) ≡ false)
          × (fl.less score (fl.ratio 66 100) ≡ true))
      ⊎ ((bucket ≡ "complex")
          × (fl.less score (fl.ratio 33 100) ≡ false)
          × (fl.less score (fl.ratio 66 100) ≡ false))

  -- Not consulted, there is neither score nor bucket; else the score is the classifier's.
  abbrev pub Judged : (Request → F) → Option Request → Decision F → Type 0
  Judged classify req d =
      ((d.enabled ≡ false) × (d.score ≡ zero_float fl) × (d.bucket ≡ ""))
      ⊎ ((d.enabled ≡ true)
          × ((q : Request) × (req ≡ some q) × (d.score ≡ classify q))
          × IsBucket d.score d.bucket)

  -- The alias that was asked for is kept: there is no tier to take, or one that is empty or the same.
  abbrev pub Kept : String → Router → Router → Decision F → String → Type 0
  Kept requested r r' d picked =
      (d.overridden ≡ false)
      × (d.alias ≡ requested)
      × (r'.overrides ≡ r.overrides)
      × (picked ≡ "")
      × ((alias : String)
          → d.enabled ≡ true
          → lookup d.bucket r.tiers ≡ some alias
          → (alias ≡ "") ⊎ (alias ≡ requested))

  -- The tier's alias is taken.
  abbrev pub Overrides : String → Router → Router → Decision F → String → Type 0
  Overrides requested r r' d picked =
      (d.overridden ≡ true)
      × (d.enabled ≡ true)
      × (lookup d.bucket r.tiers ≡ some d.alias)
      × (d.alias ≢ "")
      × (d.alias ≢ requested)
      × (r'.overrides ≡ add_one r.overrides)
      × (picked ≡ d.alias)

  -- A decision for the request and the alias, the router before and after, and the answer of Pick.
  pub record Decides (classify : Request → F) (req : Option Request) (consulted : Bool)
      (requested : String) (r r' : Router) (d : Decision F) (picked : String) : Type 0 where
    pub asked : d.from_alias ≡ requested
    pub enabled_if : d.enabled ≡ consulted
    pub counted : r'.decisions ≡ (if consulted then add_one r.decisions else r.decisions)
    pub same_config : r' ≡ record r { decisions = r'.decisions; overrides = r'.overrides }
    pub judged : Judged classify req d
    pub outcome : Kept requested r r' d picked ⊎ Overrides requested r r' d picked

  abbrev picked_of : Decision F → String
  picked_of d = if d.overridden then d.alias else ""

  bucket_of-IsBucket : (score : F) → IsBucket score (bucket_of fl score)
  unfolding bucket_of
  bucket_of-IsBucket score = elim (Bool-cases (fl.less score (fl.ratio 33 100))) [
    | inl low ↦ rw low (inl (refl, refl))
    | inr high ↦ elim (Bool-cases (fl.less score (fl.ratio 66 100))) [
      | inl middle ↦ rw (high, middle) (inr (inl (refl, refl, refl)))
      | inr top ↦ rw (high, top) (inr (inr (refl, refl, refl)))
    ]
  ]

  unusable :
      (alias requested : String)
      → (str_eq alias "" || str_eq alias requested) ≡ true
      → (alias ≡ "") ⊎ (alias ≡ requested)
  unusable alias requested h = elim (Bool-cases (str_eq alias "")) [
    | inl empty ↦ inl ((eq_iff alias "").0 empty)
    | inr there ↦ inr ((eq_iff alias requested).0 (rw there at h))
  ]

  Decides-override :
      (classify : Request → F) (q : Request) (tier : Option String) (bucket requested : String)
      (r : Router)
      → IsBucket (classify q) bucket
      → lookup bucket r.tiers ≡ tier
      → (let d : Decision F = record {
        alias = requested;
        from_alias = requested;
        score = classify q;
        bucket = bucket;
        overridden = false;
        enabled = true;
      } in
          let result = override fl tier d (record r { decisions = add_one r.decisions }) in
          Decides classify (some q) true requested r result.1 result.0 (picked_of result.0))
  unfolding override
  Decides-override classify q none bucket requested r b e = record {
    asked = refl;
    enabled_if = refl;
    counted = refl;
    same_config = refl;
    judged = inr (refl, (q, refl, refl), b);
    outcome = inl (refl, refl, refl, refl, (λ alias h k. cc));
  }
  Decides-override classify q (some alias) bucket requested r b e =
      elim (Bool-cases (str_eq alias "" || str_eq alias requested)) [
        | inl same ↦ rw same (record {
          asked = refl;
          enabled_if = refl;
          counted = refl;
          same_config = refl;
          judged = inr (refl, (q, refl, refl), b);
          outcome = inl (
            refl,
            refl,
            refl,
            refl,
            (λ a h k.
                let named : alias ≡ a = cc in
                subst (λ x. (x ≡ "") ⊎ (x ≡ requested)) named (unusable alias requested same)),
          );
        })
        | inr other ↦ rw other (record {
          asked = refl;
          enabled_if = refl;
          counted = refl;
          same_config = refl;
          judged = inr (refl, (q, refl, refl), b);
          outcome = inr (
            refl,
            refl,
            e,
            (λ h. ground (arith, eq_iff alias "")),
            (λ h. ground (arith, eq_iff alias requested)),
            refl,
            refl,
          );
        })
      ]

  Decides-undecided :
      (classify : Request → F) (req : Option Request) (requested : String) (r : Router)
      → Decides classify req false requested r r (undecided fl requested) ""
  Decides-undecided classify req requested r = record {
    asked = refl;
    enabled_if = refl;
    counted = refl;
    same_config = refl;
    judged = inl (refl, refl, refl);
    outcome = inl (refl, refl, refl, refl, (λ alias h k. cc));
  }

  Decides-consult_if :
      (enabled : Bool) (classify : Request → F) (q : Request) (requested : String) (r : Router)
      → (let result = consult_if fl enabled (classify q) requested r in
          Decides classify (some q) enabled requested r result.1 result.0 (picked_of result.0))
  unfolding consult_if consult
  Decides-consult_if true classify q requested r =
      let bucket = bucket_of fl (classify q) in
      Decides-override classify q (lookup bucket r.tiers) bucket requested r
        (bucket_of-IsBucket (classify q)) refl
  Decides-consult_if false classify q requested r = Decides-undecided classify (some q) requested r

  -- Decide says that it is enabled, and counts a decision, exactly if SmartRoute is enabled and there
  -- is a request; then its score is the classifier's and its bucket that of the score, simple below
  -- 33 hundredths, else medium below 66, else complex. It names the alias that was asked for. It
  -- takes another alias, and counts one override, exactly if the tiers have for the bucket one that
  -- is neither empty nor the one that was asked for, and else leaves the alias and this count; of
  -- the router it changes these two counts alone. Pick gives the new alias exactly where there is an
  -- override, and else the empty alias.
  pub decide-Decides :
      (classify : Request → F) (req : Option Request) (requested : String) (r : Router)
      → Decides classify req
          (is_consulted req r)
          requested
          r
          (decide fl classify req requested r).1
          (decide fl classify req requested r).0
          (pick fl classify req requested r).0
  unfolding decide pick
  decide-Decides classify none requested r = Decides-undecided classify none requested r
  decide-Decides classify (some q) requested r = Decides-consult_if r.enabled classify q requested r
