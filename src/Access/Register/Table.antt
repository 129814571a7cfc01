-- ===== src/Access/Register/Table.antt =====
-- The table of the limiter of backend/internal/server/middleware/register_ratelimit.go.
use gateway_llm.Prelude.{
  ℕ, ◌≡◌, refl, ◌∙◌, subst, String, true, none, List, [], ◌∷◌, arith, str_eq, eq_iff, Bool-cases,
  inl, inr, ◌⊎◌,
}
use gateway_llm.Router.State.{lookup, store, lookup-store}
use gateway_llm.Access.Register.{is_expired_entry, prune, hits_of}

abbrev pub Unique : List (String × List ℕ) → Type 0
Unique [] = Unit
Unique ((k, v) ∷ rest) = (lookup k rest ≡ none) × Unique rest

pub Unique-store :
    (key : String) (v : List ℕ) (m : List (String × List ℕ)) → Unique m → Unique (store key v m)
unfolding store
Unique-store key v [] u = (unfold lookup in refl, tt)
Unique-store key v ((k, w) ∷ rest) u = elim (Bool-cases (str_eq k key)) [
  | inl e ↦ rw e (subst (λ x. lookup x rest ≡ none) ((eq_iff k key).0 e) u.0, u.1)
  | inr e ↦ rw e (
    lookup-store k key v rest ∙ (ground (arith, eq_iff k key, eq_iff key k, u.0)),
    Unique-store key v rest u.1,
  )
]

lookup-prune-none :
    (now window : ℕ) (key : String) (m : List (String × List ℕ))
    → lookup key m ≡ none
    → lookup key (prune now window m) ≡ none
unfolding lookup prune
lookup-prune-none now window key [] h = refl
lookup-prune-none now window key ((k, ts) ∷ rest) h =
    ground (arith, lookup-prune-none now window key rest)

pub Unique-prune :
    (now window : ℕ) (m : List (String × List ℕ)) → Unique m → Unique (prune now window m)
unfolding prune
Unique-prune now window [] u = tt
Unique-prune now window ((k, ts) ∷ rest) u = elim (Bool-cases (is_expired_entry now window ts)) [
  | inl e ↦ rw e (Unique-prune now window rest u.1)
  | inr e ↦ rw e (lookup-prune-none now window k rest u.0, Unique-prune now window rest u.1)
]

-- Pruning keeps an entry, or removes it where it is expired.
pub lookup-prune :
    (now window : ℕ) (key : String) (m : List (String × List ℕ))
    → Unique m
    → (lookup key (prune now window m) ≡ lookup key m)
      ⊎ ((lookup key (prune now window m) ≡ none)
          × (is_expired_entry now window (hits_of (lookup key m)) ≡ true))
unfolding prune lookup
lookup-prune now window key [] u = inl refl
lookup-prune now window key ((k, ts) ∷ rest) u =
    elim (Bool-cases (is_expired_entry now window ts)) [
      | inl old ↦ elim (Bool-cases (str_eq k key)) [
        | inl e ↦
            rw (old, e)
              (inr (
                lookup-prune-none now window key rest
                    (subst (λ x. lookup x rest ≡ none) ((eq_iff k key).0 e) u.0),
                old,
              ))
        | inr e ↦ rw (old, e) (lookup-prune now window key rest u.1)
      ]
      | inr fresh ↦ elim (Bool-cases (str_eq k key)) [
        | inl e ↦ rw (fresh, lookup, e) (inl refl)
        | inr e ↦ rw (fresh, lookup, e) (lookup-prune now window key rest u.1)
      ]
    ]
