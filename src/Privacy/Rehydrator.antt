-- ===== src/Privacy/Rehydrator.antt =====
-- The rehydrator of backend/internal/privacy/rehydrator.go. A map is met in the order of its
-- association list; the writer that a stream emits to is a parameter over a world.
pub mod Chunks
use gateway_llm.Prelude.{
  ℕ, zero, suc, ◌-◌, Bool, true, false, not, ◌||◌, Option, none, some, List, [], ◌∷◌, ◌++◌, length,
  take, drop, leb, ◌==◌, if◌then◌else◌,
}
use gateway_llm.Privacy.Bytes.{Bytes, codes, Table}

abbrev pub is_empty {ℓ} : {A : Type ℓ} → List A → Bool
is_empty [] = true
is_empty (x ∷ xs) = false

-- strings.HasPrefix(s, p)
unfoldable pub is_prefix : Bytes → Bytes → Bool
is_prefix [] s = true
is_prefix (x ∷ p) [] = false
is_prefix (x ∷ p) (y ∷ s) = if x == y then is_prefix p s else false

-- strings.Contains(s, p)
unfoldable pub contains : Bytes → Bytes → Bool
unfolding is_prefix
contains p [] = is_prefix p []
contains p (c ∷ s) = is_prefix p (c ∷ s) || contains p s

-- strings.ReplaceAll(s, from, to), from the left; `skip` bytes belong to the last match.
unfoldable pub replace_from : Bytes → Bytes → ℕ → Bytes → Bytes
unfolding is_prefix
replace_from from to skip [] = []
replace_from from to (suc skip) (c ∷ s) = replace_from from to skip s
replace_from from to zero (c ∷ s) =
    let matched = replace_from from to (length from - 1) s in
    let plain = replace_from from to zero s in
    if is_prefix from (c ∷ s) then to ++ matched else c ∷ plain

abbrev pub replace_all : Bytes → Bytes → Bytes → Bytes
replace_all from to s = replace_from from to zero s

-- The loop over the tokens.
unfoldable pub replace_tokens : Table → Bytes → Bytes
unfolding replace_from contains
replace_tokens [] s = s
replace_tokens ((tok, original) ∷ entries) s =
    replace_tokens entries (if contains tok s then replace_all tok original s else s)

-- Whole, and rewrite: a token that does not occur is replaced nowhere.
unfoldable pub whole : Option Table → Bytes → Bytes
unfolding replace_tokens
whole none s = s
whole (some entries) s =
    if is_empty entries || not (contains (codes "<<pii:") s) then s else replace_tokens entries s

-- maxTokenLen
abbrev pub max_token_len : ℕ
max_token_len = 64

-- StreamWriter: its mapping and what it holds back.
pub record StreamWriter : Type 0 where
  pub mapping : Table
  pub buf : Bytes

module _ {W : Type 0} (emit : Bytes → W → W × Bool) where
  emitted : StreamWriter → Bytes → W × Bool → Bool × StreamWriter × W
  emitted s rest (w, true) = (true, record s { buf = rest }, w)
  emitted s rest (w, false) = (false, s, w)

  -- Write: whether it succeeded, the new state and the world.
  unfoldable pub write : Bytes → StreamWriter → W → Bool × StreamWriter × W
  unfolding emitted whole
  write p s w =
      let buf = s.buf ++ p in
      let head = length buf - max_token_len in
      if leb (length buf) max_token_len
      then (true, record s { buf = buf }, w)
      else emitted (record s { buf = buf }) (drop head buf)
          (emit (whole (some s.mapping) (take head buf)) w)

  -- Flush: the buffer is empty whether or not the writer takes the rest.
  unfoldable pub flush : StreamWriter → W → Bool × StreamWriter × W
  unfolding whole
  flush s w =
      if is_empty s.buf
      then (true, s, w)
      else (let (w', ok) = emit (whole (some s.mapping) s.buf) w in (ok, record s { buf = [] }, w'))
