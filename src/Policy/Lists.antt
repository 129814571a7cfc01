-- ===== src/Policy/Lists.antt =====
-- Lists of names as allowlists (`contains` and `intersect` of backend/internal/policy/policy.go).
use gateway_llm.Prelude.{◌≡◌, refl, String, true, ◌&&◌, List, [], ◌∷◌, arith, eq_iff}
use gateway_llm.Policy.Rules.{contains, intersect, keep_common, is_nonempty}

pub contains-keep_common :
    (a b : List String) (v : String) → contains (keep_common a b) v ≡ (contains a v && contains b v)
unfolding contains keep_common
contains-keep_common [] b v = refl
contains-keep_common (x ∷ xs) b v = ground (arith, contains-keep_common xs b v, eq_iff x v)

-- Of two lists that are not empty the intersection has the names that are in both.
pub contains-intersect :
    (a b : List String) (v : String)
    → is_nonempty a ≡ true
    → is_nonempty b ≡ true
    → contains (intersect a b) v ≡ (contains a v && contains b v)
unfolding intersect
contains-intersect a b v h k = rw (h, k) (contains-keep_common a b v)

pub is_nonempty_of_contains :
    (a : List String) (v : String) → contains a v ≡ true → is_nonempty a ≡ true
unfolding contains
is_nonempty_of_contains [] v h = h
is_nonempty_of_contains (x ∷ xs) v h = refl
