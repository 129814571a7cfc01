-- ===== src/Access/Tests.antt =====
-- The theorems on access at concrete inputs.
use gateway_llm.Prelude.{
  ℕ, ◌≤◌, arith, String, List, ◌≡◌, refl, true, false, none, some, [], ◌∷◌, str_eq,
}
use gateway_llm.Prelude.Int.{pos}
use gateway_llm.Access.Auth.{
  ApiKey, User, Database, Context, passed, auth, extract_bearer_token, trim_prefix,
}
use gateway_llm.Router.State.{lookup}
use gateway_llm.Access.Register.{new_register_rate_limit}
use gateway_llm.Access.Register.Counting.{count_from}
use gateway_llm.Access.Register.Windows.{admitted, admitted-bounded}
use gateway_llm.Access.Counters.{Redis, missing}
use gateway_llm.Access.RateLimit.{RateLimitConfig, is_management_path}
use gateway_llm.Access.RateLimit.Rpm.{served, rate_limit-window}
use gateway_llm.Access.Auth.Admission.{Through, auth-Through}

abbrev key : ApiKey
key = record {
  id = "k1";
  rpm_limit = some (pos 2);
  tpm_limit = none;
  name = "ci";
  team_id = none;
  user_id = some 1;
  models = "gpt" ∷ [];
  max_budget = some 100;
  total_spend = 40;
  is_active = true;
  expires_at = none;
}

abbrev user : User
user = record { org_id = some 7; role = "team_admin" }

abbrev database : Database
database = record {
  get_api_key_by_hash = λ hash. some key;
  get_user = λ id. some user;
  get_team = λ id. none;
  get_organization = λ id. none;
}

abbrev anonymous : Context
anonymous = record { api_key = none; user = none; is_master = false; org_id = none }

abbrev signed_in : Context
signed_in = record { api_key = some key; user = some user; is_master = false; org_id = some 7 }

enters : auth (some database) (λ token. token) "root" 5 "Bearer sk-1" anonymous ≡ passed signed_in
unfolding auth extract_bearer_token trim_prefix
enters = refl

auth-Through_example :
    (str_eq (extract_bearer_token "Bearer sk-1") "" ≡ false)
    × Through
        (some database)
        (λ token. token)
        "root"
        5
        (extract_bearer_token "Bearer sk-1")
        signed_in
auth-Through_example =
    auth-Through (some database) (λ token. token) "root" 5 "Bearer sk-1" anonymous signed_in enters

abbrev calls : List (ℕ × String)
calls = (3, "10.0.0.1") ∷ (4, "10.0.0.1") ∷ (5, "10.0.0.2") ∷ (20, "10.0.0.1") ∷ []

admitted-bounded_example :
    count_from 3 10 (admitted "10.0.0.1" (new_register_rate_limit (pos 1) (pos 10)) calls) ≤ 1
unfolding new_register_rate_limit
admitted-bounded_example =
    admitted-bounded (pos 1) (pos 10) "10.0.0.1" calls 3
      (omega arith, (omega arith, (omega arith, (omega arith, tt))))

abbrev redis : Redis ℕ
redis = record { incr_expire = λ key n window w. (none, w); get = λ key w. (missing, w) }

abbrev limits : RateLimitConfig
limits = record { default_rpm = pos 60; default_tpm = pos 0; window = 100 }

rate_limit-window_example :
    served redis limits "/v1/chat" signed_in
      ((1, 1) ∷ (2, 2) ∷ (3, 3) ∷ [])
      (record { available = false; items = [] })
      0
    ≡ 2
rate_limit-window_example =
    rate_limit-window redis limits "/v1/chat" signed_in key 1 1 1 ((2, 2) ∷ (3, 3) ∷ []) [] 0 refl
      refl (unfold is_management_path trim_prefix in refl) refl refl (unfold lookup in refl)
      (omega arith, (omega arith, tt)) (omega arith) (omega arith)
