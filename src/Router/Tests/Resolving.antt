-- ===== src/Router/Tests/Resolving.antt =====
-- The theorems on resolution at concrete inputs.
use gateway_llm.Prelude.{some, List, [], ◌∷◌, arith}
use gateway_llm.Router.State.{ModelRouter, lookup}
use gateway_llm.Router.Resolve.{resolve_for_org}
use gateway_llm.Router.Resolve.Tables.{reload, ModelAlias}
use gateway_llm.Router.Resolve.Reload.{IsConsistent, lookup-reload_counters, reload-IsConsistent}
use gateway_llm.Router.Resolve.Answers.{HasRoom, Answers}
use gateway_llm.Router.Resolve.Tenancy.{resolve_for_org-Answers}
use gateway_llm.Router.Fallback.{execute_for_org}
use gateway_llm.Router.Fallback.Isolation.{Serves, execute_for_org-Serves}
use gateway_llm.Router.Tests.Fixtures.{
  healthy, shared, empty_router, counting_router, zeros, rested,
}

reload-IsConsistent_example : IsConsistent (reload shared counting_router)
reload-IsConsistent_example = reload-IsConsistent shared counting_router

abbrev models : List ModelAlias
models = record { model_alias = "gpt"; deployments = [] } ∷ []

shared-HasRoom : HasRoom (reload shared empty_router)
unfolding reload lookup
shared-HasRoom name deps c listed counted =
    ground (arith, lookup-reload_counters name shared empty_router)

resolve_for_org-Answers_example :
    Answers
      (some 7)
      (reload shared empty_router)
      (resolve_for_org zeros rested (some 7) "gpt" (reload shared empty_router))
resolve_for_org-Answers_example =
    resolve_for_org-Answers zeros rested (some 7) "gpt" (reload shared empty_router) (λ k n h. h)
      (reload-IsConsistent shared empty_router) shared-HasRoom

execute_for_org-Serves_example :
    Serves
      (some 7)
      (execute_for_org healthy zeros (some 7) "gpt" (reload shared empty_router) rested 0)
execute_for_org-Serves_example =
    execute_for_org-Serves healthy zeros (some 7) "gpt" (reload shared empty_router) rested 0
      (λ k n h. h) (reload-IsConsistent shared empty_router) shared-HasRoom

abbrev named : ModelRouter
named = record empty_router { aliases = shared }
