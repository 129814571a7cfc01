-- ===== src/Lib.antt =====
-- Verification library of the gateway: the parts of the Go backend that choose a deployment, guard
-- it, and decide who may use it.
--
-- A request is authenticated (backend/internal/server/middleware/auth.go), checked against the
-- organization's policy (backend/internal/policy), and executed by the router
-- (backend/internal/router): the router resolves the model's name to deployments, orders them by a
-- strategy, and tries them one after another, each behind a circuit breaker. Personal data in the
-- request is replaced by tokens (backend/internal/privacy), a semantic cache may answer
-- (backend/internal/semcache), and the answer is priced and signed (backend/internal/cost,
-- backend/internal/receipt).
--
--   Prelude              shared names, Boolean tests, lists over native numbers, Go's integers
--   Router/Breaker       circuit_breaker.go: `allow`, `report_success` and `report_failure` are
--                        Allow, ReportSuccess and ReportFailure; Breaker/Interleaving has Allow as
--                        the atomic accesses of any number of goroutines
--   Router/Deployment    router.go: DeploymentInfo, its mutable fields in a heap by address
--   Router/State         router.go: ModelRouter, with maps as association lists
--   Router/Sort, Order   router.go: `order` and its strategies priorityOrdered, cheapest, weighted,
--                        roundRobin and leastLatency
--   Router/Resolve       router.go: New, Reload, Resolve, ResolveForOrg, ResolveCanonical
--   Router/Fallback      fallback.go: executeWithRetry, ExecuteWithFallbackForOrg
--   Policy               policy.go and load.go: rules, conditions, Evaluate, LoadFile
--   Access/Auth          auth.go: Auth, AdminOnly, RequireRole, CanAccessOrg, CheckModelAccess
--   Access/Counters      backend/internal/cache/redis.go: IncrementByWindow, GetCounter
--   Access/RateLimit     ratelimit.go: RateLimit, ConsumeTokens
--   Access/Register      register_ratelimit.go: NewRegisterRateLimit, allow
--   Privacy/Checks       backend/internal/privacy/redactor.go: luhnValid, ibanValid
--   Privacy/Redactor     redactor.go: Redact, findSpans, tokenFor and the memo
--   Privacy/Rehydrator   rehydrator.go: Whole, and Write and Flush of the StreamWriter
--   Privacy/Vault        vault.go and engine.go: RedactRequest, RehydrateResponse, RehydrateBytes
--   Caches/Semantic      backend/internal/semcache/semcache.go: Lookup is `find`, Store `remember`
--   Billing/Receipt      backend/internal/receipt/receipt.go: Sign, Verify, LoadOrGenerateKey
--   Billing/Prices       backend/internal/cost/engine.go: GetPricing, GetAllPricing, Calculate
--   Billing/Catalog      backend/internal/cost/catalog.go: signing, loading and discounts
--   Audit                backend/internal/audit/audit.go: the queue of events
--   Guardrails           backend/internal/guardrails/guardrails.go
--   SmartRoute/Deciding  backend/internal/smartroute/smartroute.go: Decide, Pick and the rule
--                        classifier
--   SmartRoute/Shadow    backend/internal/smartroute/shadow.go: the cap on shadow requests
--
-- Conventions. Code that changes its receiver returns the new state. A panic is `none`. Times are
-- nanoseconds as natural numbers, and `now` is what the clock answers. An int32 is its bit pattern
-- below 2 ^ 32; round-robin counters are uint64 patterns below 2 ^ 64, which the source
-- converts to int, so that the bound on a count is 2 ^ 63. An UUID is a number and uuid.Nil is 0.
-- A range over a map goes through its association list in order. Prices and budgets are numbers of a fixed
-- small unit. Loops are structural recursion: the
-- retries count down from maxRetries. Only the loop of ibanValid over chunks and the printing of a
-- number take fuel, the number of digits and the number itself plus one.
--
-- Parameters. The request function, the wait between attempts and the clock change a world that is
-- a type parameter; random numbers are a function of how many were drawn; the floating-point
-- average of ReportLatency, os.Getenv, os.ReadFile, the JSON and YAML decoders, the database and
-- SHA-256 are functions, and so are the commands of Redis, the regular expressions, sorting,
-- Ed25519, base64, the embedder and the arithmetic of float64. What is relied on of them are
-- hypotheses of the theorems.
--
-- Not modelled: logging, metrics, locks (each locked section is one step), speculative execution,
-- the default patterns of the redactor, the exact cache of responses, savings, the
-- trained classifier of smart routing, provider adapters, handlers, the database's
-- queries, the user interface and the SDKs.
pub mod Prelude
pub mod Router
pub mod Policy
pub mod Access
pub mod SmartRoute
pub mod Guardrails
pub mod Audit
pub mod Privacy
pub mod Caches
pub mod Billing
