-- ===== src/Lib.antt =====
-- The Open Inference Mesh: nodes contribute inference capacity to a coordinator, which routes jobs to
-- them and keeps the books in credits. This library models the parts of the program that decide
-- something, as functions on explicit states, and proves what makes them correct.
--
-- The parts, and where they are:
--   Base: names of the libraries, Boolean tests, lists, dictionaries and integers.
--   Settlement.Types, Settlement.Ledger: internal/settlement/ledger.go. `Ledger` is the struct with its
--   three slices and the SQLite file as three tables of rows; credit_account, debit_account,
--   claim_startup_grant_once, record_admin_action, get_balance and load_from_db are CreditAccount,
--   DebitAccount, ClaimStartupGrantOnce, RecordAdminAction, GetBalance and loadFromDB. One mutex makes
--   each an atomic step, so concurrent callers are a sequence of operations (Settlement.Ledger.History).
--   Settlement.Audit: internal/settlement/reconcile.go, and TotalOutstandingGrantLiability and
--   RecentAdminActions of ledger.go.
--   Settlement.Startup: internal/settlement/grant_decay.go.
--   Economics: internal/economics/pricing.go.
--   Payments: the money path of cmd/coordinator/main.go, which prices a job by Economics and moves
--   credits in the Ledger: creditNodeEarning, resolveEarningsAccount, creditPointerHost,
--   creditAvailabilityReward, and the end of the buffered fast-lane handler.
--   Coordinator.Splitter: internal/coordinator/splitter.go. `nearest` is the loop over delta that the
--   four nearest...Boundary functions share, on as many rounds as the source's loop has.
--   Coordinator.Registry: internal/coordinator/registry.go; Registry.Keys has its calls as a sequence
--   of steps, Registry.Standby the rings, Registry.Candidates liveness, probes and the load counter.
--   Coordinator.Router: internal/coordinator/router.go, ScoreForFastLane and the loop of
--   DispatchFastLane, on the registry; Router.Ranking is rankCandidates, Router.Streaming the loop of
--   DispatchFastLaneStreaming, Router.Background the assignment of background jobs. Coordinator.Ring,
--   internal/coordinator/consistenthash.go, gives the node of an affinity key; the
--   sort of its points, which is not stable, is an argument.
--   Coordinator.Pull: internal/coordinator/pulldispatch.go. Pull.System has the calls of Dispatch,
--   Claim and SubmitResult as threads of one system: what the lock covers, or one operation on a
--   channel, is a step, and the end of a context is a step that may be taken at any time.
--   Coordinator.Queue: internal/coordinator/queue.go, with Queue.System for its calls and workers, and
--   Queue.Worker for the loop of processJob. The loop takes fuel, one unit a round; a deadline that is
--   n retry intervals away needs n + 1.
--   Coordinator.Reservations and Coordinator.Participants: internal/coordinator/reservation.go and
--   coordination.go. Coordinator.Experts: moe_planner.go. Coordinator.Hints: hintvalidator.go.
--   Coordinator.Availability: internal/coordinator/availability.go and the round of probes of
--   cmd/coordinator/main.go. Coordinator.Registry.Capacity: measurement_store.go and the verified score.
--   Coordinator.Registry.Digest: HealthDigest, what the directory is told of a pod.
--   Coordinator.Parallel: the jobs that are split into sub-tasks, of decomposer.go, merger.go,
--   parallelverifier.go and RouteWithDecomposition of router.go. The wait for dependencies has the 600
--   rounds of its timeout.
--   Federation: internal/federation/event.go and store.go; Federation.Poll is the poller, the audit
--   and the hook of cmd/coordinator/main.go, with which coordinators witness each other's books.
--   Http.ClientIp and Http.Ssrf: internal/httpmw/clientip.go and ssrf.go. A fetch takes fuel, one unit
--   a hop, because nothing bounds its redirects.
--   Http.RateLimit: internal/httpmw/ratelimit.go, the token buckets that the coordinator and the
--   directory share; RateLimit.Quota and RateLimit.Bound count the requests that get through.
--   NodeConfig.Schedule: internal/nodeconfig/schedule.go, when a node may be used;
--   NodeConfig.Validate: validate.go, which configurations are accepted.
--   Wallet: internal/wallet/wallet.go, with Wallet.Challenges and Wallet.Links.
--   Directory.Pinning and Directory.Pods: internal/directory/pinning.go and registry_store.go.
--
-- Representation. The source keeps credits in float64; here the ledger counts signed millionths of a
-- credit and prices are whole ten-thousandths, which is what the source's round4 leaves, so sums are
-- exact and the rounding of a price is that of the exact quotient, half up. Times are nanoseconds. A
-- map is an association list with distinct keys, in the order of insertion. A call of another library
-- is an argument: the outcome of a database write, the text of a time (TimeText), a signature check.
--
-- Not modelled: the Postgres backend, the dashboards and SDKs in other languages, HTTP handlers
-- beyond the functions named above, processes, TLS, metrics and logs.
pub mod Base
pub mod Settlement
pub mod Economics
pub mod Payments
pub mod Coordinator
pub mod Federation
pub mod Wallet
pub mod Directory
pub mod Http
pub mod NodeConfig
