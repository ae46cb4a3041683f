-- ===== src/Lib.antt =====
-- Verification of the RL control plane: the scheduling and admission policies of the RL run service
-- (control-plane/rlservice), the sample data plane (control-plane/dataplane) that leases groups of
-- rollout samples to a trainer, the weight publication service (control-plane/weights) that hands
-- policy versions from a trainer to its inference engines, and the reconciler that drives a run.
--
-- The parts and how they interact. A run's spec (control-plane/contracts/v1.go) is admitted against
-- its tenant's quota and its rollouts are scaled. The samples that they make are stored, claimed by
-- whole prompt groups under a lease, and weighed against the trainer's step, and a policy version
-- that passes the evaluation gates is promoted. Each version is published with the engines that
-- have to take it over, is materialized (a delta is applied to its parent's bytes), is acknowledged
-- by each of them, and is then the run's active version; it can be rolled back, can expire, and is
-- collected when nothing refers to it any more. The reconciler brings about what the owner of a run
-- asks for: it starts attempts, watches their jobs, evaluates the policy, starts the canary, tells
-- the weight service to promote or to roll back, and deletes what the run owns when it is cancelled.
--
-- Contracts models the record types of control-plane/contracts/v1.go, and Contracts.Validate the
-- methods Normalize and Validate of a run spec, and Snapshot; Contracts.Sample is a sample envelope
-- with its Validate. Reconciler.Admission is about both a validated spec and the policies. RlService
-- models control-plane/rlservice: FairQueue, Staleness (EvaluateSample), Gates (EvaluateGates) and
-- Quota (ValidateQuota) are policy.go, and Autoscale is autoscale.go. DataPlane models
-- control-plane/dataplane/store.go: Types has its records, Metadata the methods of
-- MemoryMetadataStore, Blobs MemoryBlobStore with Ack, Nack, Backpressure and Sweep of Store, and
-- Put its Put. The clock that FinishLease reads at each record is a parameter. Weights models
-- control-plane/weights/service.go: Types has its data, Stores the two memory stores with load and
-- save, Publish has Manifest.Validate, RegisterEngine and Publish, Materialize has applyXORDelta
-- and materializeLocked, Materialize.Service has Materialize and MaterializedArtifact, Acknowledge
-- has Acknowledge, Lifecycle has MarkGood, Rollback, Expire and EngineInstruction, and Collect has
-- GarbageCollect. The modules below them are the proofs, each named for what it proves. Reconciler models
-- control-plane/rlservice/reconciler.go: Types has the rows of control-plane/state/state.go and the
-- objects, Store the queries, Environment what the reconciler is given (the client of
-- control-plane/k8s/client.go, the promotion controller, the renderers), Ownership discoverOwned,
-- suspendOwned and deleteOwned, Attempts ensureTenantInfrastructure, ensureAttempt, applyAndTrack and
-- observeRayJob, Evaluation reconcileEvaluation, and Passes Reconcile and ReconcileAll. Machine is
-- the abstract machine of run states, Requests setSlimeDesiredState of
-- control-plane/api/rl_slime.go, Logic and Frame and Steady say what the actions keep. Prelude
-- has the shared types, maps, texts, signed integers and machine numbers.
--
-- State is passed explicitly. A method that mutates its receiver under a mutex is a function to the
-- new state, so a sequence of calls is the order in which the lock was taken. An operation of the
-- weight service works on the run's state that it loads: `with_run` loads, runs the operation and
-- saves what it leaves, as each method does; an operation that returns early without saving leaves
-- the repository. Errors are values, of a type for each part that has one constructor for each
-- message. A Go map is an association list, whose order is the order of the iteration; a theorem
-- about every list holds of every order. Times are nanoseconds. A Go int is an integer whose
-- arithmetic wraps at 64 bits where it may leave the range; a float64 is the integer that orders it
-- among the floats, or NaN. SHA-256, the JSON encoding and the CIDR parser are parameters of which
-- nothing is assumed; the encoding of a sample and that of a spec may fail.
-- An artifact store may fail to delete at the URIs that a parameter names.
--
-- The reconciler is a state monad with errors over a pass: the run in memory, which keeps its changes
-- when an error is returned, the database, and the world outside, of which any call may change the
-- state and may answer anything. A list of Booleans says which calls of the database fail, so a
-- theorem about every pass is about a failure at any point. A pass also keeps a trace of the calls
-- that it made of the world, which the code does not read. One reading of the clock stands for those
-- of a pass. Reading a missing label or annotation gives the empty text.
--
-- Recursion that the source bounds by a visited set (the chain of parents) is on fuel, one more
-- than the number of publications: each step visits a publication that none before it visited.
--
-- Not modelled: the HTTP handlers but setSlimeDesiredState, Kubernetes rendering and clients, the
-- ticker of Run, the methods of the data plane that decode samples (Claim and Export of Store) and its adapters, the job scheduler,
-- the registries, the providers and the sandboxes; JSON encoding and I/O errors of the
-- repositories; metrics. The quotient of the queue's depth by the capacity (a float64 division) is
-- a parameter of Autoscale.
mod Prelude
pub mod Contracts
pub mod DataPlane
pub mod Reconciler
pub mod RlService
pub mod Weights
