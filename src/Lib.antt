-- ===== src/Lib.antt =====
-- The operator of the LLM inference platform, a Kubernetes controller in Go. It turns an
-- InferenceService, one served model, into a claim template for a device, a Deployment, a Service, a
-- KEDA ScaledObject and an InferencePool, and reports in the status what the cluster says of them.
--
-- Which file models which part (paths from the repository's root):
-- - V1alpha1: api/v1alpha1/inferenceservice_types.go, the API types; its child Admission has the
--   validation markers as rules.
--   V1alpha1.Structs and V1alpha1.DeepCopy are the same types with their pointers, and
--   api/v1alpha1/zz_generated.deepcopy.go.
-- - Resources: internal/controller/resources.go. Labels has selectorLabels, podLabels, ownerRef,
--   ownerRefMap and toAny; Claim has desiredClaimTemplate; Scaling has desiredScaledObject; Pool has
--   desiredInferencePool; Resources itself has desiredService.
-- - Workload: internal/controller/deployment.go. Containers has both containers with their probes and
--   volumes; Startup has the startup probe's threshold; Workload itself has desiredDeployment, and
--   Shared its pod over memory.
-- - Controller: internal/controller/inferenceservice_controller.go. Policy has policyViolation;
--   Trouble has the loops of podTrouble; Run has the calls of the client, with the handler condition;
--   Ownership has deleteIfOwned and deleteUnstructuredIfOwned; Deploy has reconcileDeployment and
--   createDeployment; Autoscaling has reconcileAutoscaling and scaledObjectReady; Routing has
--   reconcileRouting; Reconcile has reconcile and, as reconcile_key, Reconcile; Setup has the kinds
--   that SetupWithManager watches. Trace, Protocol, Reporting, Conditions, FailsFast, Writes, AddOns,
--   Survival, History, Stateless and Idempotence hold proofs about these.
--   Permissions has the rbac markers, and what calls and watches need of them.
--   StatusWrites has the writes to the status as steps, and its child InPlace performs them in memory.
-- - Operator: cmd/operator/main.go, with the flags, the manager and its start.
-- - Memory: cells at addresses, and what it is to copy deeply: lists, pointers and structs of copies.
-- - Kube: the objects of Kubernetes and of its client library as data, the library's functions as the
--   parameter Client, and what is assumed of SetStatusCondition (Conditions).
-- - Prelude: the language and its standard library, as far as the source uses them: maps, integers,
--   the verbs of fmt.
-- - Tests: a small cluster in memory, runs, and the theorems at concrete data.
--
-- State. A call of the client takes the world that it finds and gives the one that it leaves, so that
-- nothing is assumed of other writers. A handler is a function on a run: the world, the status of the
-- service under way, which is the one part of it that the handlers write, and the calls made with
-- their answers, the newest first. It returns a value or an error and keeps what it did before. The
-- theorems on the order of calls judge each by those before it and hold for every client; where the
-- behaviour of the library matters, it is a named hypothesis, which the cluster in memory meets.
--
-- Choices. An `int32` or `int64` is an integer; the one sum that is made of them wraps. Go maps are
-- association lists. An apply configuration is a record of what its builder was told; the container in
-- a pod and the variable that it was copied from share their resources, so the device claim that is
-- added last stands in both. `%.2f` of a number of hundredths shows its last two digits, which is exact
-- for every `int32`. Printing a number spends a round of fuel on each digit, and the number itself is
-- enough fuel. The loops run over lists; nothing else needs fuel. The log lines are left out.
--
-- What the operator may do is what its markers say; config/rbac, which is generated from them, is not
-- read. A read is taken to need the list and the watch of the cache of the client.
--
-- Not modelled: the scheme and its registration, which only the client library reads, log lines, and
-- the gateway, a separate Python program.
pub mod Prelude
pub mod Kube
pub mod Memory
pub mod V1alpha1
pub mod Resources
pub mod Workload
pub mod Controller
pub mod Operator
pub mod Tests
