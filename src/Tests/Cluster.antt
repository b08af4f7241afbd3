-- ===== src/Tests/Cluster.antt =====
-- A small cluster in memory that meets what the theorems assume of the client library.
use mathlib.Core.Logic.{ite, dite}
use mathlib.Core.Bool.{Bool-discrete}
use native.Mathlib.Decide.{ℕ_discrete}
use llm_inference_platform.Prelude.{
  String, ◌≡◌, ◌==◌, eq_iff, Bool, true, false, refl, Option, none, some, List, [], ◌∷◌, arith,
  if◌then◌else◌,
}
use llm_inference_platform.Prelude.Int.{ℤ, pos}
use llm_inference_platform.Prelude.Result.{Result, ok, err}
use llm_inference_platform.Kube.Meta.{ObjectMeta, Condition, find_condition}
use llm_inference_platform.Kube.Core.{Deployment}
use llm_inference_platform.Kube.Dynamic.{nil}
use llm_inference_platform.Kube.Configuration.{
  ApplyConfiguration, DeploymentConfiguration, deployment, service, claim_template, unstructured,
}
use llm_inference_platform.Kube.Client.{
  Client, ObjectKind, deployments, resource_claim_templates, dynamic,
}
use llm_inference_platform.Kube.Conditions.{SetsConditions, timeless, view}
use llm_inference_platform.V1alpha1.{InferenceService, InferenceServiceStatus}
use llm_inference_platform.Controller.Writes.{DecidesEqual}
use llm_inference_platform.Controller.AddOns.{LacksAddOns}
use llm_inference_platform.Controller.Survival.{ServerSideApply}

pub data ClusterError : Type 0 where
  missing unknown_kind : ClusterError

pub record Cluster : Type 0 where
  pub stored : Option InferenceService
  pub deployed : Option Deployment
  pub replicas : Option ℤ
  pub operator_owns : Bool

String-discrete : Discrete String
String-discrete s t =
    dite (Bool-discrete (s == t) true) (λ same. yes ((eq_iff s t).0 same))
      (λ differ. no (λ p. differ ((eq_iff s t).1 p)))

pub Status-discrete : Discrete InferenceServiceStatus
Status-discrete = hlevel (ℕ_discrete, String-discrete)

abbrev deep_equal : InferenceServiceStatus → InferenceServiceStatus → Bool
deep_equal a b = ite (Status-discrete a b) true false

-- A condition keeps its place, and its transition time: the clock stands still.
abbrev pub set_condition : List Condition → Condition → List Condition
set_condition [] c = c ∷ []
set_condition (x ∷ xs) c =
    if x.kind == c.kind
    then record c { last_transition_time = x.last_transition_time } ∷ xs
    else x ∷ set_condition xs c

abbrev is_missing : ClusterError → Bool
is_missing missing = true
is_missing unknown_kind = false

abbrev is_unknown : ClusterError → Bool
is_unknown missing = false
is_unknown unknown_kind = true

abbrev unless_missing : ClusterError → Option ClusterError
unless_missing missing = none
unless_missing unknown_kind = some unknown_kind

abbrev or_missing : {A : Type 0} → Option A → Result ClusterError A
or_missing none = err missing
or_missing (some a) = ok a

-- The Deployment as stored: its ready replicas are the cluster's.
abbrev store_deployment : DeploymentConfiguration → Option Deployment → Deployment
store_deployment d old = record {
  metadata = record {
    name = d.metadata.name;
    namespace = d.metadata.namespace;
    uid = "d";
    generation = pos 1;
    labels = d.metadata.labels;
    owner_references = d.metadata.owner_references;
    deleting = false;
  };
  selector = d.selector;
  ready_replicas = elim old [ none ↦ pos 0 | some o ↦ o.ready_replicas ];
}

-- The count of a Deployment that is created without one.
abbrev or_default : Option ℤ → Option ℤ
or_default none = some (pos 1)
or_default (some n) = some n

abbrev apply : ApplyConfiguration → String → Bool → Cluster → Option ClusterError × Cluster
apply (deployment d) owner force w = elim d.replicas [
  | none ↦ (
    none,
    record w { deployed = some (store_deployment d w.deployed); replicas = or_default w.replicas },
  )
  | some n ↦ (none, record w { replicas = some n })
]
apply (unstructured u) owner force w = (some unknown_kind, w)
apply (service x) owner force w = (none, w)
apply (claim_template x) owner force w = (none, w)

abbrev delete : ObjectKind → ObjectMeta → Option String → Cluster → Option ClusterError × Cluster
delete deployments object policy w = (none, record w { deployed = none; replicas = none })
delete resource_claim_templates object policy w = (none, w)
delete (dynamic gvk) object policy w = (none, w)

abbrev pub cluster : Client
cluster = record {
  World = Cluster;
  Error = ClusterError;
  is_not_found = is_missing;
  is_no_match = is_unknown;
  ignore_not_found = unless_missing;
  is_controlled_by = λ object owner. object.uid == owner.uid;
  set_status_condition = λ w conditions c. set_condition conditions c;
  deep_equal = deep_equal;
  nested_slice = λ m path. nil;
  get_inference_service = λ key w. (or_missing w.stored, w);
  get_deployment = λ key w. (or_missing w.deployed, w);
  get_unstructured = λ gvk key w. (err unknown_kind, w);
  get_metadata = λ kind key w. (err missing, w);
  list_pods = λ namespace labels w. (ok [], w);
  apply = apply;
  delete = delete;
  update_status = λ svc w. (none, record w { stored = some svc });
}

view-set_condition :
    (conditions : List Condition) (c : Condition) (kind : String)
    → view (set_condition conditions c) kind
      ≡ (if c.kind == kind then some (timeless c) else view conditions kind)
unfolding view find_condition
view-set_condition [] c kind = ground arith
view-set_condition (x ∷ xs) c kind = ground (
  arith,
  view-set_condition xs c kind,
  eq_iff x.kind c.kind,
  eq_iff x.kind kind,
  eq_iff c.kind kind,
)

pub cluster-SetsConditions : SetsConditions cluster
cluster-SetsConditions = record {
  view-set = λ w conditions c kind. view-set_condition conditions c kind;
}

pub cluster-DecidesEqual : DecidesEqual cluster
cluster-DecidesEqual a b = ground arith

pub cluster-LacksAddOns : LacksAddOns cluster
cluster-LacksAddOns = record {
  no_match = λ u owner force w. unknown_kind;
  apply-unstructured = λ u owner force w. refl;
  is_no_match-no_match = λ u owner force w. refl;
  apply-service = λ x owner force w. refl;
  pods = λ namespace labels w. [];
  list-pods = λ namespace labels w. refl;
}

-- An apply without a count, at the operator's name.
pub unlisted_apply :
    (d : DeploymentConfiguration) (force : Bool) (w : Cluster) (n : ℤ)
    → d.replicas ≡ none
    → w.operator_owns ≡ false
    → w.replicas ≡ some n
    → ((apply (deployment d) "inference-operator" force w).1.replicas ≡ some n)
      × ((apply (deployment d) "inference-operator" force w).1.operator_owns ≡ false)
unlisted_apply d force w n unlisted unowned there = ground arith

abbrev pub cluster-ServerSideApply : ServerSideApply cluster
cluster-ServerSideApply = record {
  count = λ (w : Cluster). w.replicas;
  owns = λ (w : Cluster). w.operator_owns;
  get-deployment = λ key w. (refl, refl);
  get-unstructured = λ kind key w. (refl, refl);
  get-metadata = λ kind key w. (refl, refl);
  list-pods = λ namespace labels w. (refl, refl);
  delete-claim = λ object policy w. (refl, refl);
  delete-dynamic = λ gvk object policy w. (refl, refl);
  apply-service = λ x owner force w. (refl, refl);
  apply-claim = λ x owner force w. (refl, refl);
  apply-unstructured = λ x owner force w. (refl, refl);
  apply-deployment = unlisted_apply;
}
