-- ===== src/Tests/Data.antt =====
-- Services and clusters for the runs.
use llm_inference_platform.Prelude.{String, false, none, some, [], ◌∷◌}
use llm_inference_platform.Prelude.Int.{pos}
use llm_inference_platform.Kube.Meta.{ObjectMeta, NamespacedName, condition_false}
use llm_inference_platform.Kube.Core.{Deployment, Pod}
use llm_inference_platform.V1alpha1.{InferenceService, InferenceServiceSpec, InferenceServiceStatus}
use llm_inference_platform.Tests.Cluster.{Cluster}

abbrev pub address : String
address = "http://prometheus:9090"

abbrev metadata : ObjectMeta
metadata = record {
  name = "qwen-small";
  namespace = "fernhill";
  uid = "u1";
  generation = pos 3;
  labels = [];
  owner_references = [];
  deleting = false;
}

abbrev fresh : InferenceServiceStatus
fresh = record {
  observed_generation = pos 0;
  ready_replicas = pos 0;
  endpoint = "";
  phase = "";
  conditions = [];
}

abbrev spec : String → String → String → InferenceServiceSpec
spec backend classification device_class = record {
  model = "Qwen/Qwen2.5-0.5B-Instruct";
  backend = backend;
  classification = classification;
  max_model_len = pos 4096;
  gpu_memory_utilization = pos 85;
  device_class = device_class;
  min_device_memory = some (record { to_string = "3Gi" });
  model_cache_claim_name = "";
  weight_load_seconds = pos 600;
  autoscaling = record {
    min_replicas = pos 1;
    max_replicas = pos 4;
    queue_depth_target = pos 4;
    ttft_p95_milliseconds = pos 2000;
    kv_cache_usage_percent = pos 80;
  };
  cost_per_hour_milli_usd = pos 520;
}

-- On vLLM with a device, on Ollama without one, and with Restricted data on Ollama.
abbrev pub qwen : InferenceService
qwen = record {
  metadata = metadata;
  spec = spec "vLLM" "Internal" "gpu.nvidia.com";
  status = fresh;
}

abbrev pub tiny : InferenceService
tiny = record { metadata = metadata; spec = spec "Ollama" "Public" ""; status = fresh }

abbrev pub payroll : InferenceService
payroll = record { metadata = metadata; spec = spec "Ollama" "Restricted" "gpu"; status = fresh }

abbrev pub key : NamespacedName
key = record { namespace = "fernhill"; name = "qwen-small" }

-- A cluster that holds the service alone, and one where its Deployment was scaled to three.
abbrev pub empty : Cluster
empty = record { stored = some qwen; deployed = none; replicas = none; operator_owns = false }

abbrev pub running : Deployment
running = record {
  metadata = metadata;
  selector = some (
      ("app.kubernetes.io/instance", "qwen-small")
      ∷ ("app.kubernetes.io/name", "inference-service")
      ∷ []);
  ready_replicas = pos 3;
}

abbrev pub scaled : Cluster
scaled = record {
  stored = some qwen;
  deployed = some running;
  replicas = some (pos 3);
  operator_owns = false;
}

-- Two pods: the container of the first crashes, and the scheduler cannot place the second.
abbrev pub crashing : Pod
crashing = record {
  conditions = [];
  container_statuses =
      record {
        name = "vllm";
        waiting = some (record { reason = "CrashLoopBackOff"; message = "back-off restarting" });
        last_terminated = some (record { reason = "OOMKilled"; exit_code = pos 137 });
        restart_count = pos 4;
      }
      ∷ [];
}

abbrev pub unplaced : Pod
unplaced = record {
  conditions =
      record {
        kind = "PodScheduled";
        status = condition_false;
        reason = "Unschedulable";
        message = "no such device class";
      }
      ∷ [];
  container_statuses = [];
}
