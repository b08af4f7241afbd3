-- ===== src/Workload/Containers.antt =====
-- `vllmContainer`, `ollamaContainer`, `modelCacheVolume`, `baseResources` and `httpProbe`.
use llm_inference_platform.Prelude.{String, ◌<>◌, ◌==◌, if◌then◌else◌, none, some, List, [], ◌∷◌}
use llm_inference_platform.Prelude.Int.{ℤ, pos}
use llm_inference_platform.Prelude.Fmt.{sprint, sprint_hundredths}
use llm_inference_platform.Kube.Configuration.{
  Container, Probe, http_get, exec, ResourceRequirements, Volume, persistent_volume_claim,
  empty_dir,
}
use llm_inference_platform.V1alpha1.{InferenceService}
use llm_inference_platform.Resources.Labels.{serving_port}
use llm_inference_platform.Workload.Startup.{startup_period, startup_failure_threshold}

abbrev vllm_image : String
vllm_image = "vllm/vllm-openai:v0.31.0"

abbrev ollama_image : String
ollama_image = "ollama/ollama:0.35.1"

pub base_resources : ResourceRequirements
base_resources = record {
  requests = ("cpu", record { to_string = "500m" }) ∷ ("memory", record { to_string = "2Gi" }) ∷ [];
  claims = [];
}

-- `httpProbe`, before a period and a threshold are set.
abbrev pub http_probe : String → Probe
http_probe path = record {
  handler = http_get path serving_port;
  period_seconds = none;
  timeout_seconds = none;
  failure_threshold = none;
}

abbrev timed : Probe → ℤ → ℤ → Probe
timed p period failures = record p {
  period_seconds = some period;
  failure_threshold = some failures;
}

unfoldable pub vllm_args : InferenceService → List String
unfolding sprint sprint_hundredths
vllm_args svc =
    svc.spec.model
    ∷ "--served-model-name"
    ∷ svc.name
    ∷ "--max-model-len"
    ∷ sprint svc.spec.max_model_len
    ∷ "--gpu-memory-utilization"
    ∷ sprint_hundredths svc.spec.gpu_memory_utilization
    ∷ "--port"
    ∷ sprint serving_port
    ∷ "--max-num-seqs"
    ∷ "16"
    ∷ []

unfoldable pub vllm_container : InferenceService → Container
unfolding vllm_args base_resources startup_failure_threshold
vllm_container svc = record {
  name = "vllm";
  image = vllm_image;
  command = [];
  args = vllm_args svc;
  env = [];
  ports = record { name = "http"; container_port = serving_port } ∷ [];
  volume_mounts =
      record { name = "model-cache"; mount_path = "/root/.cache/huggingface" }
      ∷ record { name = "dshm"; mount_path = "/dev/shm" }
      ∷ [];
  resources = base_resources;
  startup_probe = timed (http_probe "/health") (pos startup_period) (startup_failure_threshold svc);
  readiness_probe = timed (http_probe "/health") (pos 5) (pos 3);
  liveness_probe = timed (http_probe "/health") (pos 20) (pos 3);
}

abbrev ollama_serve : String
ollama_serve =
    "/bin/ollama serve & pid=$!\n" <> "trap 'kill -TERM \"$pid\"' TERM INT\n"
    <> "until /bin/ollama list >/dev/null 2>&1; do sleep 1; done\n"
    <> "/bin/ollama pull \"$MODEL\" || { kill -TERM \"$pid\"; exit 1; }\n" <> "wait \"$pid\""

unfoldable pub ollama_container : InferenceService → Container
unfolding base_resources startup_failure_threshold sprint
ollama_container svc = record {
  name = "ollama";
  image = ollama_image;
  command = "/bin/sh" ∷ "-c" ∷ ollama_serve ∷ [];
  args = [];
  env =
      record { name = "MODEL"; value = svc.spec.model }
      ∷ record { name = "OLLAMA_HOST"; value = "0.0.0.0:" <> sprint serving_port }
      ∷ record { name = "OLLAMA_MODELS"; value = "/models" }
      ∷ record { name = "OLLAMA_KEEP_ALIVE"; value = "24h" }
      ∷ [];
  ports = record { name = "http"; container_port = serving_port } ∷ [];
  volume_mounts = record { name = "model-cache"; mount_path = "/models" } ∷ [];
  resources = base_resources;
  startup_probe = record {
    handler = exec ("/bin/ollama" ∷ "show" ∷ svc.spec.model ∷ []);
    period_seconds = some (pos startup_period);
    timeout_seconds = some (pos 5);
    failure_threshold = some (startup_failure_threshold svc);
  };
  readiness_probe = timed (http_probe "/") (pos 5) (pos 3);
  liveness_probe = timed (http_probe "/") (pos 20) (pos 3);
}

unfoldable pub model_cache_volume : InferenceService → Volume
model_cache_volume svc = record {
  name = "model-cache";
  source =
      if svc.spec.model_cache_claim_name == ""
      then empty_dir none none
      else persistent_volume_claim svc.spec.model_cache_claim_name;
}

-- The `dshm` volume of `desiredDeployment`.
unfoldable pub shared_memory_volume : Volume
shared_memory_volume = record {
  name = "dshm";
  source = empty_dir (some "Memory") (some (record { to_string = "1Gi" }));
}
