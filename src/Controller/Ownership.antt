-- ===== src/Controller/Ownership.antt =====
-- `deleteIfOwned` and `deleteUnstructuredIfOwned`.
use llm_inference_platform.Prelude.{String, ◌||◌, if◌then◌else◌, none}
use llm_inference_platform.Prelude.Result.{Result, ok, err}
use llm_inference_platform.Kube.Meta.{ObjectMeta}
use llm_inference_platform.Kube.Dynamic.{GroupVersionKind}
use llm_inference_platform.Kube.Client.{Client, ObjectKind, dynamic}
use llm_inference_platform.V1alpha1.{InferenceService}
use llm_inference_platform.Controller.Run.{M, plain, ◌>>=◌, get_metadata, delete_object}

module _ (C : Client) (svc : InferenceService) where
  -- What follows the `Get`.
  delete_found : ObjectKind → Result C.Error ObjectMeta → M C (Unit {0})
  delete_found kind (err e) s =
      (if C.is_not_found e || C.is_no_match e then ok tt else err (plain e), s)
  delete_found kind (ok object) s =
      if C.is_controlled_by object svc.metadata
      then delete_object C kind object none s
      else (ok tt, s)

  unfoldable pub delete_if_owned : ObjectKind → String → M C (Unit {0})
  unfolding delete_found get_metadata delete_object
  delete_if_owned kind name = do
    found ← get_metadata C kind (record { name = name; namespace = svc.namespace })
    delete_found kind found

  unfoldable pub delete_unstructured_if_owned : GroupVersionKind → M C (Unit {0})
  unfolding delete_if_owned
  delete_unstructured_if_owned gvk = delete_if_owned (dynamic gvk) svc.name
