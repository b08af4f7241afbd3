-- ===== src/Controller/Run.antt =====
-- The reconciler's calls. A run holds the world, the status of the service under way, which is the one
-- part of it that the handlers write, and the calls made with their answers, the newest first.
use llm_inference_platform.Prelude.{String, Bool, Option, none, some, List, ◌∷◌}
use llm_inference_platform.Prelude.Int.{pos}
use llm_inference_platform.Prelude.Maps.{Map}
use llm_inference_platform.Prelude.Result.{Result, ok, err}
use llm_inference_platform.Kube.Meta.{ObjectMeta, NamespacedName, ConditionStatus}
use llm_inference_platform.Kube.Core.{Deployment, Pod}
use llm_inference_platform.Kube.Dynamic.{GroupVersionKind, Unstructured}
use llm_inference_platform.Kube.Configuration.{ApplyConfiguration}
use llm_inference_platform.Kube.Client.{Client, ObjectKind}
use llm_inference_platform.V1alpha1.{InferenceService, InferenceServiceStatus}

pub data Event (C : Client) : Type 0 where
  got_deployment : NamespacedName → Result C.Error Deployment → Event C
  got_unstructured : GroupVersionKind → NamespacedName → Result C.Error Unstructured → Event C
  got_metadata : ObjectKind → NamespacedName → Result C.Error ObjectMeta → Event C
  listed_pods : String → Map String → Result C.Error (List Pod) → Event C
  applied : ApplyConfiguration → String → Bool → Option C.Error → Event C
  deleted : ObjectKind → ObjectMeta → Option String → Option C.Error → Event C
  updated_status : InferenceService → Option C.Error → Event C

-- An error as the handlers return it, plain or under the text of `fmt.Errorf("…: %w", err)`.
pub data Failure (C : Client) : Type 0 where
  plain : C.Error → Failure C
  wrapped : String → C.Error → Failure C

pub record Run (C : Client) : Type 0 where
  pub world : C.World
  pub status : InferenceServiceStatus
  pub events : List (Event C)

-- A handler that may fail; what it did before it failed stays done.
abbrev pub M : Client → Type 0 → Type 0
M C A = Run C → Result (Failure C) A × Run C

module _ {C : Client} where
  abbrev pub continue : {A B : Type 0} → Result (Failure C) A → (A → M C B) → M C B
  continue (ok a) f s = f a s
  continue (err e) f s = (err e, s)

  abbrev pub pure : {A : Type 0} → A → M C A
  pure a s = (ok a, s)

  infixl 5 ◌>>=◌ ◌>>◌
  abbrev pub ◌>>=◌ : {A B : Type 0} → M C A → (A → M C B) → M C B
  ◌>>=◌ m f s = let (r, s') = m s in continue r f s'

  abbrev pub ◌>>◌ : {B : Type 0} → M C (Unit {0}) → M C B → M C B
  m >> k = m >>= λ _. k

  -- `return err`, where nil is success.
  abbrev pub checked : Option (Failure C) → Result (Failure C) (Unit {0})
  checked none = ok tt
  checked (some e) = err e

  -- `fmt.Errorf(text, err)` if there is an error.
  abbrev pub wrap : String → Option C.Error → Option (Failure C)
  wrap text none = none
  wrap text (some e) = some (wrapped text e)

module _ (C : Client) where
  abbrev log : Run C → C.World → Event C → Run C
  log s w e = record s { world = w; events = e ∷ s.events }

  -- `r.Apply(ctx, configuration, client.FieldOwner(owner))`, forced or not, with its error as it came.
  unfoldable pub apply_raw : ApplyConfiguration → String → Bool → M C (Option C.Error)
  apply_raw configuration owner force s =
      let (e, w) = C.apply configuration owner force s.world in
      (ok e, log s w (applied configuration owner force e))

  -- The same under `if err != nil { return fmt.Errorf(text, err) }`.
  unfoldable pub apply_or : String → ApplyConfiguration → String → Bool → M C (Unit {0})
  unfolding apply_raw
  apply_or text configuration owner force =
      apply_raw configuration owner force >>= λ e s. (checked (wrap text e), s)

  unfoldable pub get_deployment : NamespacedName → M C (Result C.Error Deployment)
  get_deployment key s =
      let (r, w) = C.get_deployment key s.world in (ok r, log s w (got_deployment key r))

  unfoldable pub get_unstructured :
      GroupVersionKind → NamespacedName → M C (Result C.Error Unstructured)
  get_unstructured kind key s =
      let (r, w) = C.get_unstructured kind key s.world in
      (ok r, log s w (got_unstructured kind key r))

  unfoldable pub get_metadata : ObjectKind → NamespacedName → M C (Result C.Error ObjectMeta)
  get_metadata kind key s =
      let (r, w) = C.get_metadata kind key s.world in (ok r, log s w (got_metadata kind key r))

  unfoldable pub list_pods : String → Map String → M C (Result C.Error (List Pod))
  list_pods namespace labels s =
      let (r, w) = C.list_pods namespace labels s.world in
      (ok r, log s w (listed_pods namespace labels r))

  -- `client.IgnoreNotFound(r.Delete(…))`
  unfoldable pub delete_object : ObjectKind → ObjectMeta → Option String → M C (Unit {0})
  delete_object kind object policy s =
      let (e, w) = C.delete kind object policy s.world in
      (
        checked (elim e [
          | none ↦ none
          | some x ↦ elim (C.ignore_not_found x) [ none ↦ none | some y ↦ some (plain y) ]
        ]),
        log s w (deleted kind object policy e),
      )

  -- `r.condition`
  unfoldable pub set_condition :
      InferenceService → String → ConditionStatus → String → String → M C (Unit {0})
  set_condition svc kind status reason message s = (
    ok tt,
    record s {
      status = record s.status {
        conditions = C.set_status_condition s.world s.status.conditions (record {
          kind = kind;
          status = status;
          observed_generation = svc.generation;
          last_transition_time = pos 0;
          reason = reason;
          message = message;
        });
      };
    },
  )
