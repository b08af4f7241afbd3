-- ===== src/Controller/Writes.antt =====
-- When `Reconcile` writes the status, and which error it returns.
use llm_inference_platform.Prelude.{
  ℕ, Bool, String, ◌≡◌, ◌≢◌, ◌↔◌, ◌⊎◌, true, false, refl, Option, none, some, List, [], ◌∷◌, arith,
}
use llm_inference_platform.Prelude.Result.{ok}
use llm_inference_platform.Kube.Meta.{NamespacedName}
use llm_inference_platform.Kube.Client.{Client}
use llm_inference_platform.V1alpha1.{InferenceService, InferenceServiceStatus}
use llm_inference_platform.Controller.Run.{Event, Run, Failure, plain, updated_status}
use llm_inference_platform.Controller.Trace.{Chain}
use llm_inference_platform.Controller.Reconcile.{Outcome, reconcile, reconcile_key, start, conclude}
use llm_inference_platform.Controller.Protocol.{Permitted}
use llm_inference_platform.Controller.Protocol.Steps.{reconcile-Good}

-- `equality.Semantic.DeepEqual` decides whether two statuses are the same.
abbrev pub DecidesEqual : Client → Type 0
DecidesEqual C = (a b : InferenceServiceStatus) → (C.deep_equal a b ≡ true) ↔ (a ≡ b)

module _ {C : Client} where
  abbrev pub is_update : Event C → Bool
  is_update (updated_status _ _) = true
  is_update _ = false

  abbrev pub NoUpdate : List (Event C) → Type 0
  NoUpdate [] = Unit
  NoUpdate (e ∷ past) = (is_update e ≡ false) × NoUpdate past

  Good-NoUpdate :
      (svc : InferenceService) (prometheus_address : String) (es : List (Event C))
      → Chain (Permitted svc prometheus_address) es
      → NoUpdate es
  Good-NoUpdate svc p [] h = tt
  Good-NoUpdate svc p (updated_status x r ∷ past) h = absurd h.0
  Good-NoUpdate svc p (e ∷ past) h = ground (arith, Good-NoUpdate svc p past h.1)

  -- The last call wrote this status, which differs from the one that was read, and no call before it
  -- wrote any.
  abbrev pub Wrote : InferenceService → InferenceServiceStatus → List (Event C) → Type 0
  Wrote svc status (updated_status x _ ∷ past) =
      (x ≡ record svc { status = status }) × (status ≢ svc.status) × NoUpdate past
  Wrote svc status _ = ⊥

  -- The error of the last call, if it wrote the status.
  abbrev pub write_error : List (Event C) → Option C.Error
  write_error (updated_status _ e ∷ _) = e
  write_error _ = none

  abbrev pub WritesOnce : InferenceService → Option (Run C) → Type 0
  WritesOnce svc none = ⊥
  WritesOnce svc (some s) =
      (s.status.observed_generation ≡ svc.generation)
      × (Wrote svc s.status s.events ⊎ ((s.status ≡ svc.status) × NoUpdate s.events))

  -- The error of `reconcile` with its requeue, and otherwise that of the status update.
  abbrev pub returned_error : Option (Failure C) → Option C.Error → Option (Failure C)
  returned_error (some e) _ = some e
  returned_error none (some e) = some (plain e)
  returned_error none none = none

  -- The requeue of `reconcile`, and none if the status update's error is returned.
  abbrev pub returned_requeue : Option (Failure C) → Option C.Error → ℕ → ℕ
  returned_requeue none (some e) after = 0
  returned_requeue none none after = after
  returned_requeue (some e) _ after = after

  abbrev pub events_of : Option (Run C) → List (Event C)
  events_of none = []
  events_of (some s) = s.events

module _ (C : Client) (D : DecidesEqual C) (svc : InferenceService) where
  conclude-WritesOnce :
      (o : Outcome C) (s : Run C)
      → NoUpdate s.events
      → WritesOnce svc (some (conclude C svc (o, s)).1)
  unfolding conclude
  conclude-WritesOnce o s h =
      ground (arith, h, D svc.status (record s.status { observed_generation = svc.generation }))

-- Where DeepEqual decides equality, a `Reconcile` of a service that it could read ends with the
-- service's generation observed, and either its last call, and no other, wrote the status, which then
-- differs from the one that was read and stands in the service as it was read otherwise; or it wrote
-- none, and the status is the one that was read.
pub reconcile_key-WritesOnce :
    (C : Client) (prometheus_address : String) (key : NamespacedName) (w : C.World)
    {svc : InferenceService} {w' : C.World}
    → DecidesEqual C
    → C.get_inference_service key w ≡ (ok svc, w')
    → WritesOnce svc (reconcile_key C prometheus_address key w).1
unfolding reconcile_key
reconcile_key-WritesOnce C prometheus_address key w {svc} {w'} D found = rw found (
    conclude-WritesOnce C D svc _ (reconcile C svc prometheus_address (start C svc w')).1 (
      Good-NoUpdate svc prometheus_address _
        (reconcile-Good C svc prometheus_address (start C svc w') (tt, refl))))

write_error-NoUpdate : {C : Client} (es : List (Event C)) → NoUpdate es → write_error es ≡ none
write_error-NoUpdate [] h = refl
write_error-NoUpdate (updated_status x e ∷ past) h = cc h.0
write_error-NoUpdate (e ∷ past) h = ground arith

conclude-error :
    (C : Client) (svc : InferenceService) (o : Outcome C) (s : Run C)
    → NoUpdate s.events
    → let (o', s') = conclude C svc (o, s) in
      (o'.error ≡ returned_error o.error (write_error s'.events))
      × (o'.requeue_after ≡ returned_requeue o.error (write_error s'.events) o.requeue_after)
unfolding conclude
conclude-error C svc o s h = ground (arith, write_error-NoUpdate s.events h)

-- A `Reconcile` of a service that it could read returns the error of `reconcile` if there is one, and
-- otherwise that of the status update if it made one and that failed. Its requeue is that of
-- `reconcile`, but for the status update's error, which comes with none.
pub reconcile_key-error :
    (C : Client) (prometheus_address : String) (key : NamespacedName) (w : C.World)
    {svc : InferenceService} {w' : C.World}
    → C.get_inference_service key w ≡ (ok svc, w')
    → let inner : Outcome C = (reconcile C svc prometheus_address (start C svc w')).0 in
      let (outer, s) = reconcile_key C prometheus_address key w in
      (outer.error ≡ returned_error inner.error (write_error (events_of s)))
      × (outer.requeue_after
          ≡ returned_requeue inner.error (write_error (events_of s)) inner.requeue_after)
unfolding reconcile_key
reconcile_key-error C prometheus_address key w {svc} {w'} found = rw found (
    conclude-error C svc _ (reconcile C svc prometheus_address (start C svc w')).1 (
      Good-NoUpdate svc prometheus_address _
        (reconcile-Good C svc prometheus_address (start C svc w') (tt, refl))))
