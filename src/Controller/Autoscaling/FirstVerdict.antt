-- ===== src/Controller/Autoscaling/FirstVerdict.antt =====
-- `scaledObjectReady` against the list of KEDA's conditions.
use llm_inference_platform.Prelude.{
  String, ◌≡◌, ◌≢◌, ◌⊎◌, ◌↔◌, inl, inr, Option-cases, eq_iff, arith, none, some, Option, refl, true,
}
use llm_inference_platform.Kube.Meta.{condition_true, condition_false}
use llm_inference_platform.Kube.Dynamic.{Value, Items, nil, item, text, object, get, as_text}
use llm_inference_platform.Controller.Autoscaling.{
  is_text, Verdict, condition_verdict, first_verdict, no_verdict, text_or_empty,
}

-- A Ready condition that KEDA has decided, with this verdict.
abbrev pub Decides : Value → Verdict → Type 0
Decides (object m) v =
    (get "type" m ≡ some (text "Ready"))
    × (((get "status" m ≡ some (text "True")) × (v.status ≡ condition_true))
        ⊎ ((get "status" m ≡ some (text "False")) × (v.status ≡ condition_false)))
    × (v.reason ≡ text_or_empty (as_text (get "reason" m)))
    × (v.message ≡ text_or_empty (as_text (get "message" m)))
Decides _ v = ⊥

-- A value that is no condition of type Ready, or one with another status.
abbrev pub Undecided : Value → Type 0
Undecided (object m) =
    (get "type" m ≢ some (text "Ready"))
    ⊎ ((get "status" m ≢ some (text "True")) × (get "status" m ≢ some (text "False")))
Undecided _ = Unit

-- The verdict is that of the first decided condition, and unknown if there is none.
abbrev pub IsVerdict : Items → Verdict → Type 0
IsVerdict nil v = v ≡ no_verdict
IsVerdict (item c conds) v = Decides c v ⊎ (Undecided c × IsVerdict conds v)

is_text-eq : (o : Option Value) (t : String) → (is_text (as_text o) t ≡ true) ↔ (o ≡ some (text t))
is_text-eq none t = ground arith
is_text-eq (some (text s)) t = ground (arith, eq_iff s t)
is_text-eq (some _) t = ground arith

condition_verdict-Undecided : (c : Value) → condition_verdict c ≡ none → Undecided c
unfolding condition_verdict
condition_verdict-Undecided (object m) h = ground (
  arith,
  (is_text-eq (get "type" m) "Ready").1,
  (is_text-eq (get "status" m) "True").1,
  (is_text-eq (get "status" m) "False").1,
)
condition_verdict-Undecided _ h = tt

condition_verdict-Decides : (c : Value) (v : Verdict) → condition_verdict c ≡ some v → Decides c v
unfolding condition_verdict
condition_verdict-Decides (object m) v h = ground (
  arith,
  is_text-eq (get "type" m) "Ready",
  is_text-eq (get "status" m) "True",
  is_text-eq (get "status" m) "False",
)
condition_verdict-Decides _ v h = cc

-- Of any list of conditions `scaledObjectReady` reports the first that is of type Ready with a status
-- True or False, with its reason and its message or the empty text, and Unknown if there is none.
pub first_verdict-IsVerdict : (conds : Items) → IsVerdict conds (first_verdict conds)
unfolding first_verdict
first_verdict-IsVerdict nil = refl
first_verdict-IsVerdict (item c conds) = elim (Option-cases (condition_verdict c)) [
  | inl e ↦
      rw (e, first_verdict) (inr (condition_verdict-Undecided c e, first_verdict-IsVerdict conds))
  | inr (v, e) ↦ rw (e, first_verdict) (inl (condition_verdict-Decides c v e))
]
