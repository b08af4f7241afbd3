-- ===== src/Controller/StatusWrites/InPlace.antt =====
-- The writes to the status in memory, where `SetStatusCondition` writes into the array of the slice
-- that it is given: why `Reconcile` compares with a deep copy.
pub mod Compared
use llm_inference_platform.Prelude.{
  ℕ, ◌≤◌, ◌<◌, ◌≡◌, ◌≢◌, ◌⊎◌, inl, inr, refl, sym, ap, ◌∙◌, Option, none, some, List, arith,
}
use llm_inference_platform.Kube.Meta.{Condition}
use llm_inference_platform.Kube.Client.{Client}
use llm_inference_platform.V1alpha1.{InferenceServiceStatus}
use llm_inference_platform.V1alpha1.Structs.{
  Types, Library, Cell, StatusStruct, status_cell, conditions_cell, as_status, as_conditions,
  status_value, elements,
}
use llm_inference_platform.V1alpha1.DeepCopy.{status_copy}
use llm_inference_platform.V1alpha1.DeepCopy.Copies.{conditions, status, status_pointer}
use llm_inference_platform.Memory.{
  Memory, Extends, KeepsNew, load, load-Extends, store, load-same, load-below, load-store,
  load-store-other, store-other,
}
use llm_inference_platform.Memory.Structs.{map_value-some}
use llm_inference_platform.Memory.Lists.{each, read_all-same}
use llm_inference_platform.Memory.Pointers.{
  fetch, read_pointer-cell, cell-read_pointer, read_pointer-same, read_pointer-ne-nil, load-fetch,
}
use llm_inference_platform.Controller.StatusWrites.{
  StatusWrite, write_condition, write_phase, write_ready_replicas, write_endpoint,
  write_observed_generation, written_status, Reaches, unwritten, write,
}

-- `meta.SetStatusCondition` on a slice: it writes into the slice's array or makes a new one. A
-- condition holds no pointer that is written.
pub record SetsInPlace (C : Client) {T : Types} (L : Library T) : Type 0 where
  pub set : C.World → Condition → Option ℕ → Memory (Cell T) → Option ℕ × Memory (Cell T)
  pub read-set :
      (w : C.World) (c : Condition) (p : Option ℕ) (o : Option (List Condition))
      (m : Memory (Cell T))
      → (conditions L).read p m ≡ some o
      → let (q, m') = set w c p m in
        (conditions L).read q m' ≡ some (some (C.set_status_condition w (elements o) c))
  pub set-next :
      (w : C.World) (c : Condition) (p : Option ℕ) (m : Memory (Cell T))
      → m.next ≤ (set w c p m).1.next
  pub set-other :
      (w : C.World) (c : Condition) (p : Option ℕ) (m : Memory (Cell T)) (a : ℕ)
      → a < m.next
      → p ≢ some a
      → (set w c p m).1.cell a ≡ m.cell a
  pub set-place :
      (w : C.World) (c : Condition) (p : Option ℕ) (m : Memory (Cell T)) (a : ℕ)
      → (set w c p m).0 ≡ some a
      → (p ≡ some a) ⊎ (m.next ≤ a)
  pub flat :
      (s : T.ConditionStruct) (m n : Memory (Cell T)) → L.condition.read s n ≡ L.condition.read s m

module _ {C : Client} {T : Types} {L : Library T} (S : SetsInPlace C L) where
  -- A write to the struct of the status.
  written_struct : StatusWrite C → StatusStruct → Memory (Cell T) → StatusStruct × Memory (Cell T)
  written_struct (write_condition w c) s m =
      let (q, m') = S.set w c s.conditions m in (record s { conditions = q }, m')
  written_struct (write_phase p) s m = (record s { phase = p }, m)
  written_struct (write_ready_replicas n) s m = (record s { ready_replicas = n }, m)
  written_struct (write_endpoint e) s m = (record s { endpoint = e }, m)
  written_struct (write_observed_generation g) s m = (record s { observed_generation = g }, m)

  performed : StatusWrite C → ℕ → Option StatusStruct → Memory (Cell T) → Memory (Cell T)
  unfolding written_struct
  performed w r none m = m
  performed w r (some s) m = let (s', m') = written_struct w s m in store r (status_cell s') m'

  -- A write to the struct at an address.
  unfoldable pub perform : StatusWrite C → ℕ → Memory (Cell T) → Memory (Cell T)
  unfolding performed fetch
  perform w r m = performed w r (fetch as_status r m) m

  -- The writes of a run, one after the other.
  unfoldable pub perform_all :
      {a b : InferenceServiceStatus} → Reaches C a b → ℕ → Memory (Cell T) → Memory (Cell T)
  unfolding perform
  perform_all unwritten r m = m
  perform_all (write w h) r m = perform w r (perform_all h r m)

-- An address outside of a range.
abbrev Outside : ℕ → ℕ → ℕ → Type 0
Outside low high a = (a < low) ⊎ (high ≤ a)

module _ {C : Client} {T : Types} {L : Library T} (S : SetsInPlace C L) (r : ℕ)
    (m m1 : Memory (Cell T)) where
  -- The status at `r` is that of the struct, none of it is among the new cells, which are as they were.
  record Live (v : InferenceServiceStatus) (n : Memory (Cell T)) : Type 0 where
    struct : StatusStruct
    listed : Option (List Condition)
    held : load r n ≡ some (status_cell struct)
    lists : (conditions L).read struct.conditions n ≡ some listed
    value : status_value struct listed ≡ v
    apart : Outside m.next m1.next r
    list_apart : (a : ℕ) → struct.conditions ≡ some a → Outside m.next m1.next a
    kept : KeepsNew m m1 n

  ne-status :
      (p : Option ℕ) (o : Option (List Condition)) (s : StatusStruct) (n : Memory (Cell T))
      → (conditions L).read p n ≡ some o
      → load r n ≡ some (status_cell s)
      → p ≢ some r
  ne-status none o s n reads held at = ground arith
  ne-status (some a) none s n reads held at =
      absurd
        (read_pointer-ne-nil conditions_cell as_conditions (λ x. refl) (each L.condition) a n reads)
  ne-status (some a) (some cs) s n reads held at =
      let same : a ≡ r = ground arith in
      let (k, ss, there, peeks, _) =
        read_pointer-cell conditions_cell as_conditions (λ x. refl) (each L.condition) a cs n
          reads in
      let cell : some (status_cell s) ≡ some k = sym held ∙ ap (λ b. load b n) (sym same) ∙ there in
      ground arith

  -- A struct is stored at `r` where a status is, and its conditions can be read.
  stored :
      (s s' : StatusStruct) (o : Option (List Condition)) (n : Memory (Cell T))
      → load r n ≡ some (status_cell s)
      → (conditions L).read s'.conditions n ≡ some o
      → Outside m.next m1.next r
      → ((a : ℕ) → s'.conditions ≡ some a → Outside m.next m1.next a)
      → KeepsNew m m1 n
      → Live (status_value s' o) (store r (status_cell s') n)
  unfolding store
  stored s s' o n held lists apart list_apart kept =
      let elsewhere = ne-status s'.conditions o s n lists held in
      record {
        struct = s';
        listed = o;
        held = load-store r (status_cell s') (status_cell s) n held;
        lists =
            read_pointer-same conditions_cell as_conditions (λ x. refl) (each L.condition)
              s'.conditions n (store r (status_cell s') n)
              (λ ss.
                read_all-same L.condition ss n (store r (status_cell s') n)
                  (λ x. S.flat x n (store r (status_cell s') n)))
              (λ a p.
                load-store-other r a (status_cell s') n (λ q. elsewhere (p ∙ ap some (sym q))))
            ∙ lists;
        value = refl;
        apart = apart;
        list_apart = list_apart;
        kept = (
          kept.0,
          λ a l h. store-other r a (status_cell s') n (λ q. ground arith) ∙ kept.1 a l h,
        );
      }

  -- `SetStatusCondition` on the conditions of the struct.
  conditioned :
      (w : C.World) (c : Condition) (v : InferenceServiceStatus) (n : Memory (Cell T))
      (h : Live v n)
      → let (q, n') = S.set w c h.struct.conditions n in
        Live
          (written_status {C = C} (write_condition w c) (status_value h.struct h.listed))
          (store r (status_cell (record h.struct { conditions = q })) n')
  conditioned w c v n h =
      let p = h.struct.conditions in
      let (q, n') = S.set w c p n in
      let elsewhere = ne-status p h.listed h.struct n h.lists h.held in
      let (below, _) = load-below r (status_cell h.struct) n h.held in
      stored h.struct (record h.struct { conditions = q })
        (some (C.set_status_condition w (elements h.listed) c)) n'
        (load-same r (status_cell h.struct) n n' h.held (S.set-next w c p n)
          (S.set-other w c p n r below elsewhere))
        (S.read-set w c p h.listed n h.lists) h.apart
        (λ a e. elim (S.set-place w c p n a e) [
          | inl old ↦ h.list_apart a old
          | inr new ↦ inr (omega (arith, h.kept.0))
        ])
        (
          omega (arith, h.kept.0, S.set-next w c p n),
          λ a l u.
              S.set-other w c p n a (omega (arith, h.kept.0))
                (λ e. let out = h.list_apart a e in ground arith)
              ∙ h.kept.1 a l u,
        )

  performed-Live :
      (w : StatusWrite C) (v : InferenceServiceStatus) (n : Memory (Cell T)) (h : Live v n)
      → Live (written_status w (status_value h.struct h.listed)) (performed S w r (some h.struct) n)
  unfolding performed
  performed-Live (write_condition w c) v n h = conditioned w c v n h
  performed-Live (write_phase p) v n h =
      stored h.struct (record h.struct { phase = p }) h.listed n h.held h.lists h.apart h.list_apart
        h.kept
  performed-Live (write_ready_replicas k) v n h =
      stored h.struct (record h.struct { ready_replicas = k }) h.listed n h.held h.lists h.apart
        h.list_apart h.kept
  performed-Live (write_endpoint e) v n h =
      stored h.struct (record h.struct { endpoint = e }) h.listed n h.held h.lists h.apart
        h.list_apart h.kept
  performed-Live (write_observed_generation g) v n h =
      stored h.struct (record h.struct { observed_generation = g }) h.listed n h.held h.lists
        h.apart h.list_apart h.kept

  perform-Live :
      (w : StatusWrite C) (v : InferenceServiceStatus) (n : Memory (Cell T))
      → Live v n
      → Live (written_status w v) (perform S w r n)
  unfolding perform
  perform-Live w v n h =
      rw (sym h.value, load-fetch as_status r (status_cell h.struct) h.struct n h.held refl)
        (performed-Live w v n h)

  perform_all-Live :
      (a b : InferenceServiceStatus) (h : Reaches C a b) → Live a m1 → Live b (perform_all S h r m1)
  unfolding perform_all
  perform_all-Live a _ unwritten l = l
  perform_all-Live a _ (write w h) l =
      perform-Live w _ (perform_all S h r m1) (perform_all-Live a _ h l)
