-- ===== src/System/Calls.antt =====
-- The operator with each call of the Kubernetes API as a step of its own: the handlers of any
-- webhooks, where a remedy's Get and what follows it may have others between them.
pub mod Alone
pub mod Preserves
pub mod Brake
pub mod Frame
pub mod Hpas
pub mod Floor
pub mod Growth
use reliability_lab.Common.{ℕ, ◌≤◌, ◌≡◌, ◌≢◌, update, List, ◌∷◌, [], Result}
use reliability_lab.Common.Int.{ℤ, pos}
use reliability_lab.Classifier.{Kind, no_remedy, rollback, scale_up, circuit_break, classify}
use reliability_lab.Dedupe.Clock.{Time}
use reliability_lab.Dedupe.{Dedupe, new_dedupe}
use reliability_lab.Remedy.Cluster.{Client, ConfigMap, Hpa, Key, GroupVersionKind, PatchType}
use reliability_lab.Remedy.{target_key}
use reliability_lab.Remedy.CircuitBreak.{after_get}
use reliability_lab.Remedy.CircuitBreak.Races.{MergeLaws as BrakeLaws}
use reliability_lab.Remedy.ScaleUp.{scale_after_get, step_of}
use reliability_lab.Remedy.ScaleUp.Races.{MergeLaws as ScaleLaws}
use reliability_lab.Remedy.Rollback.{rollback_apply}
use reliability_lab.Server.Payload.{Alert, AlertManagerPayload}
use reliability_lab.Server.Concurrent
use reliability_lab.Server.Concurrent.{idle, reading, looping, dispatching, answered, advance}
use reliability_lab.Manager.{Flags}
use reliability_lab.System.Dispatch.{operator, input_for}
use reliability_lab.System.StaysPaused.{FrameLaws}

-- A handler as in Server.Concurrent, or one inside a remedy on an object, with the answer of its Get.
pub data Handler (E : Type 0) : Type 0 where
  serving : Concurrent.Handler → Handler E
  scaling : Time → List Alert → Key → Result E Hpa → Handler E
  braking : Time → List Alert → Key → Result E ConfigMap → Handler E

-- The webhooks' handlers by their number.
pub record Calls (W E : Type 0) : Type 0 where
  pub clock : Time
  pub dedupe : Dedupe
  pub cluster : W
  pub handlers : ℕ → Handler E

-- From a dedupe and a cluster, and no request.
abbrev pub started : {W E : Type 0} → Time → Dedupe → W → Calls W E
started clock d w = record { clock = clock; dedupe = d; cluster = w; handlers = λ i. serving idle }

module _ {W E : Type 0} (client : Client W E) (flags : Flags) where
  -- The dispatch of an alert to the remedy of a kind, up to the end of its first call.
  unfoldable pub begin : Kind → Time → Alert → List Alert → W → Handler E × W
  begin no_remedy now a rest w = (serving (looping now rest), w)
  begin rollback now a rest w =
      (serving (looping now rest), (rollback_apply (input_for client flags a) w).1)
  begin scale_up now a rest w =
      let key = target_key (input_for client flags a) in
      (scaling now rest key (client.get_hpa key w), w)
  begin circuit_break now a rest w =
      let key = target_key (input_for client flags a) in
      (braking now rest key (client.get_config_map key w), w)

  -- The rest of a remedy.
  unfoldable pub finish : Handler E → W → Handler E × W
  finish (serving h) w = (serving h, w)
  finish (scaling now rest key r) w = (
    serving (looping now rest),
    (scale_after_get client (step_of (record { step = pos 0 })) key r w).1,
  )
  finish (braking now rest key r) w = (serving (looping now rest), (after_get client key r w).1)

  -- The next step of a handler, at a time of the clock.
  unfoldable pub step : Time → Handler E → Dedupe → W → Handler E × Dedupe × W
  unfolding begin finish
  step clock (serving (dispatching now a rest)) d w =
      let (h, w') = begin (classify a.labels).kind now a rest w in (h, d, w')
  step clock (serving h) d w =
      let (h', d', w') = advance (operator client flags).cfg clock h d w in (serving h', d', w')
  step clock h d w = let (h', w') = finish h w in (h', d, w')

  abbrev pub moved : Calls W E → ℕ → Calls W E
  moved s i =
      let (h, d, w) = step s.clock (s.handlers i) s.dedupe s.cluster in
      record s { dedupe = d; cluster = w; handlers = update s.handlers i h }

  pub data Step (s : Calls W E) : Calls W E → Type 0 where
    tick : (t : Time) → s.clock ≤ t → Step s (record s { clock = t })
    arrive :
        (i : ℕ) (p : AlertManagerPayload)
        → s.handlers i ≡ serving idle
        → Step s (record s { handlers = update s.handlers i (serving (reading p)) })
    move : (i : ℕ) → Step s (moved s i)

  pub data Steps : Calls W E → Calls W E → Type 0 where
    done : {s : Calls W E} → Steps s s
    next : {s t u : Calls W E} → Step s t → Steps t u → Steps s u

  pub Steps-then : {s t u : Calls W E} → Steps s t → Steps t u → Steps s u
  Steps-then done rest = rest
  Steps-then (next step run) rest = next step (Steps-then run rest)

-- What the API server documents where many write: the laws of its creates and merge patches, and that
-- a write to one object leaves the others alone.
pub record ApiLaws {W E : Type 0} (c : Client W E) : Type 0 where
  pub config_maps : BrakeLaws c
  pub hpas : ScaleLaws c
  pub frame : FrameLaws c
  pub create_config_map-hpa :
      (k : Key) (cm : ConfigMap) (w : W) → c.get_hpa k (c.create_config_map cm w).1 ≡ c.get_hpa k w
  pub patch_config_map-hpa :
      (k : Key) (base cm : ConfigMap) (w : W)
      → c.get_hpa k (c.patch_config_map base cm w).1 ≡ c.get_hpa k w
  pub patch_status-hpa :
      (k : Key) (gvk : GroupVersionKind) (target : Key) (type : PatchType) (body : _) (w : W)
      → c.get_hpa k (c.patch_status gvk target type body w).1 ≡ c.get_hpa k w
  pub patch_hpa-hpa :
      (k : Key) (base h : Hpa) (w : W)
      → k ≢ h.key
      → c.get_hpa k (c.patch_hpa base h w).1 ≡ c.get_hpa k w
