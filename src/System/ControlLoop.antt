-- ===== src/System/ControlLoop.antt =====
-- From the webhook to the publisher: the operator that main builds, the ConfigMap of the flag, the
-- file that the kubelet mounts of it, and the orders service that reads the file.
use reliability_lab.Common.{◌≡◌, refl, String, [], ◌∷◌, Option, none, some, true, arith, ok}
use reliability_lab.Common.Dict.{lookup, index, value_or}
use reliability_lab.Common.Text.{codes, is_space}
use reliability_lab.Classifier.{label, circuit_break}
use reliability_lab.Dedupe.Clock.{Time}
use reliability_lab.Dedupe.{new_dedupe, acquire, inside}
use reliability_lab.Common.Int.{ℤ}
use reliability_lab.Remedy.Cluster.{Client, ConfigMap, Laws}
use reliability_lab.Remedy.CircuitBreak.{flag_key, flag_of, entries_of, circuit_break_apply}
use reliability_lab.Remedy.CircuitBreak.Engages.{circuit_break_apply-Engaged}
use reliability_lab.Remedy.{target_key}
use reliability_lab.Server.Payload.{Alert, AlertManagerPayload, is_firing}
use reliability_lab.Server.{new_server, dispatch, handle_alert}
use reliability_lab.Server.Accepted.{accepted, dispatch_all, handle_alert_lem}
use reliability_lab.Manager.{Flags}
use reliability_lab.Orders.Flag.{File, read}
use reliability_lab.Orders.Create.{App, OrderRequest, handle_create, Msg}
use reliability_lab.Orders.Create.Outcomes.{with_publish, handle_create-idle}
use reliability_lab.System.Dispatch.{operator, input_for, dispatch-Selects}

-- The file that the kubelet makes of a ConfigMap's entry: its value, or no file where the ConfigMap
-- has no such entry.
abbrev content : Option String → File
content none = none
content (some v) = some (codes v)

abbrev pub projected : ConfigMap → File
projected cm = content (lookup flag_key (entries_of cm.entries))

read-content : (o : Option String) → value_or "" o ≡ "false" → read (content o) ≡ true
unfolding read is_space
read-content none e = cc
read-content (some v) e = rw e refl

-- A file that says "false" is read as paused.
pub flag_read : (cm : ConfigMap) → flag_of cm ≡ "false" → read (projected cm) ≡ true
unfolding flag_of index
flag_read cm e = read-content (lookup flag_key (entries_of cm.entries)) e

abbrev pub IsEmailPage : Alert → Type 0
IsEmailPage a =
    (is_firing a ≡ true)
    × (label a.labels "severity" ≡ "page")
    × (label a.labels "service" ≡ "email-worker")

acquire-new_dedupe : (c : ℤ) (fp : String) (now : Time) → (acquire (new_dedupe c) fp now).1 ≡ true
unfolding acquire new_dedupe inside lookup
acquire-new_dedupe c fp now = ground arith

accepted_one :
    (c : ℤ) (now : Time) (a : Alert)
    → is_firing a ≡ true
    → accepted now (a ∷ []) (new_dedupe c) ≡ a ∷ []
unfolding accepted
accepted_one c now a f = rw (f, acquire-new_dedupe c a.fingerprint now) refl

module _ {W E : Type 0} (client : Client W E) (flags : Flags) where
  dispatch-email :
      (a : Alert) (w : W)
      → IsEmailPage a
      → dispatch (operator client flags).cfg a w
        ≡ (circuit_break_apply (input_for client flags a) w).1
  dispatch-email a w (f, p, s) =
      (dispatch-Selects client flags a w circuit_break "orders-svc-flags" (p, s, refl)).0

  handle_email :
      (a : Alert) (p : AlertManagerPayload) (now : Time) (w : W)
      → p.alerts ≡ a ∷ []
      → IsEmailPage a
      → (handle_alert (operator client flags) (some p) now w).2
        ≡ (circuit_break_apply (input_for client flags a) w).1
  handle_email a p now w one e =
      rw (handle_alert_lem (operator client flags) p now w)
        (rw one (rw accepts (unfold dispatch_all in dispatch-email a w e)))
    where
      accepts : accepted now (a ∷ []) (operator client flags).dedupe ≡ a ∷ []
      accepts = unfold new_server in accepted_one _ now a e.0

  -- The orders service with the flag that it reads from the file.
  abbrev pub reading : {X D : Type 0} → File → App X D → App X D
  reading file app = record app { publishing_paused = read file }

  -- The control loop. The client meets its laws, the operator that main builds gets a payload of
  -- one firing page of the email worker, and its remedy returns nil. The request is answered 202, and
  -- the cluster then holds the ConfigMap that the remedy is about; the file that the kubelet makes of
  -- it, once its sync has come, is read as paused, and an orders service that has read that file never
  -- calls JetStream for an order: its response and its final state are the same for any two.
  pub control_loop :
      (laws : Laws client) (a : Alert) (p : AlertManagerPayload) (now : Time) (w : W) {X D : Type 0}
      (app : App X D) (f g : Msg → X → Option D × X) (req : OrderRequest) (x : X)
      → p.alerts ≡ a ∷ []
      → IsEmailPage a
      → (circuit_break_apply (input_for client flags a) w).0 ≡ none
      → let (response, s', w') = handle_alert (operator client flags) (some p) now w in
        (response.status ≡ 202)
        × ((cm : ConfigMap) × (client.get_config_map (target_key (input_for client flags a)) w'
              ≡ ok cm)
            × (read (projected cm) ≡ true)
            × (handle_create (with_publish (reading (projected cm) app) x f) (some req) x
                ≡ handle_create (with_publish (reading (projected cm) app) x g) (some req) x))
  control_loop laws a p now w app f g req x one e done =
      let (cm, got, engaged) = circuit_break_apply-Engaged (input_for client flags a) laws w done in
      let paused = flag_read cm engaged.paused in
      (
        rw (handle_alert_lem (operator client flags) p now w) refl,
        (
          cm,
          rw (handle_email a p now w one e) got,
          paused,
          handle_create-idle (reading (projected cm) app) x f g req paused,
        ),
      )
