-- ===== src/System/Calls/Alone.antt =====
-- A handler that runs alone, call by call, and handleAlert as one function.
use reliability_lab.Common.{
  ℕ, zero, suc, ◌+◌, ◌*◌, ◌≤◌, ◌≡◌, refl, ap, sym, ◌∙◌, List, [], ◌∷◌, some, Bool, true, false,
  length, arith, if◌then◌else◌,
}
use reliability_lab.Classifier.{Kind, no_remedy, rollback, scale_up, circuit_break, classify}
use reliability_lab.Dedupe.Clock.{Time}
use reliability_lab.Dedupe.{Dedupe}
use reliability_lab.Remedy.Cluster.{Client}
use reliability_lab.Remedy.CircuitBreak.{circuit_break_apply}
use reliability_lab.Remedy.ScaleUp.{scale_up_apply}
use reliability_lab.Server.Payload.{Alert, AlertManagerPayload}
use reliability_lab.Server.{dispatch, handle_alerts, handle_alert}
use reliability_lab.Server.Accepted.{accepts, dedupe_after, handle_one_lem}
use reliability_lab.Server.Concurrent.{
  reading, looping, dispatching, answered, accepted_page, turned, turn_lem, advance,
}
use reliability_lab.Manager.{Flags}
use reliability_lab.System.Dispatch.{operator, input_for, remedied, dispatch_by}
use reliability_lab.System.Calls.{Handler, serving, begin, finish, step}

module _ {W E : Type 0} (client : Client W E) (flags : Flags) (clock : Time) where
  unfoldable pub run_alone : ℕ → Handler E → Dedupe → W → Handler E × Dedupe × W
  run_alone zero h d w = (h, d, w)
  run_alone (suc n) h d w = let (h', d', w') = step client flags clock h d w in run_alone n h' d' w'

  stays :
      (n : ℕ) (d : Dedupe) (w : W)
      → run_alone n (serving (answered accepted_page)) d w
        ≡ (serving (answered accepted_page), d, w)
  unfolding run_alone step advance
  stays zero d w = refl
  stays (suc n) d w = stays n d w

  run_alone-turn :
      (n : ℕ) (now : Time) (a : Alert) (alerts : List Alert) (d : Dedupe) (w : W)
      → run_alone (suc n) (serving (looping now (a ∷ alerts))) d w
        ≡ run_alone n (serving (turned now a alerts (accepts now a d))) (dedupe_after now a d) w
  unfolding run_alone step advance
  run_alone-turn n now a alerts d w =
      ap (λ r. run_alone n (serving r.0) r.1 w) (turn_lem now a alerts d)

  run_alone-dispatching :
      (n : ℕ) (now : Time) (a : Alert) (alerts : List Alert) (d : Dedupe) (w : W)
      → let (h, w') = begin client flags (classify a.labels).kind now a alerts w in
        run_alone (suc n) (serving (dispatching now a alerts)) d w ≡ run_alone n h d w'
  unfolding run_alone step
  run_alone-dispatching n now a alerts d w = refl

  -- What the loop of handleAlert leaves of the alerts.
  abbrev ended : Time → List Alert → Dedupe → W → Handler E × Dedupe × W
  ended now alerts d w =
      let (d', w') = handle_alerts (operator client flags).cfg now alerts d w in
      (serving (answered accepted_page), d', w')

  ended-cons :
      (now : Time) (a : Alert) (alerts : List Alert) (d : Dedupe) (w : W)
      → ended now (a ∷ alerts) d w
        ≡ ended now alerts
            (dedupe_after now a d)
            (if accepts now a d then dispatch (operator client flags).cfg a w else w)
  unfolding handle_alerts
  ended-cons now a alerts d w =
      ap (λ r. ended now alerts r.0 r.1) (handle_one_lem (operator client flags).cfg now a d w)

  -- With enough steps, the loop over the alerts ends as handleAlert's.
  abbrev LoopsAlone : Time → List Alert → Type 0
  LoopsAlone now alerts =
      (n : ℕ) (d : Dedupe) (w : W)
      → 3 * length alerts + 1 ≤ n
      → run_alone n (serving (looping now alerts)) d w ≡ ended now alerts d w

  -- After the first call of a remedy: its rest, and the other alerts.
  begun_alone :
      (k : Kind) (now : Time) (a : Alert) (alerts : List Alert) (n : ℕ) (d : Dedupe) (w : W)
      → LoopsAlone now alerts
      → 3 * length alerts + 1 ≤ n
      → let (h, w') = begin client flags k now a alerts w in
        run_alone (suc n) h d w' ≡ ended now alerts d (remedied k (input_for client flags a) w)
  unfolding begin
  begun_alone no_remedy now a alerts n d w rest le = rest (suc n) d _ (omega arith)
  begun_alone rollback now a alerts n d w rest le = rest (suc n) d _ (omega arith)
  begun_alone scale_up now a alerts n d w rest le =
      unfold run_alone step finish scale_up_apply in rest n d _ le
  begun_alone circuit_break now a alerts n d w rest le =
      unfold run_alone step finish circuit_break_apply in rest n d _ le

  dispatched_alone :
      (now : Time) (a : Alert) (alerts : List Alert) (n : ℕ) (d : Dedupe) (w : W)
      → LoopsAlone now alerts
      → 3 * length alerts + 1 ≤ n
      → run_alone (suc (suc n)) (serving (dispatching now a alerts)) d w
        ≡ ended now alerts d (dispatch (operator client flags).cfg a w)
  dispatched_alone now a alerts n d w rest le =
      run_alone-dispatching (suc n) now a alerts d w
      ∙ begun_alone (classify a.labels).kind now a alerts n d w rest le
      ∙ ap (ended now alerts d) (sym (dispatch_by client flags a w (classify a.labels).kind refl))

  turned_alone :
      (now : Time) (a : Alert) (alerts : List Alert) (b : Bool) (n : ℕ) (d : Dedupe) (w : W)
      → LoopsAlone now alerts
      → 3 * length alerts + 1 ≤ n
      → run_alone (suc (suc n)) (serving (turned now a alerts b)) d w
        ≡ ended now alerts d (if b then dispatch (operator client flags).cfg a w else w)
  turned_alone now a alerts true n d w rest le = dispatched_alone now a alerts n d w rest le
  turned_alone now a alerts false n d w rest le = rest (suc (suc n)) d w (omega arith)

  loop_alone : (now : Time) (alerts : List Alert) → LoopsAlone now alerts
  loop_alone now alerts zero d w le = absurd (omega arith)
  loop_alone now [] (suc n) d w le = unfold run_alone step advance handle_alerts in stays n d w
  loop_alone now (a ∷ alerts) (suc (suc (suc n))) d w le =
      run_alone-turn (suc (suc n)) now a alerts d w
      ∙ turned_alone now a alerts (accepts now a d) n (dedupe_after now a d) w
          (loop_alone now alerts) (omega arith)
      ∙ sym (ended-cons now a alerts d w)
  loop_alone now (a ∷ alerts) (suc n) d w le = absurd (omega arith)

  -- With each call of the API as a step: without interference, a handler that starts with a payload
  -- ends, after at most three steps for each of its alerts and two more, with the answer, the dedupe
  -- and the cluster of handleAlert.
  pub calls_alone-handle_alert :
      (n : ℕ) (p : AlertManagerPayload) (d : Dedupe) (w : W)
      → 3 * length p.alerts + 2 ≤ n
      → let (response, s, w') =
          handle_alert
            (record { cfg = (operator client flags).cfg; dedupe = d })
            (some p)
            clock
            w in
        run_alone n (serving (reading p)) d w ≡ (serving (answered response), s.dedupe, w')
  unfolding run_alone step advance handle_alert
  calls_alone-handle_alert zero p d w le = absurd (omega arith)
  calls_alone-handle_alert (suc n) p d w le = loop_alone clock p.alerts n d w (omega arith)
