-- ===== src/Server/Concurrent/Alone.antt =====
-- A handler that runs alone, and handleAlert as one function.
use reliability_lab.Common.{
  ℕ, zero, suc, ◌+◌, ◌*◌, ◌≤◌, ◌≡◌, refl, sym, ◌∙◌, List, [], ◌∷◌, some, Bool, true, false, length,
  arith, if◌then◌else◌, ap,
}
use reliability_lab.Dedupe.Clock.{Time}
use reliability_lab.Dedupe.{Dedupe}
use reliability_lab.Server.Payload.{Alert, AlertManagerPayload}
use reliability_lab.Server.{Config, dispatch, handle_alerts, handle_alert}
use reliability_lab.Server.Accepted.{accepts, dedupe_after, handle_one_lem}
use reliability_lab.Server.Concurrent.{
  Handler, reading, looping, answered, accepted_page, turned, turn_lem, advance,
}

module _ {W E : Type 0} (cfg : Config W E) (clock : Time) where
  unfoldable pub run_alone : ℕ → Handler → Dedupe → W → Handler × Dedupe × W
  run_alone zero h d w = (h, d, w)
  run_alone (suc n) h d w = let (h', d', w') = advance cfg clock h d w in run_alone n h' d' w'

  stays :
      (n : ℕ) (d : Dedupe) (w : W)
      → run_alone n (answered accepted_page) d w ≡ (answered accepted_page, d, w)
  unfolding run_alone advance
  stays zero d w = refl
  stays (suc n) d w = stays n d w

  -- What the loop leaves of the alerts.
  abbrev ended : Time → List Alert → Dedupe → W → Handler × Dedupe × W
  ended now alerts d w =
      let (d', w') = handle_alerts cfg now alerts d w in (answered accepted_page, d', w')

  ended-cons :
      (now : Time) (a : Alert) (alerts : List Alert) (d : Dedupe) (w : W)
      → ended now (a ∷ alerts) d w
        ≡ ended now alerts (dedupe_after now a d) (if accepts now a d then dispatch cfg a w else w)
  unfolding handle_alerts
  ended-cons now a alerts d w = ap (λ r. ended now alerts r.0 r.1) (handle_one_lem cfg now a d w)

  run_alone-turn :
      (n : ℕ) (now : Time) (a : Alert) (alerts : List Alert) (d : Dedupe) (w : W)
      → run_alone (suc n) (looping now (a ∷ alerts)) d w
        ≡ run_alone n (turned now a alerts (accepts now a d)) (dedupe_after now a d) w
  unfolding run_alone advance
  run_alone-turn n now a alerts d w = ap (λ r. run_alone n r.0 r.1 w) (turn_lem now a alerts d)

  -- With enough steps, the loop over the alerts ends as handleAlert's.
  abbrev LoopsAlone : Time → List Alert → Type 0
  LoopsAlone now alerts =
      (n : ℕ) (d : Dedupe) (w : W)
      → 2 * length alerts + 1 ≤ n
      → run_alone n (looping now alerts) d w ≡ ended now alerts d w

  turned_alone :
      (now : Time) (a : Alert) (alerts : List Alert) (b : Bool) (n : ℕ) (d : Dedupe) (w : W)
      → LoopsAlone now alerts
      → 2 * length alerts + 2 ≤ n
      → run_alone n (turned now a alerts b) d w
        ≡ ended now alerts d (if b then dispatch cfg a w else w)
  unfolding run_alone advance
  turned_alone now a alerts b zero d w rest le = absurd (omega arith)
  turned_alone now a alerts true (suc n) d w rest le = rest n d (dispatch cfg a w) (omega arith)
  turned_alone now a alerts false (suc n) d w rest le = rest (suc n) d w (omega arith)

  loop_alone : (now : Time) (alerts : List Alert) → LoopsAlone now alerts
  unfolding run_alone advance handle_alerts
  loop_alone now alerts zero d w le = absurd (omega arith)
  loop_alone now [] (suc n) d w le = stays n d w
  loop_alone now (a ∷ alerts) (suc n) d w le =
      run_alone-turn n now a alerts d w
      ∙ turned_alone now a alerts (accepts now a d) n (dedupe_after now a d) w
          (loop_alone now alerts) (omega arith)
      ∙ sym (ended-cons now a alerts d w)

  -- Without interference, a handler that starts with a payload ends, after at most two steps for
  -- each of its alerts and two more, with the answer, the dedupe and the cluster of handleAlert.
  pub run_alone-handle_alert :
      (n : ℕ) (p : AlertManagerPayload) (d : Dedupe) (w : W)
      → 2 * length p.alerts + 2 ≤ n
      → let (response, s, w') = handle_alert (record { cfg = cfg; dedupe = d }) (some p) clock w in
        run_alone n (reading p) d w ≡ (answered response, s.dedupe, w')
  unfolding run_alone advance handle_alert
  run_alone-handle_alert zero p d w le = absurd (omega arith)
  run_alone-handle_alert (suc n) p d w le = loop_alone clock p.alerts n d w (omega arith)
