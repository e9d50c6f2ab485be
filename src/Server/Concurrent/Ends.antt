-- ===== src/Server/Concurrent/Ends.antt =====
-- How a handler ends, with other handlers between its steps.
use reliability_lab.Common.{
  ℕ, ◌+◌, ◌-◌, ◌*◌, ◌≤◌, ◌≡◌, refl, sym, subst, List, [], ◌∷◌, Bool, true, false, length, arith,
}
use reliability_lab.Dedupe.Clock.{Time}
use reliability_lab.Dedupe.{Dedupe}
use reliability_lab.Server.Payload.{Alert}
use reliability_lab.Server.{Config}
use reliability_lab.Server.Accepted.{accepts}
use reliability_lab.Server.Concurrent.{
  Handler, idle, reading, looping, dispatching, answered, accepted_page, turned, turn, turn_lem,
  advance,
}

-- What a step finds: the clock, the dedupe and the cluster, as the other handlers have left them.
pub record Moment (W : Type 0) : Type 0 where
  pub clock : Time
  pub dedupe : Dedupe
  pub cluster : W

-- How many steps are left at most.
abbrev pub steps_left : Handler → ℕ
steps_left idle = 0
steps_left (reading p) = 2 * length p.alerts + 2
steps_left (looping now alerts) = 2 * length alerts + 1
steps_left (dispatching now a alerts) = 2 * length alerts + 2
steps_left (answered r) = 0

-- The handler serves a request, and has not answered it by anything but 202.
abbrev pub IsServing : Handler → Type 0
IsServing idle = ⊥
IsServing (answered r) = r ≡ accepted_page
IsServing _ = Unit {0}

turned-falls :
    (now : Time) (a : Alert) (alerts : List Alert) (b : Bool)
    → let h = turned now a alerts b in IsServing h × (steps_left h ≤ 2 * length alerts + 2)
turned-falls now a alerts true = (tt, omega arith)
turned-falls now a alerts false = (tt, omega arith)

turn-falls :
    (now : Time) (a : Alert) (alerts : List Alert) (d : Dedupe)
    → let h = (turn now a alerts d).0 in IsServing h × (steps_left h ≤ 2 * length alerts + 2)
turn-falls now a alerts d =
    subst (λ r. IsServing r.0 × (steps_left r.0 ≤ 2 * length alerts + 2))
      (sym (turn_lem now a alerts d)) (turned-falls now a alerts (accepts now a d))

module _ {W E : Type 0} (cfg : Config W E) where
  abbrev pub step_at : Moment W → Handler → Handler
  step_at m h = (advance cfg m.clock h m.dedupe m.cluster).0

  unfoldable pub steps_at : List (Moment W) → Handler → Handler
  steps_at [] h = h
  steps_at (m ∷ ms) h = steps_at ms (step_at m h)

  step_at-falls :
      (m : Moment W) (h : Handler)
      → IsServing h
      → IsServing (step_at m h) × (steps_left (step_at m h) ≤ steps_left h - 1)
  unfolding advance
  step_at-falls m idle s = absurd s
  step_at-falls m (reading p) s = (tt, omega arith)
  step_at-falls m (looping now []) s = (refl, omega arith)
  step_at-falls m (looping now (a ∷ alerts)) s =
      let (serving, falls) = turn-falls now a alerts m.dedupe in (serving, omega arith)
  step_at-falls m (dispatching now a alerts) s = (tt, omega arith)
  step_at-falls m (answered r) s = (s, omega arith)

  ended : (h : Handler) → IsServing h → steps_left h ≡ 0 → h ≡ answered accepted_page
  ended idle s e = absurd s
  ended (reading p) s e = absurd (omega arith)
  ended (looping now alerts) s e = absurd (omega arith)
  ended (dispatching now a alerts) s e = absurd (omega arith)
  ended (answered r) s e = rw s refl

  -- A handler that serves a request has answered it by 202 after at most two steps for each alert
  -- that is left and two more, whatever clock, dedupe and cluster it finds at each of its steps.
  pub steps_at-answered :
      (ms : List (Moment W)) (h : Handler)
      → IsServing h
      → steps_left h ≤ length ms
      → steps_at ms h ≡ answered accepted_page
  unfolding steps_at
  steps_at-answered [] h s le = ended h s (omega arith)
  steps_at-answered (m ∷ ms) h s le =
      let (serving, falls) = step_at-falls m h s in
      steps_at-answered ms (step_at m h) serving (omega arith)
