-- ===== src/Witnesses/Concurrent.antt =====
-- Webhooks that are handled at once, at concrete payloads.
use reliability_lab.Common.{update, ◌≤◌, ◌+◌, ◌*◌, ◌-◌, ℕ, ◌≡◌, refl, List, [], ◌∷◌, arith}
use reliability_lab.Common.Int.{pos}
use reliability_lab.Dedupe.{new_dedupe}
use reliability_lab.Dedupe.Skew.{SpacedBut}
use reliability_lab.Server.Concurrent.{idle, reading, answered, accepted_page, advance, turn}
use reliability_lab.Server.Concurrent.Ends.{Moment, steps_at, steps_at-answered}
use reliability_lab.Server.Concurrent.Interleaved.{
  Webhooks, moved, Reach, start, later, tick, arrive, move, Reach-SpacedBut,
}
use reliability_lab.Server.Concurrent.Rate.{acted_since, Reach-rate}
use reliability_lab.Witnesses.Fixtures.{World, start_world}
use reliability_lab.Witnesses.Pages.{email_payload, op}

-- At each of four steps the handler finds the clock, the dedupe and the cluster of this moment.
abbrev moment : Moment World
moment = record { clock = 5; dedupe = new_dedupe (pos 60); cluster = start_world }

abbrev four_moments : List (Moment World)
four_moments = moment ∷ record moment { clock = 7 } ∷ moment ∷ moment ∷ []

steps_at-answered_example :
    steps_at op.cfg four_moments (reading email_payload) ≡ answered accepted_page
steps_at-answered_example =
    steps_at-answered op.cfg four_moments (reading email_payload) tt (omega arith)

-- A cooldown of 60, and 2 between the reading of the clock and the mutex.
abbrev none_yet : Webhooks World
none_yet = record {
  clock = 0;
  dedupe = new_dedupe (pos 60);
  cluster = start_world;
  handlers = λ i. idle;
  acted = [];
}

abbrev arrived : ℕ → Webhooks World → Webhooks World
arrived i s = record s { handlers = update s.handlers i (reading email_payload) }

-- Two webhooks with the same alert: both have read the clock, and the second turns first.
abbrev both_read : Webhooks World
both_read = moved op.cfg 2 (moved op.cfg 2 (arrived 1 (arrived 0 none_yet)) 0) 1

abbrev both_turned : Webhooks World
both_turned = moved op.cfg 2 (moved op.cfg 2 (record both_read { clock = 2 }) 1) 0

both_turned-Reach : Reach op.cfg 2 (pos 60) both_turned
unfolding advance turn
both_turned-Reach =
    let r : Reach op.cfg 2 (pos 60) (arrived 1 (arrived 0 none_yet)) =
      later (later (start 0 start_world) (arrive 0 email_payload refl))
        (arrive 1 email_payload refl) in
    let read : Reach op.cfg 2 (pos 60) both_read = later (later r (move 0 tt)) (move 1 tt) in
    later (later (later read (tick 2 (omega arith))) (move 1 (omega arith))) (move 0 (omega arith))

Reach-SpacedBut_example : SpacedBut 2 (pos 60) both_turned.acted
Reach-SpacedBut_example =
    Reach-SpacedBut op.cfg 2 (pos 60) (omega arith) (omega arith) both_turned-Reach

Reach-rate_example : acted_since 0 "f1" both_turned.acted * (60 - 2) ≤ 2 + (60 - 2) - 0
Reach-rate_example =
    Reach-rate op.cfg 2 (pos 60) (omega arith) (omega arith) 0 "f1" both_turned-Reach
