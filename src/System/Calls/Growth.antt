-- ===== src/System/Calls/Growth.antt =====
-- How far the scale-ups raise the floor of an HPA, while the calls of any webhooks interleave.
use reliability_lab.Common.{
  ℕ, ◌+◌, ◌*◌, ◌≡◌, ◌∙◌, refl, subst, false, ok, err, List, [], ◌∷◌, arith, update-all,
  if◌then◌else◌,
}
use reliability_lab.Common.Int.{ℤ, pos, ◌+ℤ◌, ◌≤ℤ◌, leb_ℤ, add_i32}
use reliability_lab.Classifier.{Kind, scale_up, kind_eq, classify}
use reliability_lab.Dedupe.{Dedupe}
use reliability_lab.Dedupe.Clock.{Time}
use reliability_lab.Remedy.Cluster.{Client, Hpa, Key}
use reliability_lab.Remedy.ScaleUp.{current_of, target_of, bumped}
use reliability_lab.Server.Payload.{Alert}
use reliability_lab.Server.Concurrent.{idle, reading, looping, dispatching, answered, advance}
use reliability_lab.Manager.{Flags}
use reliability_lab.System.Calls.{
  Handler, serving, scaling, braking, Calls, begin, finish, step, Step, tick, arrive, move, Steps,
  done, next, started, ApiLaws,
}
use reliability_lab.System.Calls.Hpas.{
  IsStored, IsRead, begin-IsStored, begin-IsRead, finish-IsStored, finish-IsRead,
}

-- The next step of the handler is the first of a scale-up, or not.
abbrev pub begins_up : {E : Type 0} → Handler E → ℕ
begins_up (serving (dispatching now a rest)) =
    if kind_eq (classify a.labels).kind scale_up then 1 else 0
begins_up _ = 0

module _ {W E : Type 0} (client : Client W E) (flags : Flags) where
  abbrev pub ups : {s t : Calls W E} → Step client flags s t → ℕ
  ups (tick t le) = 0
  ups (arrive i p free) = 0
  ups {s} (move i) = begins_up (s.handlers i)

  -- How many scale-ups a run begins.
  unfoldable pub scale_ups : {s t : Calls W E} → Steps client flags s t → ℕ
  scale_ups done = 0
  scale_ups (next st run) = ups st + scale_ups run

-- A floor that is not negative and at most this; and one that two more keep so.
abbrev IsUnder : ℤ → Hpa → Type 0
IsUnder high h = (pos 0 ≤ℤ current_of h) × (current_of h ≤ℤ high)

abbrev HasRoom : ℤ → Hpa → Type 0
HasRoom high h = (pos 0 ≤ℤ current_of h) × (current_of h +ℤ pos 2 ≤ℤ high)

raises :
    (high : ℤ) (h now : Hpa)
    → leb_ℤ (target_of (pos 2) h) (current_of h) ≡ false
    → HasRoom high h
    → IsUnder high now
    → IsUnder high (bumped (target_of (pos 2) h) now)
unfolding target_of add_i32
raises high h now bump (low, room) under = ground arith

IsUnder-more : (low high : ℤ) (h : Hpa) → low ≤ℤ high → IsUnder low h → IsUnder high h
IsUnder-more low high h le u = ground arith

HasRoom-more : (low high : ℤ) (h : Hpa) → low ≤ℤ high → HasRoom low h → HasRoom high h
HasRoom-more low high h le r = ground arith

begin-HasRoom :
    (low high : ℤ) (k kind : Kind) (h : Hpa)
    → kind ≡ k
    → k ≡ scale_up
    → low +ℤ pos (2 * (if kind_eq kind scale_up then 1 else 0)) ≤ℤ high
    → IsUnder low h
    → HasRoom high h
begin-HasRoom low high k kind h e up le (natural, under) =
    let more : low +ℤ pos 2 ≤ℤ high =
      subst (λ j. low +ℤ pos (2 * (if kind_eq j scale_up then 1 else 0)) ≤ℤ high) (e ∙ up) le in
    ground arith

module _ {W E : Type 0} (client : Client W E) (laws : ApiLaws client) (flags : Flags)
    (hk : Key) where
  -- The HPA is found with a floor up to this, and what the scale-ups have read leaves room for two more.
  abbrev Under : ℤ → W → Type 0
  Under high = IsStored client hk (IsUnder high)

  abbrev Roomy : ℤ → Handler E → Type 0
  Roomy high = IsRead hk (HasRoom high)

  Roomy-more : (low high : ℤ) (h : Handler E) → low ≤ℤ high → Roomy low h → Roomy high h
  Roomy-more low high (serving h) le r = tt
  Roomy-more low high (scaling now rest key (err e)) le r = tt
  Roomy-more low high (scaling now rest key (ok h)) le (own, room) =
      (own, (λ here. HasRoom-more low high h le (room here)))
  Roomy-more low high (braking now rest key r) le r' = tt

  -- A step of a handler, after which the floor may be as high as `high`.
  abbrev Lifts : ℤ → ℤ → Handler E → W → Handler E → W → Type 0
  Lifts low high h w h' v =
      Roomy low h
      → Under low w
      → low +ℤ pos (2 * begins_up h) ≤ℤ high
      → Roomy high h' × Under high v

  Under-more : (low high : ℤ) (w : W) → low ≤ℤ high → Under low w → Under high w
  Under-more low high w le (h, got, under) = (h, got, IsUnder-more low high h le under)

  begin-Lifts :
      (low high : ℤ) (now : Time) (a : Alert) (rest : List Alert) (w : W)
      → let (h', v) = begin client flags (classify a.labels).kind now a rest w in
        Lifts low high (serving (dispatching now a rest)) w h' v
  begin-Lifts low high now a rest w room (h, got, under) le =
      let kind = (classify a.labels).kind in
      (
        begin-IsRead client laws flags hk (IsUnder high) (HasRoom high) (raises high) kind now a
            rest w
            (λ up g got'.
              let same : h ≡ g = cc in
              begin-HasRoom low high kind kind g refl up le (subst (IsUnder low) same under)),
        begin-IsStored client laws flags hk (IsUnder high) (HasRoom high) (raises high) kind now a
            rest w (h, got, IsUnder-more low high h (ground arith) under),
      )

  finish-Lifts :
      (low high : ℤ) (h : Handler E) (w : W)
      → low ≤ℤ high
      → Roomy low h
      → Under low w
      → let (h', v) = finish client flags h w in Roomy high h' × Under high v
  finish-Lifts low high h w le room under = (
    finish-IsRead client laws flags hk (IsUnder high) (HasRoom high) (raises high) h w,
    Under-more low high _ le (
        finish-IsStored client laws flags hk (IsUnder low) (HasRoom low) (raises low) h w room
          under),
  )

  step-Lifts :
      (low high : ℤ) (clock : Time) (h : Handler E) (d : Dedupe) (w : W)
      → let (h', d', v) = step client flags clock h d w in Lifts low high h w h' v
  unfolding step advance
  step-Lifts low high clock (serving idle) d w r u le = (tt, Under-more low high w (ground arith) u)
  step-Lifts low high clock (serving (reading q)) d w r u le =
      (tt, Under-more low high w (ground arith) u)
  step-Lifts low high clock (serving (looping now [])) d w r u le =
      (tt, Under-more low high w (ground arith) u)
  step-Lifts low high clock (serving (looping now (a ∷ alerts))) d w r u le =
      (tt, Under-more low high w (ground arith) u)
  step-Lifts low high clock (serving (dispatching now a rest)) d w r u le =
      begin-Lifts low high now a rest w r u le
  step-Lifts low high clock (serving (answered q)) d w r u le =
      (tt, Under-more low high w (ground arith) u)
  step-Lifts low high clock (scaling now rest key q) d w r u le =
      finish-Lifts low high (scaling now rest key q) w (ground arith) r u
  step-Lifts low high clock (braking now rest key q) d w r u le =
      finish-Lifts low high (braking now rest key q) w (ground arith) r u

  abbrev Kept : ℤ → Calls W E → Type 0
  Kept high s = Under high s.cluster × ((i : ℕ) → Roomy high (s.handlers i))

  Kept-more : (low high : ℤ) (s : Calls W E) → low ≤ℤ high → Kept low s → Kept high s
  Kept-more low high s le (under, all) =
      (Under-more low high s.cluster le under, (λ i. Roomy-more low high (s.handlers i) le (all i)))

  Step-Kept :
      (low high : ℤ) {s t : Calls W E} (st : Step client flags s t)
      → low +ℤ pos (2 * ups client flags st) ≤ℤ high
      → Kept low s
      → Kept high t
  Step-Kept low high {s} (tick t later) le kept = Kept-more low high s (ground arith) kept
  Step-Kept low high {s} (arrive i p free) le kept =
      let (under, all) = Kept-more low high s (ground arith) kept in
      (under, update-all (Roomy high) s.handlers i (serving (reading p)) all tt)
  Step-Kept low high {s} (move i) le (under, all) =
      let (room, under') =
        step-Lifts low high s.clock (s.handlers i) s.dedupe s.cluster (all i) under le in
      (
        under',
        update-all (Roomy high) s.handlers i _
            (λ j. Roomy-more low high (s.handlers j) (ground arith) (all j)) room,
      )

  Steps-Kept :
      (low high : ℤ) {s t : Calls W E} (run : Steps client flags s t)
      → low +ℤ pos (2 * scale_ups client flags run) ≤ℤ high
      → Kept low s
      → Kept high t
  unfolding scale_ups
  Steps-Kept low high {s} done le kept = Kept-more low high s (ground arith) kept
  Steps-Kept low high (next st run) le kept =
      let mid = low +ℤ pos (2 * ups client flags st) in
      Steps-Kept mid high run (ground arith) (Step-Kept low mid st (ground arith) kept)

-- Under the laws of creates and merge patches, where a write to one object leaves the others alone,
-- whatever the webhooks and however the calls that their remedies make interleave, some of them refused:
-- an HPA that is found with a floor that is not negative at the start is found at the end, with a floor
-- that is not negative and that is at most two for each scale-up that the run has begun above the one
-- at the start.
pub calls_growth :
    {W E : Type 0} (client : Client W E) (flags : Flags) (key : Key) (h : Hpa) {clock : Time}
    {d : Dedupe} {w : W} {s : Calls W E}
    → ApiLaws client
    → client.get_hpa key w ≡ ok h
    → pos 0 ≤ℤ current_of h
    → (run : Steps client flags (started clock d w) s)
    → (h' : Hpa) × (client.get_hpa key s.cluster ≡ ok h')
      × (pos 0 ≤ℤ current_of h')
      × (current_of h' ≤ℤ current_of h +ℤ pos (2 * scale_ups client flags run))
calls_growth client flags key h laws got natural run =
    let high = current_of h +ℤ pos (2 * scale_ups client flags run) in
    let (found, all) =
      Steps-Kept client laws flags key (current_of h) high run (ground arith)
        ((h, got, (natural, ground arith)), (λ i. tt)) in
    let (h', got', under) = found in (h', got', under.0, under.1)
