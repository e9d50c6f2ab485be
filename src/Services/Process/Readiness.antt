-- ===== src/Services/Process/Readiness.antt =====
-- What the probe routes show while a process runs and drains.
use reliability_lab.Common.{Bool, true, false, ◌≡◌, ◌≢◌, refl, none, some}
use reliability_lab.Obs.Health.{Health, Page, new_health, apply_op, readyz}
use reliability_lab.Services.Process.{
  Grpc, starting, serving, stopped, Probes, listening, closed, Main, waiting, draining, exited,
  Process, launched, Step, probe_answer, ready_answer, signal, grpc_ready, grpc_returns,
  probes_bind, probes_fail, probes_shut, not_ready, graceful_stop, Steps, done, next,
}

abbrev has_started : Grpc → Bool
has_started starting = false
has_started _ = true

-- The readiness while main waits.
abbrev Shown : Bool → Grpc → Main → Type 0
Shown ready g waiting = ready ≡ has_started g
Shown ready g _ = Unit {0}

abbrev Ended : Bool → Main → Type 0
Ended ctx_done waiting = Unit {0}
Ended ctx_done _ = ctx_done ≡ true

-- The readiness once Ready has come before NotReady.
abbrev Drains : Bool → Grpc → Main → Type 0
Drains ready starting m = ⊥
Drains ready g waiting = ready ≡ true
Drains ready g _ = ready ≡ false

Ended-done : (d : Bool) (m : Main) → Ended d m → m ≢ waiting → d ≡ true
Ended-done d waiting i n = absurd (n refl)
Ended-done d draining i n = i
Ended-done d exited i n = i

abbrev pub ready_page : Page
ready_page = record { status = 200; body = "ready" }

abbrev pub unready_page : Page
unready_page = record { status = 503; body = "" }

Drains-answer :
    (h : Health) (p : Probes) (g : Grpc) (m : Main)
    → Drains h.ready g m
    → p ≡ listening
    → (m ≡ waiting → probe_answer p m h ≡ some ready_page)
      × (m ≡ draining → probe_answer p m h ≡ some unready_page)
unfolding probe_answer readyz
Drains-answer h p starting m i l = absurd i
Drains-answer h p serving waiting i l = rw (l, i) ((λ e. refl), (λ e. cc))
Drains-answer h p serving draining i l = rw (l, i) ((λ e. cc), (λ e. refl))
Drains-answer h p serving exited i l = ((λ e. cc), (λ e. cc))
Drains-answer h p stopped waiting i l = rw (l, i) ((λ e. refl), (λ e. cc))
Drains-answer h p stopped draining i l = rw (l, i) ((λ e. cc), (λ e. refl))
Drains-answer h p stopped exited i l = ((λ e. cc), (λ e. cc))

closed-answer : (h : Health) (p : Probes) (m : Main) → p ≡ closed → probe_answer p m h ≡ none
unfolding probe_answer
closed-answer h p m c = rw c refl

Drains-first : (r : Bool) (g : Grpc) → r ≡ has_started g → g ≢ starting → Drains r g waiting
Drains-first r starting i n = absurd (n refl)
Drains-first r serving i n = i
Drains-first r stopped i n = i

module _ {E : Type 0} (is_stopped : E → Bool) where
  record Inv (s : Process) : Type 0 where
    shown : Shown s.health.ready s.grpc s.main
    ended : Ended s.ctx_done s.main

  Shown-started : (g : Grpc) (m : Main) → Shown true serving m
  Shown-started g waiting = refl
  Shown-started g draining = tt
  Shown-started g exited = tt

  Shown-stopped : (r : Bool) (m : Main) → Shown r serving m → Shown r stopped m
  Shown-stopped r waiting i = i
  Shown-stopped r draining i = i
  Shown-stopped r exited i = i

  Ended-later : (d d' : Bool) (m : Main) → (d ≡ true → d' ≡ true) → Ended d m → Ended d' m
  Ended-later d d' waiting k i = i
  Ended-later d d' draining k i = k i
  Ended-later d d' exited k i = k i

  Step-Inv : {s t : Process} → Step is_stopped s t → Inv s → Inv t
  unfolding apply_op
  Step-Inv {s} signal i = record {
    shown = i.shown;
    ended = Ended-later s.ctx_done true s.main (λ d. refl) i.ended;
  }
  Step-Inv {s} (grpc_ready g) i = record { shown = Shown-started s.grpc s.main; ended = i.ended }
  Step-Inv {s} (grpc_returns e g) i = record {
    shown = Shown-stopped s.health.ready s.main (rw g at i.shown);
    ended = Ended-later s.ctx_done _ s.main (λ d. rw d refl) i.ended;
  }
  Step-Inv (probes_bind p) i = record { shown = i.shown; ended = i.ended }
  Step-Inv (probes_fail e p) i = record { shown = i.shown; ended = i.ended }
  Step-Inv (probes_shut p d) i = record { shown = i.shown; ended = i.ended }
  Step-Inv (not_ready m d) i = record { shown = tt; ended = d }
  Step-Inv (graceful_stop m) i = record { shown = tt; ended = rw m at i.ended }

  Steps-Inv : {s t : Process} → Steps is_stopped s t → Inv s → Inv t
  Steps-Inv done i = i
  Steps-Inv (next alive st run) i = Steps-Inv run (Step-Inv st i)

  launched-Inv : Inv launched
  unfolding new_health
  launched-Inv = record { shown = refl; ended = tt }

  Drains-started : (r : Bool) (g : Grpc) (m : Main) → Drains r g m → g ≢ starting
  Drains-started r starting m i = absurd i
  Drains-started r serving m i = λ e. cc
  Drains-started r stopped m i = λ e. cc

  Drains-waiting : (r : Bool) (g : Grpc) → Drains r g waiting → Drains false g draining
  Drains-waiting r starting i = absurd i
  Drains-waiting r serving i = refl
  Drains-waiting r stopped i = refl

  Drains-draining : (r : Bool) (g : Grpc) → Drains r g draining → Drains r g exited
  Drains-draining r starting i = absurd i
  Drains-draining r serving i = i
  Drains-draining r stopped i = i

  Drains-stopped : (r : Bool) (m : Main) → Drains r serving m → Drains r stopped m
  Drains-stopped r waiting i = i
  Drains-stopped r draining i = i
  Drains-stopped r exited i = i

  Step-Drains :
      {s t : Process}
      → Step is_stopped s t
      → Drains s.health.ready s.grpc s.main
      → Drains t.health.ready t.grpc t.main
  unfolding apply_op
  Step-Drains signal i = i
  Step-Drains {s} (grpc_ready g) i = absurd (Drains-started s.health.ready s.grpc s.main i g)
  Step-Drains {s} (grpc_returns e g) i = Drains-stopped s.health.ready s.main (rw g at i)
  Step-Drains (probes_bind p) i = i
  Step-Drains (probes_fail e p) i = i
  Step-Drains (probes_shut p d) i = i
  Step-Drains {s} (not_ready m d) i = Drains-waiting s.health.ready s.grpc (rw m at i)
  Step-Drains {s} (graceful_stop m) i = Drains-draining s.health.ready s.grpc (rw m at i)

  Steps-Drains :
      {s t : Process}
      → Steps is_stopped s t
      → Drains s.health.ready s.grpc s.main
      → Drains t.health.ready t.grpc t.main
  Steps-Drains done i = i
  Steps-Drains (next alive st run) i = Steps-Drains run (Step-Drains st i)

  Step-closed : {s t : Process} → Step is_stopped s t → s.probes ≡ closed → t.probes ≡ closed
  Step-closed signal c = c
  Step-closed (grpc_ready g) c = c
  Step-closed (grpc_returns e g) c = c
  Step-closed (probes_bind p) c = cc
  Step-closed (probes_fail e p) c = refl
  Step-closed (probes_shut p d) c = refl
  Step-closed (not_ready m d) c = c
  Step-closed (graceful_stop m) c = c

  Steps-closed : {s t : Process} → Steps is_stopped s t → s.probes ≡ closed → t.probes ≡ closed
  Steps-closed done c = c
  Steps-closed (next alive st run) c = Steps-closed run (Step-closed st c)

  -- If main still waits when Ready has been called, then whatever comes after it: where the server of
  -- the probes listens, /readyz answers 200 until main calls NotReady, and 503 from there to the exit;
  -- once that server is closed, by Shutdown or by an error, there is no answer any more; and main stops
  -- waiting only when the context is done, from which on Shutdown may close it at any time.
  pub Steps-drained :
      {s t : Process}
      → Steps is_stopped launched s
      → s.main ≡ waiting
      → s.grpc ≢ starting
      → Steps is_stopped s t
      → (t.probes ≡ listening → t.main ≡ waiting → ready_answer t ≡ some ready_page)
        × (t.probes ≡ listening → t.main ≡ draining → ready_answer t ≡ some unready_page)
        × (s.probes ≡ closed → ready_answer t ≡ none)
        × (t.main ≢ waiting → t.ctx_done ≡ true)
  Steps-drained {s} {t} before m g after =
      let i = Steps-Inv before launched-Inv in
      let first : Drains s.health.ready s.grpc waiting =
        Drains-first s.health.ready s.grpc (rw m at i.shown) g in
      let drains = Steps-Drains after (rw m first) in
      (
        (λ l. (Drains-answer t.health t.probes t.grpc t.main drains l).0),
        (λ l. (Drains-answer t.health t.probes t.grpc t.main drains l).1),
        (λ c. closed-answer t.health t.probes t.main (Steps-closed after c)),
        Ended-done t.ctx_done t.main (Steps-Inv after i).ended,
      )

  -- If the context is done before the gRPC goroutine has called Ready, while the server of the probes
  -- listens and before Shutdown closes it, the process can come to a state in which main drains and
  -- /readyz answers 200, and go on from there to its exit: NotReady comes first, and Ready after it.
  pub late_ready :
      (s : Process)
      → s.main ≡ waiting
      → s.grpc ≡ starting
      → s.ctx_done ≡ true
      → s.probes ≡ listening
      → (t u : Process) × Steps is_stopped s t
        × (t.main ≡ draining)
        × (ready_answer t ≡ some ready_page)
        × Steps is_stopped t u
        × (u.main ≡ exited)
  unfolding probe_answer readyz apply_op
  late_ready s m g d l = (
    _,
    _,
    next (rw m (λ e. cc)) (not_ready m d) (next (λ e. cc) (grpc_ready g) done),
    refl,
    rw l refl,
    next (λ e. cc) (graceful_stop refl) done,
    refl,
  )
