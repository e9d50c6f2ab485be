-- ===== src/Witnesses/Processes.antt =====
-- Serve, and the processes of the gRPC services, at concrete runs.
use reliability_lab.Common.{◌≡◌, ◌≢◌, ◌⊎◌, refl, Bool, true, false, none, some}
use reliability_lab.Obs.Health.{apply_op, new_health, set_ready, set_not_ready}
use reliability_lab.Obs.Serve.{
  Serving, entered, sent, sending, returned, listen_result, listen_returns, send, select_err, Reach,
  start, later,
}
use reliability_lab.Obs.Serve.Returns.{Reach-returned}
use reliability_lab.Services.Process
use reliability_lab.Services.Process.{
  Process, launched, starting, serving, waiting, draining, exited, listening, closed, probes_bind,
  ready_answer, signal, grpc_ready, not_ready, done, next,
}
use reliability_lab.Services.Process.Readiness.{Steps-drained, late_ready, ready_page, unready_page}

-- The one error of the servers; it is neither ErrServerClosed nor ErrServerStopped.
data ServeError : Type 0 where
  address_in_use : ServeError

abbrev is_closed : ServeError → Bool
is_closed e = false

abbrev about_to_send : Serving ServeError
about_to_send = record entered { listener = sending address_in_use }

about_to_send-Reach : Reach is_closed about_to_send
about_to_send-Reach = later start (listen_returns address_in_use refl (λ c. cc))

abbrev failed : Serving ServeError
failed = record entered { listener = sent; caller = returned (some address_in_use) }

failed-Reach : Reach is_closed failed
unfolding listen_result
failed-Reach =
    later (later about_to_send-Reach (send address_in_use refl refl))
      (select_err address_in_use refl refl)

Reach-returned_example :
    (false ≡ true) ⊎ ((e : ServeError) × (is_closed e ≡ false) × (some address_in_use ≡ some e))
Reach-returned_example = Reach-returned is_closed (some address_in_use) failed-Reach refl

-- The probes are served, and Ready has been called.
abbrev up : Process
up = record launched { health = apply_op set_ready new_health; grpc = serving; probes = listening }

up-Steps : Process.Steps is_closed launched up
up-Steps = next (λ e. cc) (probes_bind refl) (next (λ e. cc) (grpc_ready refl) done)

abbrev drained : Process
drained = record up { ctx_done = true; health = apply_op set_not_ready up.health; main = draining }

drained-Steps : Process.Steps is_closed up drained
drained-Steps = next (λ e. cc) signal (next (λ e. cc) (not_ready refl refl) done)

Steps-drained_example :
    (drained.probes ≡ listening → drained.main ≡ waiting → ready_answer drained ≡ some ready_page)
    × (drained.probes ≡ listening
        → drained.main ≡ draining
        → ready_answer drained ≡ some unready_page)
    × (up.probes ≡ closed → ready_answer drained ≡ none)
    × (drained.main ≢ waiting → drained.ctx_done ≡ true)
Steps-drained_example = Steps-drained is_closed up-Steps refl (λ e. cc) drained-Steps

abbrev stopped_early : Process
stopped_early = record launched { ctx_done = true; probes = listening }

late_ready_example :
    (t u : Process) × Process.Steps is_closed stopped_early t
    × (t.main ≡ draining)
    × (ready_answer t ≡ some ready_page)
    × Process.Steps is_closed t u
    × (u.main ≡ exited)
late_ready_example = late_ready is_closed stopped_early refl refl refl refl
