-- ===== src/Services/Process.antt =====
-- services/payments-svc/main.go and services/inventory-svc/main.go from their listener on: the
-- goroutine of the gRPC server, the goroutine of obs.Serve with its listener, and main, which waits
-- for the end of the context. Main and obs.Serve wait for the same context, so NotReady and the close
-- of the probes' listener come in either order. The results of the servers are arguments of their
-- steps.
pub mod Readiness
use reliability_lab.Common.{Bool, true, false, not, ◌||◌, Option, none, some, ◌≡◌, ◌≢◌}
use reliability_lab.Obs.Health.{
  Health, Page, new_health, set_ready, set_not_ready, apply_op, readyz,
}

-- The gRPC goroutine: before its call of Ready, in Serve, or after Serve has returned.
pub data Grpc : Type 0 where
  starting serving stopped : Grpc

-- The server of the probes: before its listener is bound, listening, or closed: obs.Serve has come to
-- Shutdown, or its ListenAndServe has failed, which main only logs.
pub data Probes : Type 0 where
  binding listening closed : Probes

pub data Main : Type 0 where
  waiting draining exited : Main

pub record Process : Type 0 where
  pub ctx_done : Bool
  pub health : Health
  pub grpc : Grpc
  pub probes : Probes
  pub main : Main

abbrev pub launched : Process
launched = record {
  ctx_done = false;
  health = new_health;
  grpc = starting;
  probes = binding;
  main = waiting;
}

-- The answer of /readyz to a probe that connects now, if any.
unfoldable pub probe_answer : Probes → Main → Health → Option Page
probe_answer listening waiting h = some (readyz h)
probe_answer listening draining h = some (readyz h)
probe_answer listening exited h = none
probe_answer binding m h = none
probe_answer closed m h = none

abbrev pub ready_answer : Process → Option Page
ready_answer s = probe_answer s.probes s.main s.health

module _ {E : Type 0} (is_stopped : E → Bool) where
  -- The goroutine calls cancel for an error that is not grpc.ErrServerStopped.
  abbrev pub cancels : Option E → Bool
  cancels none = false
  cancels (some e) = not (is_stopped e)

  pub data Step (s : Process) : Process → Type 0 where
    signal : Step s (record s { ctx_done = true })
    grpc_ready :
        s.grpc ≡ starting
        → Step s (record s { health = apply_op set_ready s.health; grpc = serving })
    grpc_returns :
        (e : Option E)
        → s.grpc ≡ serving
        → Step s (record s { ctx_done = s.ctx_done || cancels e; grpc = stopped })
    probes_bind : s.probes ≡ binding → Step s (record s { probes = listening })
    probes_fail : (e : E) → s.probes ≢ closed → Step s (record s { probes = closed })
    probes_shut : s.probes ≢ closed → s.ctx_done ≡ true → Step s (record s { probes = closed })
    not_ready :
        s.main ≡ waiting
        → s.ctx_done ≡ true
        → Step s (record s { health = apply_op set_not_ready s.health; main = draining })
    graceful_stop : s.main ≡ draining → Step s (record s { main = exited })

  -- A run of the process; none of its goroutines goes on after main's exit.
  pub data Steps : Process → Process → Type 0 where
    done : {s : Process} → Steps s s
    next : {s t u : Process} → s.main ≢ exited → Step s t → Steps t u → Steps s u
