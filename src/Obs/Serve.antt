-- ===== src/Obs/Serve.antt =====
-- pkg/obs/obs.go: Serve, and operator/internal/server/server.go: Start, which serves in the same
-- way. Two goroutines: the listener, which sends the error of ListenAndServe to a channel of
-- capacity 1, and the caller, which selects between that channel and the end of the context.
-- net/http's server is a parameter: ListenAndServe always returns an error, and
-- http.ErrServerClosed only after Shutdown; Shutdown may return any error, also that of its timeout.
pub mod Returns
use reliability_lab.Common.{Bool, true, false, Option, none, some, ◌≡◌, if◌then◌else◌}

pub data Listener (E : Type 0) : Type 0 where
  listening sent : Listener E
  sending : E → Listener E

pub data Caller (E : Type 0) : Type 0 where
  selecting shutting_down : Caller E
  returned : Option E → Caller E

pub record Serving (E : Type 0) : Type 0 where
  pub ctx_done : Bool
  -- Shutdown has been called.
  pub shut : Bool
  pub listener : Listener E
  pub err_ch : Option E
  pub caller : Caller E

abbrev pub entered : {E : Type 0} → Serving E
entered = record {
  ctx_done = false;
  shut = false;
  listener = listening;
  err_ch = none;
  caller = selecting;
}

-- What Serve returns for the error of ListenAndServe; `is_closed` is errors.Is(_, ErrServerClosed).
unfoldable pub listen_result : {E : Type 0} → (E → Bool) → E → Option E
listen_result is_closed e = if is_closed e then none else some e

module _ {E : Type 0} (is_closed : E → Bool) where
  pub data Step (s : Serving E) : Serving E → Type 0 where
    cancel : Step s (record s { ctx_done = true })
    listen_returns :
        (e : E)
        → s.listener ≡ listening
        → (is_closed e ≡ true → s.shut ≡ true)
        → Step s (record s { listener = sending e })
    send :
        (e : E)
        → s.listener ≡ sending e
        → s.err_ch ≡ none
        → Step s (record s { listener = sent; err_ch = some e })
    select_done :
        s.caller ≡ selecting
        → s.ctx_done ≡ true
        → Step s (record s { shut = true; caller = shutting_down })
    select_err :
        (e : E)
        → s.caller ≡ selecting
        → s.err_ch ≡ some e
        → Step s (record s { err_ch = none; caller = returned (listen_result is_closed e) })
    shutdown_returns :
        (r : Option E) → s.caller ≡ shutting_down → Step s (record s { caller = returned r })

  pub data Reach : Serving E → Type 0 where
    start : Reach entered
    later : {s t : Serving E} → Reach s → Step s t → Reach t

  pub data Steps : Serving E → Serving E → Type 0 where
    done : {s : Serving E} → Steps s s
    next : {s t u : Serving E} → Step s t → Steps t u → Steps s u
