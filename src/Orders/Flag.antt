-- ===== src/Orders/Flag.antt =====
-- services/orders-svc/cbwatch.go: the watcher of the circuit-break flag. The content of the flag
-- file is what os.ReadFile gives at the time of an event, as code points, or none where it fails.
pub mod Follows
pub mod Pauses
use reliability_lab.Common.{ℕ, List, [], ◌∷◌, Option, none, some, Bool, true, false, not, String}
use reliability_lab.Common.Text.{codes, trim_space, equal_fold}

abbrev pub File : Type 0
File = Option (List ℕ)

-- The closure `read`: the value that it stores into `paused`.
unfoldable pub read : File → Bool
unfolding trim_space equal_fold
read none = false
read (some b) = not (equal_fold (trim_space b) (codes "true"))

-- What the select of the loop may receive, with the file as a re-read then finds it.
pub data Event (E : Type 0) : Type 0 where
  ctx_done : Event E
  tick : File → Event E
  changed : File → Event E
  events_closed : Event E
  watch_error : E → Event E
  errors_closed : Event E

-- Where the watcher stands: it has returned nil or an error, or it waits for an event.
pub data Watcher (E : Type 0) : Type 0 where
  returned : Option E → Watcher E
  waiting : Watcher E

module _ {E : Type 0} where
  -- The loop: the final value of `paused`.
  unfoldable pub loop : Bool → List (Event E) → Bool × Watcher E
  loop paused [] = (paused, waiting)
  loop paused (ctx_done ∷ events) = (paused, returned none)
  loop paused (tick file ∷ events) = loop (read file) events
  loop paused (changed file ∷ events) = loop (read file) events
  loop paused (events_closed ∷ events) = (paused, returned none)
  loop paused (watch_error e ∷ events) = loop paused events
  loop paused (errors_closed ∷ events) = (paused, returned none)

  abbrev pub started : Option E → Option E → Bool → List (Event E) → Bool × Watcher E
  started (some e) add paused events = (paused, returned (some e))
  started none (some e) paused events = (paused, returned (some e))
  started none none paused events = loop paused events

  -- watchCircuitBreak: the file at the start, and the errors of fsnotify.NewWatcher and of Add.
  unfoldable pub watch_circuit_break :
      File → Option E → Option E → List (Event E) → Bool × Watcher E
  unfolding loop
  watch_circuit_break file new_watcher add events = started new_watcher add (read file) events
