-- ===== src/Server/Concurrent.antt =====
-- operator/internal/server/server.go: handleAlert as net/http runs it, a goroutine to each request,
-- all over one Dedupe and one cluster. A step of a handler is one turn of its loop up to the end of
-- Acquire, whose mutex makes it atomic, or one dispatch.
pub mod Ends
pub mod Alone
pub mod Interleaved
pub mod Rate
use reliability_lab.Common.{
  ℕ, List, [], ◌∷◌, Bool, true, false, not, str_eq, ◌≡◌, inl, inr, Bool-cases, if◌then◌else◌,
}
use reliability_lab.Dedupe.Clock.{Time}
use reliability_lab.Dedupe.{Dedupe, acquire}
use reliability_lab.Server.Payload.{Alert, AlertManagerPayload, is_firing}
use reliability_lab.Server.{Config, Response, dispatch}
use reliability_lab.Server.Accepted.{accepts, dedupe_after}

-- Where a handler stands: no request, before its reading of the clock, before a turn of the loop
-- with the alerts that are left, before the dispatch of an alert that Acquire has granted, or done.
pub data Handler : Type 0 where
  idle : Handler
  reading : AlertManagerPayload → Handler
  looping : Time → List Alert → Handler
  dispatching : Time → Alert → List Alert → Handler
  answered : Response → Handler

abbrev pub accepted_page : Response
accepted_page = record { status = 202; body = "" }

-- After Acquire: to the dispatch, or on to the next alert.
abbrev pub turned : Time → Alert → List Alert → Bool → Handler
turned now a alerts true = dispatching now a alerts
turned now a alerts false = looping now alerts

-- One turn of the loop.
unfoldable pub turn : Time → Alert → List Alert → Dedupe → Handler × Dedupe
turn now a alerts d =
    if not (is_firing a)
    then (looping now alerts, d)
    else (let (d', fresh) = acquire d a.fingerprint now in (turned now a alerts fresh, d'))

module _ {W E : Type 0} (cfg : Config W E) where
  -- The next step of a handler, at a time of the clock.
  unfoldable pub advance : Time → Handler → Dedupe → W → Handler × Dedupe × W
  advance clock idle d w = (idle, d, w)
  advance clock (reading p) d w = (looping clock p.alerts, d, w)
  advance clock (looping now []) d w = (answered accepted_page, d, w)
  advance clock (looping now (a ∷ alerts)) d w = let (h, d') = turn now a alerts d in (h, d', w)
  advance clock (dispatching now a alerts) d w = (looping now alerts, d, dispatch cfg a w)
  advance clock (answered r) d w = (answered r, d, w)

-- A turn takes the alert to the dispatch exactly when it is accepted.
pub turn_lem :
    (now : Time) (a : Alert) (alerts : List Alert) (d : Dedupe)
    → turn now a alerts d ≡ (turned now a alerts (accepts now a d), dedupe_after now a d)
unfolding turn
turn_lem now a alerts d = elim (Bool-cases (is_firing a)) [ inl e ↦ rw e | inr e ↦ rw e ]
