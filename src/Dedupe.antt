-- ===== src/Dedupe.antt =====
-- operator/internal/server/dedupe.go: the stamps of the actions on the alerts' fingerprints.
-- A time.Time is its reading of the monotonic clock in nanoseconds; a time.Duration is an int64,
-- and Time.Sub saturates. The mutex makes each Acquire one step, so a call is one function.
pub mod Clock
pub mod Window
pub mod Refines
pub mod Stamps
pub mod Skew
use reliability_lab.Common.{
  ℕ, Bool, true, false, String, [], ◌∷◌, Option, none, some, str_eq, if◌then◌else◌,
}
use reliability_lab.Common.Int.{ℤ, ltb_ℤ, leb_ℤ}
use reliability_lab.Common.Dict.{Dict, lookup, insert}
use Clock.{Time, sub_time}

pub record Dedupe : Type 0 where
  pub cooldown : ℤ
  pub seen : Dict Time

-- NewDedupe.
unfoldable pub new_dedupe : ℤ → Dedupe
new_dedupe cooldown = record { cooldown = cooldown; seen = [] }

-- The loop of gcLocked over the map.
unfoldable pub gc : ℤ → Time → Dict Time → Dict Time
gc cooldown now [] = []
gc cooldown now ((fp, t) ∷ m) =
    let rest = gc cooldown now m in if leb_ℤ cooldown (sub_time now t) then rest else (fp, t) ∷ rest

-- The condition under which Acquire refuses: stamped, and inside the cooldown.
unfoldable pub inside : ℤ → Time → Option Time → Bool
inside cooldown now none = false
inside cooldown now (some t) = ltb_ℤ (sub_time now t) cooldown

unfoldable pub acquire : Dedupe → String → Time → Dedupe × Bool
acquire d fingerprint now =
    if str_eq fingerprint ""
    then (d, true)
    else if inside d.cooldown now (lookup fingerprint d.seen)
    then (d, false)
    else (record d { seen = gc d.cooldown now (insert fingerprint now d.seen) }, true)
