-- ===== src/Server.antt =====
-- operator/internal/server/server.go: the webhook server of the operator. The clock reading of a
-- request and its decoded body are arguments; logging is left out.
pub mod Payload
pub mod Body
pub mod Accepted
pub mod Resend
pub mod Lifecycle
pub mod Concurrent
use reliability_lab.Common.{
  ℕ, List, [], ◌∷◌, Option, none, some, Bool, true, false, not, String, str_eq, if◌then◌else◌,
}
use reliability_lab.Common.Int.{ℤ, pos, leb_ℤ}
use reliability_lab.Classifier.{Decision, no_remedy, kind_eq, classify}
use reliability_lab.Dedupe.Clock.{Time}
use reliability_lab.Dedupe.{Dedupe, new_dedupe, acquire}
use reliability_lab.Remedy.Cluster.{Client}
use reliability_lab.Remedy.{Input}
use reliability_lab.Remedy.Registry.{Registry, new_registry, apply}
use Payload.{AlertManagerPayload, Alert, is_firing}

pub record Config (W E : Type 0) : Type 0 where
  pub addr : String
  pub client : Client W E
  pub version : String
  pub cooldown : ℤ
  pub namespace : String
  pub remedies : Option (Registry W E)

pub record Server (W E : Type 0) : Type 0 where
  pub cfg : Config W E
  pub dedupe : Dedupe

-- A response: the status code and the body.
pub record Response : Type 0 where
  pub status : ℕ
  pub body : String

-- 10 * time.Minute, in nanoseconds.
abbrev pub default_cooldown : ℤ
default_cooldown = pos 600000000000

module _ {W E : Type 0} where
  -- The pointer is never nil after New.
  abbrev pub registry_of : Option (Registry W E) → Registry W E
  registry_of none = new_registry
  registry_of (some r) = r

  unfoldable pub with_defaults : Config W E → Config W E
  with_defaults cfg = record cfg {
    cooldown = if leb_ℤ cfg.cooldown (pos 0) then default_cooldown else cfg.cooldown;
    namespace = if str_eq cfg.namespace "" then "reliability-lab" else cfg.namespace;
    remedies = some (registry_of cfg.remedies);
  }

  -- New.
  unfoldable pub new_server : Config W E → Server W E
  new_server cfg =
      let full = with_defaults cfg in record { cfg = full; dedupe = new_dedupe full.cooldown }

  abbrev pub input_of : Config W E → Decision → Input W E
  input_of cfg d = record { client = cfg.client; namespace = cfg.namespace; decision = d }

  -- dispatch: the remedy's error is only logged.
  unfoldable pub dispatch : Config W E → Alert → W → W
  dispatch cfg a w =
      let d = classify a.labels in
      if kind_eq d.kind no_remedy
      then w
      else (apply (registry_of cfg.remedies) (input_of cfg d) w).1

  -- The body of the loop over the alerts.
  unfoldable pub handle_one : Config W E → Time → Alert → Dedupe → W → Dedupe × W
  handle_one cfg now a d w =
      if not (is_firing a)
      then (d, w)
      else (let (d', fresh) = acquire d a.fingerprint now in
          if not fresh then (d', w) else (d', dispatch cfg a w))

  -- The loop of handleAlert.
  unfoldable pub handle_alerts : Config W E → Time → List Alert → Dedupe → W → Dedupe × W
  handle_alerts cfg now [] d w = (d, w)
  handle_alerts cfg now (a ∷ alerts) d w =
      let (d', w') = handle_one cfg now a d w in handle_alerts cfg now alerts d' w'

  -- handleAlert: `none` is a body that does not decode.
  unfoldable pub handle_alert :
      Server W E → Option AlertManagerPayload → Time → W → Response × Server W E × W
  handle_alert s none now w = (record { status = 400; body = "bad payload\n" }, s, w)
  handle_alert s (some p) now w =
      let (d, w') = handle_alerts s.cfg now p.alerts s.dedupe w in
      (record { status = 202; body = "" }, record s { dedupe = d }, w')
