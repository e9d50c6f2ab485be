-- ===== src/System/Braked/Closes.antt =====
-- The control loop while webhooks and orders are handled at once: from the last call of a circuit
-- breaker, by the kubelet and the watcher, to JetStream.
use mathlib.Core.List.{Memᴰ}
use reliability_lab.Common.{ℕ, ◌≡◌, ◌⊎◌, true, List, Result, ok, none, some}
use reliability_lab.Dedupe.{Dedupe}
use reliability_lab.Dedupe.Clock.{Time}
use reliability_lab.Remedy.Cluster.{Client, ConfigMap, Key}
use reliability_lab.Remedy.CircuitBreak.{after_get}
use reliability_lab.Server.Payload.{Alert}
use reliability_lab.Manager.{Flags}
use reliability_lab.Orders.Flag.{read}
use reliability_lab.Orders.Create.{App, Msg}
use reliability_lab.System.Calls
use reliability_lab.System.Calls.{ApiLaws, started, braking, moved, Steps-then}
use reliability_lab.System.Calls.Brake.{calls_brake}
use reliability_lab.System.ControlLoop.{projected}
use reliability_lab.System.StaysPaused.{flags_key, IsPaused}
use reliability_lab.System.Mailing.{LogLaws}
use reliability_lab.System.Mailing.Logged.{Publishes}
use reliability_lab.System.Braked.{
  Whole, Steps, InCluster, Steps-InCluster, Steps-Cached, Steps-Mounted, fetched-IsCached,
  synced-read, brake_holds,
}

-- The kubelet fetches the flag's ConfigMap.
abbrev pub refetched : {W E V F : Type 0} → ConfigMap → Whole W E V F → Whole W E V F
refetched cm s = record s { cache = some cm }

-- It brings the file up to a ConfigMap that it has fetched.
abbrev pub remounted : {W E V F : Type 0} → ConfigMap → Whole W E V F → Whole W E V F
remounted cm s = record s { file = projected cm }

-- The watcher reads the flag file.
abbrev pub rewatched : {W E V F : Type 0} → Whole W E V F → Whole W E V F
rewatched s = record s { orders = record s.orders { paused = read s.file } }

module _ {W E V F : Type 0} (client : Client W E) (flags : Flags) (a : App V F)
    (log : V → List Msg) where
  -- The control loop, with each call of the API and each step of an order on its own. Under the laws of
  -- creates and merge patches, where a write to one object leaves the others alone, and where JetStream
  -- stores no message but those of its publishes, at once or late: in a state that the operator
  -- reaches, a handler is inside a circuit breaker whose remedy is about to return nil. After that step
  -- the kubelet fetches the flag's ConfigMap, later it brings the mounted file up to what it has then
  -- fetched, and later still the watcher of orders-svc reads the file; before, between and after these
  -- come any other steps, also further fetches, syncs and reads. From that read on, the flag says
  -- "false" in the cluster and is set in orders-svc, and a message that JetStream holds was there when
  -- the watcher read, had been handed to JetStream by then, or is the event of an order whose handler
  -- had loaded the flag by then and was about to publish.
  pub loop_closes :
      (api : ApiLaws client) (clock : Time) (d : Dedupe) (w : W) (laws : LogLaws a log)
      {s mid late seen end : Whole W E V F} (i : ℕ) (now : Time) (rest : List Alert) (key : Key)
      (r : Result E ConfigMap) (cm cm' : ConfigMap)
      → Calls.Steps client flags (started clock d w) s.operator
      → s.operator.handlers i ≡ braking now rest key r
      → (after_get client key r s.operator.cluster).0 ≡ none
      → Steps client flags a log (record s { operator = moved client flags s.operator i }) mid
      → client.get_config_map flags_key mid.operator.cluster ≡ ok cm
      → Steps client flags a log (refetched cm mid) late
      → late.cache ≡ some cm'
      → Steps client flags a log (remounted cm' late) seen
      → Steps client flags a log (rewatched seen) end
      → IsPaused client end.operator.cluster
        × (end.orders.paused ≡ true)
        × ((m : Msg)
            → Memᴰ m (log end.orders.world)
            → Memᴰ m (log seen.orders.world)
              ⊎ (Memᴰ m seen.attempted ⊎ ((j : ℕ) × Publishes (seen.orders.handlers j) m)))
  loop_closes api clock d w laws {s} {mid} {late} {seen} i now rest key r cm cm' reached here nil
        to_mid got to_late e to_seen to_end =
      let set : InCluster client flags a log api clock d w s' = (
        Steps-then client flags reached (Calls.next (Calls.move i) Calls.done),
        calls_brake client api flags i now rest key r reached here nil Calls.done,
      ) in
      let at_mid = Steps-InCluster client flags a log api clock d w to_mid set in
      let fetch = fetched-IsCached client flags a log api clock d w cm got at_mid.1 in
      let at_late = Steps-Cached client flags a log api clock d w to_late (at_mid, fetch) in
      let mount = synced-read cm' e at_late.1 in
      let at_seen = Steps-Mounted client flags a log api clock d w to_seen (at_late, mount) in
      brake_holds client flags a log api clock d w laws at_seen.0.0.0 at_seen.0.0.1 at_seen.0.1
        at_seen.1 at_seen.1 to_end
    where
      s' : Whole W E V F
      s' = record s { operator = moved client flags s.operator i }
