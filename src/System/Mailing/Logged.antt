-- ===== src/System/Mailing/Logged.antt =====
-- What a step of a handler does to JetStream's log.
use mathlib.Core.List.{Memᴰ}
use mathlib.Core.List.Memᴰ
use reliability_lab.Common.{◌≡◌, ap, ◌⊎◌, inl, inr, Bool-cases, List, Bool, ok, err}
use reliability_lab.Common.Int.{eq_ℤ}
use reliability_lab.Gen.PaymentsV1.{charge_authorized, get_status}
use reliability_lab.Orders.Create.{App, Msg}
use reliability_lab.Orders.Concurrent.{
  Handler, idle, entered, charging, deciding, publishing, answered, advance,
}
use reliability_lab.System.Events.{received}
use reliability_lab.System.Mailing.{LogLaws, attempted_by}

-- The handler is about to publish the event of the message.
abbrev pub Publishes : {E : Type 0} → Handler E → Msg → Type 0
Publishes (publishing order_id req resp) m =
    received m.payload ≡ record { order_id = order_id; customer_email = req.customer_email }
Publishes _ m = ⊥

module _ {W E : Type 0} (a : App W E) where
  pub attempted_by-Publishes :
      (h : Handler E) (w : W) (rest : List Msg) (m : Msg)
      → Memᴰ m (attempted_by a h w rest)
      → Memᴰ m rest ⊎ Publishes h m
  attempted_by-Publishes idle w rest m tried = inl tried
  attempted_by-Publishes (entered req) w rest m tried = inl tried
  attempted_by-Publishes (charging order_id req) w rest m tried = inl tried
  attempted_by-Publishes (deciding order_id req r) w rest m tried = inl tried
  attempted_by-Publishes (publishing order_id req resp) w rest m tried =
      elim (Memᴰ.cases_cons tried) [
        | inl own ↦ inr (ap (λ n. received n.payload) own)
        | inr older ↦ inl older
      ]
  attempted_by-Publishes (answered r) w rest m tried = inl tried

module _ {W E : Type 0} (a : App W E) (log : W → List Msg) (laws : LogLaws a log) where
  pub advance_logged :
      (paused : Bool) (h : Handler E) (w : W) (m : Msg)
      → Memᴰ m (log (advance a paused h w).1)
      → Memᴰ m (log w) ⊎ Publishes h m
  unfolding advance
  advance_logged paused idle w m stored = inl stored
  advance_logged paused (entered req) w m stored = inl (laws.draws w m stored)
  advance_logged paused (charging order_id req) w m stored = inl (laws.pays w m stored)
  advance_logged paused (deciding order_id req (err e)) w m stored = inl stored
  advance_logged paused (deciding order_id req (ok resp)) w m stored =
      elim (Bool-cases (eq_ℤ (get_status resp) charge_authorized)) [
        | inl e ↦ inl (rw e at stored)
        | inr e ↦ inl (rw e at stored)
      ]
  advance_logged paused (publishing order_id req resp) w m stored =
      elim (laws.stores _ w m stored) [
        | inl own ↦ inr (ap (λ n. received n.payload) own)
        | inr older ↦ inl older
      ]
  advance_logged paused (answered r) w m stored = inl stored
