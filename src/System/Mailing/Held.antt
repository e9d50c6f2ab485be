-- ===== src/System/Mailing/Held.antt =====
-- The flag, and the orders that are on their way when it is set.
use mathlib.Core.List.{Memᴰ}
use reliability_lab.Common.{
  ℕ, ◌==◌, ◌≡◌, sym, subst, ◌⊎◌, inl, inr, Bool-cases, List, true, ok, err, update,
}
use reliability_lab.Common.Int.{eq_ℤ}
use reliability_lab.Gen.PaymentsV1.{charge_authorized, get_status}
use reliability_lab.Orders.Create.{App, Msg, OrderRequest}
use reliability_lab.Orders.Concurrent.{
  Handler, idle, entered, charging, deciding, publishing, answered, decided, advance, Orders, moved,
}
use reliability_lab.System.Mailing.{LogLaws, attempted_by}
use reliability_lab.System.Mailing.Logged.{Publishes, advance_logged, attempted_by-Publishes}

module _ {W E : Type 0} (a : App W E) where
  -- While the flag is set, no step comes before a publish.
  advance-Publishes : (h : Handler E) (w : W) (m : Msg) → Publishes (advance a true h w).0 m → ⊥
  unfolding advance decided
  advance-Publishes idle w m p = p
  advance-Publishes (entered req) w m p = p
  advance-Publishes (charging order_id req) w m p = p
  advance-Publishes (deciding order_id req (err e)) w m p = p
  advance-Publishes (deciding order_id req (ok resp)) w m p =
      elim (Bool-cases (eq_ℤ (get_status resp) charge_authorized)) [
        | inl e ↦ rw e at p
        | inr e ↦ rw e at p
      ]
  advance-Publishes (publishing order_id req resp) w m p = p
  advance-Publishes (answered r) w m p = p

  module _ (log : W → List Msg) (laws : LogLaws a log) where
    -- The message was stored, or it had been handed to JetStream, or a handler was about to publish it.
    abbrev pub Known : Orders W E → List Msg → Msg → Type 0
    Known s attempted m =
        Memᴰ m (log s.world) ⊎ (Memᴰ m attempted ⊎ ((i : ℕ) × Publishes (s.handlers i) m))

    update-Publishes :
        (f : ℕ → Handler E) (i j : ℕ) (h : Handler E) (m : Msg)
        → (Publishes h m → ⊥)
        → Publishes (update f i h j) m
        → Publishes (f j) m
    update-Publishes f i j h m new = elim (Bool-cases (i == j)) [
      | inl e ↦ rw e (λ p. absurd (new p))
      | inr e ↦ rw e (λ p. p)
    ]

    pub arrived-Known :
        (s : Orders W E) (attempted : List Msg) (i : ℕ) (req : OrderRequest) (m : Msg)
        → Known (record s { handlers = update s.handlers i (entered req) }) attempted m
        → Known s attempted m
    arrived-Known s attempted i req m (inl stored) = inl stored
    arrived-Known s attempted i req m (inr (inl tried)) = inr (inl tried)
    arrived-Known s attempted i req m (inr (inr (j, q))) =
        inr (inr (j, update-Publishes s.handlers i j (entered req) m (λ x. x) q))

    pub moved-Known :
        (s : Orders W E) (attempted : List Msg) (i : ℕ) (m : Msg)
        → s.paused ≡ true
        → Known (moved a s i) (attempted_by a (s.handlers i) s.world attempted) m
        → Known s attempted m
    moved-Known s attempted i m p (inl stored) =
        elim (advance_logged a log laws s.paused (s.handlers i) s.world m stored) [
          | inl older ↦ inl older
          | inr own ↦ inr (inr (i, own))
        ]
    moved-Known s attempted i m p (inr (inl tried)) =
        elim (attempted_by-Publishes a (s.handlers i) s.world attempted m tried) [
          | inl older ↦ inr (inl older)
          | inr own ↦ inr (inr (i, own))
        ]
    moved-Known s attempted i m p (inr (inr (j, q))) = inr (
        inr (
          j,
          update-Publishes s.handlers i j _ m
              (subst (λ b. Publishes (advance a b (s.handlers i) s.world).0 m → ⊥) (sym p)
                (advance-Publishes (s.handlers i) s.world m))
              q,
        ))
