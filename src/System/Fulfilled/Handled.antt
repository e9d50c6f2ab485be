-- ===== src/System/Fulfilled/Handled.antt =====
-- The handler of each order that has been authorized.
use mathlib.Core.List.{Memᴰ}
use mathlib.Core.List.Memᴰ
use reliability_lab.Common.{
  ℕ, ◌==◌, ◌≡◌, refl, sym, subst, ap, ◌⊎◌, inl, inr, Bool-cases, String, List, Bool, true, false,
  Option, ok, err, update, arith,
}
use reliability_lab.Common.Int.{eq_ℤ}
use reliability_lab.Gen.PaymentsV1.{ChargeResponse, charge_authorized, get_status}
use reliability_lab.Orders.Create.{
  App, Msg, OrderRequest, invalid_json, payments_unavailable, declined, created,
}
use reliability_lab.Orders.Concurrent.{
  Handler, idle, entered, charging, deciding, publishing, answered, decided, advance,
}
use reliability_lab.Services.Email.{Incoming}
use reliability_lab.System.Mailing
use reliability_lab.System.Mailing.{Pipeline, noted, LogLaws, flag, arrive, work, deliver, pass}
use reliability_lab.System.Reserved.{IsConfirmed}

-- The handler's order is authorized and goes by this id.
abbrev pub IsOrder : {E : Type 0} → Handler E → String → Type 0
IsOrder (publishing order_id req resp) id = order_id ≡ id
IsOrder (answered (created order_id payment_id)) id = order_id ≡ id
IsOrder _ id = ⊥

pub IsOrder-IsConfirmed : {E : Type 0} (h : Handler E) (id : String) → IsOrder h id → IsConfirmed h
IsOrder-IsConfirmed (publishing order_id req resp) id o = tt
IsOrder-IsConfirmed (answered (created order_id payment_id)) id o = tt
IsOrder-IsConfirmed (answered invalid_json) id o = absurd o
IsOrder-IsConfirmed (answered payments_unavailable) id o = absurd o
IsOrder-IsConfirmed (answered (declined reason)) id o = absurd o
IsOrder-IsConfirmed idle id o = absurd o
IsOrder-IsConfirmed (entered req) id o = absurd o
IsOrder-IsConfirmed (charging order_id req) id o = absurd o
IsOrder-IsConfirmed (deciding order_id req r) id o = absurd o

decided-IsOrder :
    (E : Type 0) (paused : Bool) (order_id : String) (req : OrderRequest)
    (resp : Option ChargeResponse)
    → IsOrder {E = E} (decided paused order_id req resp) order_id
unfolding decided
decided-IsOrder E true order_id req resp = refl
decided-IsOrder E false order_id req resp = refl

module _ {W E : Type 0} (a : App W E) where
  advance-IsOrder :
      (paused : Bool) (h : Handler E) (w : W) (id : String)
      → IsOrder h id
      → IsOrder (advance a paused h w).0 id
  unfolding advance
  advance-IsOrder paused (publishing order_id req resp) w id o = o
  advance-IsOrder paused (answered r) w id o = o
  advance-IsOrder paused idle w id o = absurd o
  advance-IsOrder paused (entered req) w id o = absurd o
  advance-IsOrder paused (charging order_id req) w id o = absurd o
  advance-IsOrder paused (deciding order_id req r) w id o = absurd o

  -- An order that a step notes as authorized is the handler's from there on.
  noted-IsOrder :
      (paused : Bool) (h : Handler E) (w : W) (rest : List Incoming) (evt : Incoming)
      → Memᴰ evt (noted h rest)
      → IsOrder (advance a paused h w).0 evt.order_id ⊎ Memᴰ evt rest
  unfolding advance
  noted-IsOrder paused (deciding order_id req (ok resp)) w rest evt known =
      elim (Bool-cases (eq_ℤ (get_status resp) charge_authorized)) [
        | inl e ↦ rw e (elim (Memᴰ.cases_cons (rw e at known)) [
          | inl own ↦ inl (
              subst (IsOrder (decided paused order_id req resp))
                (sym (ap (λ (x : Incoming). x.order_id) own))
                (decided-IsOrder E paused order_id req resp))
          | inr older ↦ inr older
        ])
        | inr e ↦ inr (rw e at known)
      ]
  noted-IsOrder paused idle w rest evt known = inr known
  noted-IsOrder paused (entered req) w rest evt known = inr known
  noted-IsOrder paused (charging order_id req) w rest evt known = inr known
  noted-IsOrder paused (deciding order_id req (err e)) w rest evt known = inr known
  noted-IsOrder paused (publishing order_id req resp) w rest evt known = inr known
  noted-IsOrder paused (answered r) w rest evt known = inr known

  module _ (log : W → List Msg) (matches : String → String → Bool) (subject : String)
      (rfc3339 : ℕ → String) where
    -- The authorized orders are those of handlers.
    abbrev Handled : Pipeline W E → Type 0
    Handled p =
        (evt : Incoming)
        → Memᴰ evt p.authorized
        → (i : ℕ) × IsOrder (p.orders.handlers i) evt.order_id

    updated-IsOrder :
        (hs : ℕ → Handler E) (i j : ℕ) (h : Handler E) (id : String)
        → (IsOrder (hs i) id → IsOrder h id)
        → IsOrder (hs j) id
        → IsOrder (update hs i h j) id
    updated-IsOrder hs i j h id stays o = elim (Bool-cases (i == j)) [
      | inl e ↦
          let same : j ≡ i = ground arith in rw e (stays (subst (λ k. IsOrder (hs k) id) same o))
      | inr e ↦ rw e o
    ]

    Step-Handled :
        {p q : Pipeline W E}
        → Mailing.Step a log matches subject rfc3339 p q
        → Handled p
        → Handled q
    Step-Handled (flag b) handled evt known = handled evt known
    Step-Handled {p} (arrive i req free) handled evt known =
        let (j, o) = handled evt known in
        (j, updated-IsOrder p.orders.handlers i j (entered req) evt.order_id (λ q. rw free at q) o)
    Step-Handled {p} (work i) handled evt known =
        let h = p.orders.handlers i in
        let g = (advance a p.orders.paused h p.orders.world).0 in
        elim (noted-IsOrder p.orders.paused h p.orders.world p.authorized evt known) [
          | inl own ↦ (i, updated_here p.orders.handlers i g evt.order_id own)
          | inr older ↦
              let (j, o) = handled evt older in
              (
                j,
                updated-IsOrder p.orders.handlers i j g evt.order_id
                    (advance-IsOrder p.orders.paused h p.orders.world evt.order_id) o,
              )
        ]
      where
        updated_here :
            (hs : ℕ → Handler E) (i : ℕ) (h : Handler E) (id : String)
            → IsOrder h id
            → IsOrder (update hs i h i) id
        updated_here hs i h id o = let e : (i == i) ≡ true = ground arith in rw e o
    Step-Handled (deliver m stored matched) handled evt known = handled evt known
    Step-Handled (pass w known_by) handled evt known = handled evt known

    pub Reach-Handled :
        {b : Bool} {w : W} {p : Pipeline W E}
        → Mailing.Reach a log matches subject rfc3339 b w p
        → Handled p
    Reach-Handled Mailing.start evt known = absurd (Memᴰ.not-nil known)
    Reach-Handled (Mailing.later before step) evt known =
        Step-Handled step (Reach-Handled before) evt known
