-- ===== src/System/Reserved/Own.antt =====
-- The reservation of each order.
use reliability_lab.Common.{
  ℕ, ◌==◌, ◌<◌, ◌≡◌, subst, ◌⊎◌, inl, inr, Bool-cases, Bool, String, Option, some, Result, ok, err,
  update, arith,
}
use reliability_lab.Common.Int.{eq_ℤ, eq_ℤ_iff}
use reliability_lab.Gen.Rpc.{Invoke}
use reliability_lab.Gen.InventoryV1.{ReserveRequest, ReserveResponse, reserve_full_method}
use reliability_lab.Gen.PaymentsV1.{
  ChargeRequest, ChargeResponse, charge_full_method, charge_authorized, get_status,
}
use reliability_lab.Orders.Create.{App, Msg, OrderRequest}
use reliability_lab.Orders.Concurrent.{
  Handler, idle, entered, charging, deciding, publishing, answered, advance, Orders, flag, arrive,
  move,
}
use reliability_lab.System.OrderChain.{Net, serve_reserve, serve_charge, chained}
use reliability_lab.System.Reserved.{
  Carries, SameInventory, IsConfirmed, Step, ordered, charged, reserved, elsewhere, Reach, start,
  later,
}
use reliability_lab.System.Reserved.Ledger.{
  IsHeld, Grows, Grows-refl, SameInventory-Grows, serve_reserve-Grows, serve_charge-Grows, IsOwn,
  pay-IsOwn,
}

module _ {J E : Type 0} (uuid : ℕ → String) where
  -- Each confirmed order has a reservation in the store, under an id that no other confirmed one has.
  pub record Owns (ids : ℕ → ℕ) (s : Orders (Net J) E) : Type 0 where
    pub held :
        (i : ℕ) → IsConfirmed (s.handlers i) → (ids i < s.world.drawn) × IsHeld uuid (ids i) s.world
    pub own :
        (i j : ℕ) → IsConfirmed (s.handlers i) → IsConfirmed (s.handlers j) → ids i ≡ ids j → i ≡ j

  -- The store grows, and the i-th handler is confirmed only if it was.
  keeps_ids :
      (ids : ℕ → ℕ) (s : Orders (Net J) E) (i : ℕ) (h : Handler E) (w : Net J)
      → Grows uuid s.world w
      → (IsConfirmed h → IsConfirmed (s.handlers i))
      → Owns ids s
      → Owns ids (record s { world = w; handlers = update s.handlers i h })
  keeps_ids ids s i h w grows before o = record {
    held = λ k c.
        let (lt, held) = o.held k (back k c) in
        let more = grows.draws in (omega arith, grows.keeps (ids k) lt held);
    own = λ j k c d. o.own j k (back j c) (back k d);
  }
    where
      back : (k : ℕ) → IsConfirmed (update s.handlers i h k) → IsConfirmed (s.handlers k)
      back k c = elim (Bool-cases (i == k)) [
        | inl e ↦
            let same : i ≡ k = ground arith in
            subst (λ j. IsConfirmed (s.handlers j)) same (before (rw e at c))
        | inr e ↦ rw e at c
      ]

  -- The i-th handler is confirmed by a reservation under the next id.
  takes_id :
      (ids : ℕ → ℕ) (s : Orders (Net J) E) (i : ℕ) (h : Handler E) (w : Net J)
      → Grows uuid s.world w
      → (IsConfirmed h → (s.world.drawn < w.drawn) × IsHeld uuid s.world.drawn w)
      → Owns ids s
      → Owns (update ids i s.world.drawn) (record s { world = w; handlers = update s.handlers i h })
  takes_id ids s i h w grows new o = record {
    held = λ k c. elim (Bool-cases (i == k)) [
      | inl e ↦ rw e (new (rw e at c))
      | inr e ↦
          let (lt, held) = o.held k (rw e at c) in
          let more = grows.draws in rw e (omega arith, grows.keeps (ids k) lt held)
    ];
    own = λ j k c d same. elim (Bool-cases (i == j)) [
      | inl e ↦ elim (Bool-cases (i == k)) [
        | inl f ↦ ground arith
        | inr f ↦
            let (lt, held) = o.held k (rw f at d) in
            let clash : s.world.drawn ≡ ids k = rw (e, f) at same in absurd (omega arith)
      ]
      | inr e ↦ elim (Bool-cases (i == k)) [
        | inl f ↦
            let (lt, held) = o.held j (rw e at c) in
            let clash : ids j ≡ s.world.drawn = rw (e, f) at same in absurd (omega arith)
        | inr f ↦ o.own j k (rw e at c) (rw f at d) (rw (e, f) at same)
      ]
    ];
  }

module _ {J E : Type 0} (uuid : ℕ → String) (fresh : (m n : ℕ) → uuid m ≡ uuid n → m ≡ n)
    (inv : Invoke (Net J) E ReserveRequest ReserveResponse)
    (inv_carries : Carries inv reserve_full_method (serve_reserve E uuid))
    (pay : Invoke (Net J) E ChargeRequest ChargeResponse)
    (pay_carries : Carries pay charge_full_method (serve_charge E uuid inv)) (app : App (Net J) E)
    (apart : (m : Msg) (x : Net J) → SameInventory x (app.publish_msg m x).1) where
  -- A step of a handler that is left as `g`.
  abbrev Moves : Handler E → Net J → Handler E → Net J → Type 0
  Moves h x g x' =
      Grows uuid x x'
      × ((IsConfirmed g → IsConfirmed h)
          ⊎ (IsConfirmed g → (x.drawn < x'.drawn) × IsHeld uuid x.drawn x'))

  charged-Moves :
      (order_id : String) (req : OrderRequest) (x : Net J) (r : Result E (Option ChargeResponse))
      (x' : Net J)
      → Grows uuid x x'
      → IsOwn uuid fresh inv inv_carries pay pay_carries x r x'
      → Moves (charging order_id req) x (deciding order_id req r) x'
  charged-Moves order_id req x (err e) x' grows own = (grows, inr (λ c. absurd c))
  charged-Moves order_id req x (ok resp) x' grows own = (grows, inr own)

  advance-Moves :
      (paused : Bool) (h : Handler E) (x : Net J)
      → let (g, x') = advance (chained E uuid app pay) paused h x in Moves h x g x'
  unfolding advance
  advance-Moves paused idle x = (Grows-refl uuid x, inl (λ c. c))
  advance-Moves paused (entered req) x =
      (record { draws = omega arith; keeps = λ n lt held. held }, inl (λ c. c))
  advance-Moves paused (charging order_id req) x =
      let (grows, own) = pay-IsOwn uuid fresh inv inv_carries pay pay_carries _ x in
      charged-Moves order_id req x _ _ grows own
  advance-Moves paused (deciding order_id req (err e)) x = (Grows-refl uuid x, inl (λ c. c))
  advance-Moves paused (deciding order_id req (ok resp)) x =
      elim (Bool-cases (eq_ℤ (get_status resp) charge_authorized)) [
        | inl e ↦
            rw e (Grows-refl uuid x, inl (λ c. (eq_ℤ_iff (get_status resp) charge_authorized).0 e))
        | inr e ↦ rw e (Grows-refl uuid x, inl (λ c. absurd c))
      ]
  advance-Moves paused (publishing order_id req resp) x =
      (SameInventory-Grows uuid (apart _ x), inl (λ c. tt))
  advance-Moves paused (answered r) x = (Grows-refl uuid x, inl (λ c. c))

  -- Some ids of the reservations.
  abbrev Owned : Orders (Net J) E → Type 0
  Owned s = (ids : ℕ → ℕ) × Owns uuid ids s

  moved-Owned :
      (ids : ℕ → ℕ) (s : Orders (Net J) E) (i : ℕ) (g : Handler E) (x' : Net J)
      → Moves (s.handlers i) s.world g x'
      → Owns uuid ids s
      → Owned (record s { world = x'; handlers = update s.handlers i g })
  moved-Owned ids s i g x' (grows, inl before) o = (ids, keeps_ids uuid ids s i g x' grows before o)
  moved-Owned ids s i g x' (grows, inr new) o = (_, takes_id uuid ids s i g x' grows new o)

  grown-Owned :
      (ids : ℕ → ℕ) (s : Orders (Net J) E) (x' : Net J)
      → Grows uuid s.world x'
      → Owns uuid ids s
      → Owned (record s { world = x' })
  grown-Owned ids s x' grows o = (
    ids,
    record {
      held = λ k c.
          let (lt, held) = o.held k c in
          let more = grows.draws in (omega arith, grows.keeps (ids k) lt held);
      own = o.own;
    },
  )

  Step-Owned : {s t : Orders (Net J) E} → Owned s → Step uuid inv pay app s t → Owned t
  Step-Owned (ids, o) (ordered (flag b)) = (ids, record { held = o.held; own = o.own })
  Step-Owned {s} (ids, o) (ordered (arrive i req free)) = (
    ids,
    keeps_ids uuid ids s i (entered req) s.world (Grows-refl uuid s.world) (λ c. absurd c) o,
  )
  Step-Owned {s} (ids, o) (ordered (move i)) =
      moved-Owned ids s i _ _ (advance-Moves s.paused (s.handlers i) s.world) o
  Step-Owned {s} (ids, o) (charged req) =
      grown-Owned ids s _ (serve_charge-Grows uuid fresh inv inv_carries req s.world) o
  Step-Owned {s} (ids, o) (reserved req) =
      grown-Owned ids s _ (serve_reserve-Grows uuid fresh E (some req) s.world) o
  Step-Owned {s} (ids, o) (elsewhere x same) = grown-Owned ids s x (SameInventory-Grows uuid same) o

  -- The ids that are drawn all differ, an answer that arrives is the server's, a call that fails has
  -- been carried out or not, and JetStream leaves the inventory alone: however orders, the calls of
  -- other clients and late ones interleave, every order whose charge is authorized, up to its answer,
  -- has a reservation of one DEFAULT item in the inventory, and no two of them have the same.
  pub Reach-Owned :
      {x : Net J} {s : Orders (Net J) E}
      → Reach uuid inv pay app x s
      → (ids : ℕ → ℕ) × Owns uuid ids s
  Reach-Owned start = ((λ i. 0), record { held = λ i c. absurd c; own = λ i j c. absurd c })
  Reach-Owned (later before step) = Step-Owned (Reach-Owned before) step
