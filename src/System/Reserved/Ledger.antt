-- ===== src/System/Reserved/Ledger.antt =====
-- How the inventory's store changes: what it holds under an id that has been drawn stays there.
use reliability_lab.Common.{
  ℕ, ◌+◌, ◌≤◌, ◌<◌, ◌≡◌, refl, sym, subst, ap, ◌∙◌, inl, inr, String, Bool-cases, str_eq, eq_iff,
  Option, some, Result, ok, err, arith,
}
use reliability_lab.Common.Dict.{lookup, insert, lookup-insert, lookup-insert_self}
use reliability_lab.Gen.Rpc.{Method, Invoke, client_call, reply}
use reliability_lab.Gen.InventoryV1.{
  ReserveRequest, ReserveResponse, reserve_full_method, client_reserve, get_items,
}
use reliability_lab.Gen.PaymentsV1.{
  ChargeRequest, ChargeResponse, charge_full_method, client_charge, charge_authorized, get_status,
}
use reliability_lab.Inventory.{reserve}
use reliability_lab.Payments.{default_items, reserve_request}
use reliability_lab.Payments.Charges.{charge_lem}
use reliability_lab.System.OrderChain.{Net, draw, serve_reserve, serve_charge, charged_store}
use reliability_lab.System.Reserved.{Carries, SameInventory}

module _ {J : Type 0} (uuid : ℕ → String) where
  -- The store holds a charge's reservation under the n-th id.
  abbrev pub IsHeld : ℕ → Net J → Type 0
  IsHeld n x = lookup (uuid n) x.store ≡ some default_items

  -- Ids are drawn, and nothing that is held under an earlier one is lost.
  pub record Grows (x x' : Net J) : Type 0 where
    pub draws : x.drawn ≤ x'.drawn
    pub keeps : (n : ℕ) → n < x.drawn → IsHeld n x → IsHeld n x'

  pub Grows-refl : (x : Net J) → Grows x x
  Grows-refl x = record { draws = omega arith; keeps = λ n lt held. held }

  pub SameInventory-Grows : {x x' : Net J} → SameInventory x x' → Grows x x'
  SameInventory-Grows {x} {x'} (store, drawn) = record {
    draws = omega arith;
    keeps = λ n lt held. ap (lookup (uuid n)) store ∙ held;
  }

  pub Grows-then : {x y z : Net J} → Grows x y → Grows y z → Grows x z
  Grows-then {x} {y} {z} g h = record {
    draws = let first = g.draws in let second = h.draws in omega arith;
    keeps = λ n lt held. let first = g.draws in h.keeps n (omega arith) (g.keeps n lt held);
  }

  draw-Grows : (E : Type 0) (x : Net J) → Grows x (draw E uuid x).1
  draw-Grows E x = record { draws = omega arith; keeps = λ n lt held. held }

  module _ (fresh : (m n : ℕ) → uuid m ≡ uuid n → m ≡ n) where
    kept_under :
        (n : ℕ) (x : Net J) (items : _)
        → n < x.drawn
        → IsHeld n x
        → lookup (uuid n) (insert (uuid x.drawn) items x.store) ≡ some default_items
    kept_under n x items lt held = elim (Bool-cases (str_eq (uuid x.drawn) (uuid n))) [
      | inl same ↦
          let e : x.drawn ≡ n = fresh x.drawn n ((eq_iff _ _).0 same) in absurd (omega arith)
      | inr other ↦ rw (lookup-insert (uuid x.drawn) (uuid n) items x.store, other) held
    ]

    pub serve_reserve-Grows :
        (E : Type 0) (req : Option ReserveRequest) (x : Net J)
        → Grows x (serve_reserve E uuid req x).1
    unfolding reserve
    serve_reserve-Grows E req x = record {
      draws = omega arith;
      keeps = λ n lt held. kept_under n x (get_items req) lt held;
    }

    -- A call over a connection, of a server whose calls grow the store.
    call-Grows :
        {E Req Resp : Type 0} (invoke : Invoke (Net J) E Req Resp) (full_method : String)
        (srv : Method (Net J) E Req Resp)
        → Carries invoke full_method srv
        → ((req : Req) (x : Net J) → Grows x (srv (some req) x).1)
        → (req : Req) (x : Net J) (r : Result E Resp × (Net J))
        → invoke full_method (some req) x ≡ r
        → Grows x (reply r).1
    call-Grows invoke full_method srv c grows req x (ok resp, x') sent =
        subst (Grows x) (ap (λ r. r.1) (c.delivers req x x' resp sent)) (grows req x)
    call-Grows invoke full_method srv c grows req x (err e, x') sent =
        elim (c.fails req x x' e sent) [
          | inl same ↦ subst (Grows x) (sym same) (Grows-refl x)
          | inr ran ↦ subst (Grows x) (sym ran) (grows req x)
        ]

    module _ {E : Type 0} (inv : Invoke (Net J) E ReserveRequest ReserveResponse)
        (inv_carries : Carries inv reserve_full_method (serve_reserve E uuid)) where
      -- A charge makes its call, and then draws the payment's id.
      serve_charge-draws :
          (req : ChargeRequest) (x : Net J)
          → (y : Net J) × Grows x y × ((serve_charge E uuid inv (some req) x).1 ≡ (draw E uuid y).1)
      unfolding client_reserve client_call
      serve_charge-draws req x =
          let (resp, answer, authorizes, outcome, id, state) =
            charge_lem (client_reserve inv) (draw E uuid) (some req) x in
          (
            _,
            call-Grows inv reserve_full_method (serve_reserve E uuid) inv_carries
                (λ r v. serve_reserve-Grows E (some r) v) (reserve_request (some req)) x _ refl,
            state,
          )

      pub serve_charge-Grows :
          (req : ChargeRequest) (x : Net J) → Grows x (serve_charge E uuid inv (some req) x).1
      serve_charge-Grows req x =
          let (y, grows, state) = serve_charge-draws req x in
          subst (Grows x) (sym state) (Grows-then grows (draw-Grows E y))

      -- An authorized charge has made its own reservation.
      authorized-IsHeld :
          (req : ChargeRequest) (x x' : Net J) (out : ChargeResponse)
          → serve_charge E uuid inv (some req) x ≡ (ok (some out), x')
          → get_status (some out) ≡ charge_authorized
          → (x.drawn < x'.drawn) × IsHeld x.drawn x'
      authorized-IsHeld req x x' out served auth =
          let (y, grows, state) = serve_charge-draws req x in
          let more = grows.draws in
          let ends : x'.drawn ≡ y.drawn + 1 =
            ap (λ r. r.1.drawn) (sym served) ∙ ap (λ (v : Net J). v.drawn) state in
          (
            omega arith,
            ap (lookup (uuid x.drawn))
                  (charged_store uuid inv inv_carries.delivers req x x' out served auth)
                ∙ lookup-insert_self (uuid x.drawn) default_items x.store,
          )

      module _ (pay : Invoke (Net J) E ChargeRequest ChargeResponse)
          (pay_carries : Carries pay charge_full_method (serve_charge E uuid inv)) where
        -- What orders-svc is answered, and the id of the reservation that its charge has made.
        abbrev pub IsOwn : Net J → Result E (Option ChargeResponse) → Net J → Type 0
        IsOwn x (ok resp) x' =
            get_status resp ≡ charge_authorized → (x.drawn < x'.drawn) × IsHeld x.drawn x'
        IsOwn x (err e) x' = Unit {0}

        answered-IsOwn :
            (req : ChargeRequest) (x : Net J) (r : Result E ChargeResponse × (Net J))
            → pay charge_full_method (some req) x ≡ r
            → IsOwn x (reply r).0 (reply r).1
        answered-IsOwn req x (err e, x') sent = tt
        answered-IsOwn req x (ok out, x') sent =
            authorized-IsHeld req x x' out (pay_carries.delivers req x x' out sent)

        pub pay-IsOwn :
            (req : ChargeRequest) (x : Net J)
            → let (resp, x') = client_charge pay (some req) x in Grows x x' × IsOwn x resp x'
        unfolding client_charge client_call
        pay-IsOwn req x = (
          call-Grows pay charge_full_method (serve_charge E uuid inv) pay_carries serve_charge-Grows
              req x _ refl,
          answered-IsOwn req x (pay charge_full_method (some req) x) refl,
        )
