-- ===== src/System/OrderChain.antt =====
-- The chain that an order passes through: handleCreate of orders-svc calls Charge of payments-svc
-- over its stub, which calls Reserve of inventory-svc over its own. The networks between them are
-- arguments: an answer that arrives is the server's, and nothing is known of a call that fails.
use reliability_lab.Common.{
  ℕ, ◌+◌, ◌≡◌, refl, ap, sym, ◌∙◌, inl, inr, Bool-cases, String, Option, some, not, Result, ok, err,
  if◌then◌else◌,
}
use reliability_lab.Common.Int.{eq_ℤ, eq_ℤ_iff}
use reliability_lab.Common.Dict.{insert}
use reliability_lab.Gen.Rpc.{Method, Invoke, client_call, reply}
use reliability_lab.Gen.InventoryV1.{
  ReserveRequest, ReserveResponse, client_reserve, reserve_full_method, get_items,
}
use reliability_lab.Gen.PaymentsV1.{
  ChargeRequest, ChargeResponse, client_charge, charge_full_method, charge_authorized, get_status,
  get_payment_id, get_decline_reason,
}
use reliability_lab.Inventory.{Store, reserve}
use reliability_lab.Payments.{charge, reserve_request, default_items}
use reliability_lab.Payments.Charges.{IsReserved, reservation, charge_lem}
use reliability_lab.Orders.Create.{
  App, OrderRequest, Msg, created, declined, charge_request, event_msg, authorized, charged,
  handle_create, status_of,
}
use reliability_lab.Orders.Create.Outcomes.{IsAuthorized}

-- The inventory's store, how many ids have been drawn, and the state of JetStream.
pub record Net (J : Type 0) : Type 0 where
  pub store : Store
  pub drawn : ℕ
  pub jet : J

module _ {J : Type 0} (E : Type 0) (uuid : ℕ → String) where
  -- uuid.NewString.
  abbrev pub draw : Net J → String × Net J
  draw x = (uuid x.drawn, record x { drawn = x.drawn + 1 })

  -- inventory-svc: Reserve under an id that it draws.
  abbrev pub serve_reserve : Method (Net J) E ReserveRequest ReserveResponse
  serve_reserve req x =
      let (id, x1) = draw x in
      let (resp, store) = reserve id req x1.store in (ok (some resp), record x1 { store = store })

  -- payments-svc, whose inventory is a stub over a connection.
  abbrev pub serve_charge :
      Invoke (Net J) E ReserveRequest ReserveResponse
      → Method (Net J) E ChargeRequest ChargeResponse
  serve_charge inv = charge (client_reserve inv) draw

  -- orders-svc with its payments stub over a connection.
  abbrev pub chained : App (Net J) E → Invoke (Net J) E ChargeRequest ChargeResponse → App (Net J) E
  chained app pay = record app { pay = client_charge pay; new_string = draw }

-- An answer that a connection gives for a method is the answer of the server, which has carried the
-- call out.
abbrev pub Delivers :
    {J E Req Resp : Type 0}
    → Invoke (Net J) E Req Resp
    → String
    → Method (Net J) E Req Resp
    → Type 0
Delivers {J} {E} {Req} {Resp} invoke full_method srv =
    (req : Req) (x x' : Net J) (resp : Resp)
    → invoke full_method (some req) x ≡ (ok resp, x')
    → srv (some req) x ≡ (ok (some resp), x')

reply_state : {J E Resp : Type 0} (r : Result E Resp × (Net J)) → (reply r).1 ≡ r.1
reply_state (err e, x) = refl
reply_state (ok resp, x) = refl

-- The charge's one reservation, as the inventory's store shows it.
module _ {J E : Type 0} (uuid : ℕ → String) (inv : Invoke (Net J) E ReserveRequest ReserveResponse)
    (inv_delivers : Delivers inv reserve_full_method (serve_reserve E uuid)) where
  reserved_store :
      (req : ReserveRequest) (x : Net J) (r : Result E ReserveResponse × (Net J))
      → inv reserve_full_method (some req) x ≡ r
      → IsReserved (reply r).0
      → r.1.store ≡ insert (uuid x.drawn) req.items x.store
  unfolding reserve get_items
  reserved_store req x (err e, x') sent done = absurd done
  reserved_store req x (ok resp, x') sent done =
      sym (ap (λ r. r.1.store) (inv_delivers req x x' resp sent))

  pub charged_store :
      (req : ChargeRequest) (x x' : Net J) (out : ChargeResponse)
      → serve_charge E uuid inv (some req) x ≡ (ok (some out), x')
      → get_status (some out) ≡ charge_authorized
      → x'.store ≡ insert (uuid x.drawn) default_items x.store
  unfolding client_reserve client_call
  charged_store req x x' out served auth =
      let (resp, answer, authorizes, _, _, state) =
        charge_lem (client_reserve inv) (draw E uuid) (some req) x in
      let answered : (serve_charge E uuid inv (some req) x).0 ≡ ok (some out) =
        ap (λ r. r.0) served in
      let same : resp ≡ some out = cc in
      ap (λ r. r.1.store) (sym served)
      ∙ ap (λ v. v.store) state
      ∙ ap (λ v. v.store) (reply_state sent)
      ∙ reserved_store (reserve_request (some req)) x sent refl (authorizes.0 (rw same auth))
    where
      sent : Result E ReserveResponse × (Net J)
      sent = inv reserve_full_method (some (reserve_request (some req))) x

module _ {J E : Type 0} (app : App (Net J) E) where
  charged_keeps :
      ((m : Msg) (v : Net J) → (app.publish_msg m v).1.store ≡ v.store)
      → (order_id : String) (req : OrderRequest) (r : Result E (Option ChargeResponse)) (v : Net J)
        {id pid : String}
      → (charged app order_id req r v).0 ≡ created id pid
      → IsAuthorized r × ((charged app order_id req r v).1.store ≡ v.store) × (order_id ≡ id)
  unfolding charged authorized
  charged_keeps keeps order_id req (err e) v {id} {pid} c = let never : ⊥ = cc in absurd never
  charged_keeps keeps order_id req (ok resp) v {id} {pid} c =
      elim (Bool-cases (eq_ℤ (get_status resp) charge_authorized)) [
        | inl e ↦
            let same : created order_id (get_payment_id resp) ≡ created id pid = rw e at c in
            rw e ((eq_ℤ_iff (get_status resp) charge_authorized).0 e, stays, cc)
        | inr e ↦
            let other : declined (get_decline_reason resp) ≡ created id pid = rw e at c in
            let never : ⊥ = cc in absurd never
      ]
    where
      stays :
          (if not app.publishing_paused
            then (app.publish_msg (event_msg app order_id req v) v).1
            else v).store
          ≡ v.store
      stays = elim (Bool-cases app.publishing_paused) [
        | inl p ↦ rw p refl
        | inr p ↦ rw p (keeps (event_msg app order_id req v) v)
      ]

module _ {J E : Type 0} (uuid : ℕ → String) (inv : Invoke (Net J) E ReserveRequest ReserveResponse)
    (pay : Invoke (Net J) E ChargeRequest ChargeResponse) (app : App (Net J) E) where
  -- Over connections whose answers are those of the servers, and with a JetStream that leaves the
  -- inventory alone: an order that is answered as created has the first id that was drawn, and has
  -- reserved one DEFAULT item, once, under the second; no other reservation has changed.
  pub handle_create-reserves :
      Delivers inv reserve_full_method (serve_reserve E uuid)
      → Delivers pay charge_full_method (serve_charge E uuid inv)
      → ((m : Msg) (v : Net J) → (app.publish_msg m v).1.store ≡ v.store)
      → (req : OrderRequest) (x : Net J) {id pid : String}
      → (handle_create (chained E uuid app pay) (some req) x).0 ≡ created id pid
      → (id ≡ uuid x.drawn)
        × ((handle_create (chained E uuid app pay) (some req) x).1.store
            ≡ insert (uuid (x.drawn + 1)) default_items x.store)
  unfolding handle_create client_charge client_call
  handle_create-reserves inv_delivers pay_delivers keeps req x {id} {pid} c = from_answer _ refl c
    where
      order : ChargeRequest
      order = charge_request (uuid x.drawn) req

      x1 : Net J
      x1 = (draw E uuid x).1

      from_answer :
          (r : Result E ChargeResponse × (Net J))
          → pay charge_full_method (some order) x1 ≡ r
          → (charged (chained E uuid app pay) (uuid x.drawn) req (reply r).0 (reply r).1).0
            ≡ created id pid
          → (id ≡ uuid x.drawn)
            × ((charged (chained E uuid app pay) (uuid x.drawn) req (reply r).0 (reply r).1).1.store
                ≡ insert (uuid (x.drawn + 1)) default_items x.store)
      from_answer (err e, x2) sent c =
          absurd ((charged_keeps (chained E uuid app pay) keeps (uuid x.drawn) req (err e) x2 c).0)
      from_answer (ok out, x2) sent c =
          let (auth, kept, same) =
            charged_keeps (chained E uuid app pay) keeps (uuid x.drawn) req (ok (some out)) x2 c in
          (
            sym same,
            kept
                ∙ charged_store uuid inv inv_delivers order x1 x2 out
                    (pay_delivers order x1 x2 out sent) auth,
          )

  -- When the answer of a charge is lost after both servers have done their work, the order is
  -- answered 502 and its reservation stays in the inventory.
  pub handle_create-leaks :
      (e : E)
      → ((r : ReserveRequest) (v : Net J)
          → reply (inv reserve_full_method (some r) v) ≡ serve_reserve E uuid (some r) v)
      → ((r : ChargeRequest) (v : Net J)
          → pay charge_full_method (some r) v ≡ (err e, (serve_charge E uuid inv (some r) v).1))
      → (req : OrderRequest) (x : Net J)
      → let (response, x') = handle_create (chained E uuid app pay) (some req) x in
        (status_of response ≡ 502) × (x'.store ≡ insert (uuid (x.drawn + 1)) default_items x.store)
  unfolding handle_create charged status_of client_charge client_reserve client_call reserve
      get_items
  handle_create-leaks e inv_works lost req x =
      rw (lost order x1) (refl, ap (λ v. v.store) state ∙ ap (λ r. r.1.store) (inv_works _ x1))
    where
      order : ChargeRequest
      order = charge_request (uuid x.drawn) req

      x1 : Net J
      x1 = (draw E uuid x).1

      state :
          (serve_charge E uuid inv (some order) x1).1
          ≡ (draw E uuid (reservation (client_reserve inv) (draw E uuid) (some order) x1).1).1
      state =
          let (_, _, _, _, _, ends) =
            charge_lem (client_reserve inv) (draw E uuid) (some order) x1 in
          ends
