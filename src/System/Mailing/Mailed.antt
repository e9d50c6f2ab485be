-- ===== src/System/Mailing/Mailed.antt =====
-- Which emails go out, and for which orders.
use mathlib.Core.List.{Memᴰ}
use mathlib.Core.List.Memᴰ
use reliability_lab.Common.{
  ℕ, ◌≡◌, refl, sym, subst, ◌⊎◌, inl, inr, Bool-cases, String, List, [], ◌∷◌, Option, none, Bool,
  true, false, ok, err, update-all,
}
use reliability_lab.Common.Int.{eq_ℤ}
use reliability_lab.Gen.PaymentsV1.{ChargeResponse, charge_authorized, get_status}
use reliability_lab.Orders.Create.{OrderRequest, App, Msg, event_msg}
use reliability_lab.Orders.Concurrent.{
  Handler, idle, entered, charging, deciding, publishing, answered, decided, advance,
}
use reliability_lab.Services.Config.{orders_config, email_config}
use reliability_lab.Services.Email.{Incoming, consumer_config}
use reliability_lab.System.Events.{received, decode_incoming-encode_event}
use reliability_lab.System.Mailing.{
  Pipeline, noted, sent, LogLaws, worked, delivered, Step, flag, arrive, work, deliver, pass, Reach,
  start, later,
}
use reliability_lab.System.Mailing.Logged.{Publishes, advance_logged, attempted_by-Publishes}

-- The messages that a handler is about to publish are of these orders.
abbrev Pending : {E : Type 0} → List Incoming → Handler E → Type 0
Pending orders h = (m : Msg) → Publishes h m → Memᴰ (received m.payload) orders

noted-keeps :
    {E : Type 0} (h : Handler E) (rest : List Incoming) {evt : Incoming}
    → Memᴰ evt rest
    → Memᴰ evt (noted h rest)
noted-keeps idle rest known = known
noted-keeps (entered req) rest known = known
noted-keeps (charging order_id req) rest known = known
noted-keeps (deciding order_id req (err e)) rest known = known
noted-keeps (deciding order_id req (ok resp)) rest known =
    elim (Bool-cases (eq_ℤ (get_status resp) charge_authorized)) [
      | inl e ↦ rw e (Memᴰ.tail known)
      | inr e ↦ rw e known
    ]
noted-keeps (publishing order_id req resp) rest known = known
noted-keeps (answered r) rest known = known

decided-Pending :
    (E : Type 0) (paused : Bool) (order_id : String) (req : OrderRequest)
    (resp : Option ChargeResponse) (rest : List Incoming)
    → Pending {E = E}
        (record { order_id = order_id; customer_email = req.customer_email } ∷ rest)
        (decided paused order_id req resp)
unfolding decided
decided-Pending E true order_id req resp rest m p = absurd p
decided-Pending E false order_id req resp rest m p = Memᴰ.head p

module _ {W E : Type 0} (a : App W E) where
  advance-Pending :
      (paused : Bool) (h : Handler E) (w : W) (rest : List Incoming)
      → Pending (noted h rest) (advance a paused h w).0
  unfolding advance
  advance-Pending paused idle w rest m p = absurd p
  advance-Pending paused (entered req) w rest m p = absurd p
  advance-Pending paused (charging order_id req) w rest m p = absurd p
  advance-Pending paused (deciding order_id req (err e)) w rest m p = absurd p
  advance-Pending paused (deciding order_id req (ok resp)) w rest m p =
      elim (Bool-cases (eq_ℤ (get_status resp) charge_authorized)) [
        | inl e ↦ rw e (decided-Pending E paused order_id req resp rest m (rw e at p))
        | inr e ↦ let never : ⊥ = rw e at p in absurd never
      ]
  advance-Pending paused (publishing order_id req resp) w rest m p = absurd p
  advance-Pending paused (answered r) w rest m p = absurd p

delivered-mailed :
    {W E : Type 0} (rfc3339 : ℕ → String) (m : Msg) (p : Pipeline W E) (evt : Incoming)
    → Memᴰ evt (delivered rfc3339 m p).mailed
    → (evt ≡ received m.payload) ⊎ Memᴰ evt p.mailed
delivered-mailed rfc3339 m p evt done =
    Memᴰ.cases_cons (
      subst (λ o. Memᴰ evt (sent o p.mailed)) (decode_incoming-encode_event rfc3339 m.payload) done)

module _ {W E : Type 0} (a : App W E) (log : W → List Msg) (matches : String → String → Bool)
    (subject : String) (rfc3339 : ℕ → String) (laws : LogLaws a log) where
  -- What the log, the handlers and the emails have to do with the orders.
  record Covered (p : Pipeline W E) : Type 0 where
    logged : (m : Msg) → Memᴰ m (log p.orders.world) → Memᴰ (received m.payload) p.authorized
    pending : (i : ℕ) → Pending p.authorized (p.orders.handlers i)
    mailed : (evt : Incoming) → Memᴰ evt p.mailed → Memᴰ evt p.authorized
    tried : (m : Msg) → Memᴰ m p.attempted → Memᴰ (received m.payload) p.authorized

  worked-Covered : (i : ℕ) (p : Pipeline W E) → Covered p → Covered (worked a i p)
  worked-Covered i p c = record {
    logged = λ m stored.
        keep (elim (advance_logged a log laws p.orders.paused h p.orders.world m stored) [
          | inl older ↦ c.logged m older
          | inr own ↦ c.pending i m own
        ]);
    pending =
        update-all (Pending (noted h p.authorized)) p.orders.handlers i _
          (λ j m q. keep (c.pending j m q))
          (advance-Pending a p.orders.paused h p.orders.world p.authorized);
    mailed = λ evt done. keep (c.mailed evt done);
    tried = λ m handed.
        keep (elim (attempted_by-Publishes a h p.orders.world p.attempted m handed) [
          | inl older ↦ c.tried m older
          | inr own ↦ c.pending i m own
        ]);
  }
    where
      h : Handler E
      h = p.orders.handlers i

      keep : {evt : Incoming} → Memᴰ evt p.authorized → Memᴰ evt (noted h p.authorized)
      keep = noted-keeps h p.authorized

  Step-Covered :
      {p q : Pipeline W E} → Covered p → Step a log matches subject rfc3339 p q → Covered q
  Step-Covered c (flag b) = record {
    logged = c.logged;
    pending = c.pending;
    mailed = c.mailed;
    tried = c.tried;
  }
  Step-Covered {p} c (arrive i req free) = record {
    logged = c.logged;
    pending =
        update-all (Pending p.authorized) p.orders.handlers i (entered req) c.pending
          (λ m q. absurd q);
    mailed = c.mailed;
    tried = c.tried;
  }
  Step-Covered {p} c (work i) = worked-Covered i p c
  Step-Covered {p} c (deliver m stored matched) = record {
    logged = c.logged;
    pending = c.pending;
    mailed = λ evt done. elim (delivered-mailed rfc3339 m p evt done) [
      | inl own ↦ subst (λ x. Memᴰ x p.authorized) (sym own) (c.logged m stored)
      | inr older ↦ c.mailed evt older
    ];
    tried = c.tried;
  }
  Step-Covered c (pass w known) = record {
    logged = λ m stored. elim (known m stored) [
      | inl older ↦ c.logged m older
      | inr handed ↦ c.tried m handed
    ];
    pending = c.pending;
    mailed = c.mailed;
    tried = c.tried;
  }

  Reach-Covered :
      {b : Bool} {w : W} {p : Pipeline W E}
      → log w ≡ []
      → Reach a log matches subject rfc3339 b w p
      → Covered p
  Reach-Covered {w = w} empty start = record {
    logged = λ m stored. absurd (Memᴰ.not-nil (subst (Memᴰ m) empty stored));
    pending = λ i m q. absurd q;
    mailed = λ evt done. absurd (Memᴰ.not-nil done);
    tried = λ m handed. absurd (Memᴰ.not-nil handed);
  }
  Reach-Covered empty (later before step) = Step-Covered (Reach-Covered empty before) step

  -- Over a JetStream that stores no message but those of its publishes, at once or late, with a log
  -- that is empty at first: however requests, the steps of their handlers, changes of the flag and
  -- deliveries, which may be late or repeated, interleave, an email goes out only for an order whose
  -- charge payments-svc has authorized, under the order's id and to the email of its request.
  pub Reach-mailed :
      {b : Bool} {w : W} {p : Pipeline W E}
      → log w ≡ []
      → Reach a log matches subject rfc3339 b w p
      → (evt : Incoming) → Memᴰ evt p.mailed
      → Memᴰ evt p.authorized
  Reach-mailed empty reached = (Reach-Covered empty reached).mailed

-- orders-svc and email-worker as their environments set their subjects.
abbrev pub configured : {W E : Type 0} → (String → String) → String → App W E → App W E
configured env default_url a = record a { subject = (orders_config env default_url).subject }

abbrev pub worker_subject : (String → String) → String → String
worker_subject env default_url = (email_config env default_url).subject

module _ {W E : Type 0} (a : App W E) (log : W → List Msg) (matches : String → String → Bool)
    (rfc3339 : ℕ → String) (env worker_env : String → String) (default_url : String) where
  -- NATS_SUBJECT is the same in both environments, a filter matches itself, and JetStream stores
  -- what it confirms: when a handler is about to publish, and the publish is confirmed, its step may
  -- be followed by a delivery, after which the worker has sent the email for the order's id to the
  -- email of its request.
  pub worked-mailed :
      let orders = configured env default_url a in
      let filter = worker_subject worker_env default_url in
      LogLaws orders log
      → env "NATS_SUBJECT" ≡ worker_env "NATS_SUBJECT"
      → matches filter filter ≡ true
      → (p : Pipeline W E) (i : ℕ) (order_id : String) (req : OrderRequest)
        (resp : Option ChargeResponse)
      → p.orders.handlers i ≡ publishing order_id req resp
      → (orders.publish_msg (event_msg orders order_id req p.orders.world) p.orders.world).0 ≡ none
      → (t : Pipeline W E) × Step orders log matches filter rfc3339 (worked orders i p) t
        × (t.orders ≡ (worked orders i p).orders)
        × (t.mailed
            ≡ record { order_id = order_id; customer_email = req.customer_email } ∷ p.mailed)
  unfolding consumer_config orders_config email_config advance
  worked-mailed laws same itself p i order_id req resp ready confirmed =
      let orders = configured env default_url a in
      let m = event_msg orders order_id req p.orders.world in
      (
        delivered rfc3339 m (worked orders i p),
        deliver m (rw ready (laws.confirms m p.orders.world confirmed)) (rw same itself),
        refl,
        rw (decode_incoming-encode_event rfc3339 m.payload) refl,
      )
