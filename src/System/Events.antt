-- ===== src/System/Events.antt =====
-- The event of an order from orders-svc to email-worker: json.Marshal of orderEvent, whose text
-- JetStream carries, and the worker's handler from the message's data on. `rfc3339` is how
-- time.Time writes itself.
use reliability_lab.Common.{
  suc, ◌+◌, length, map, ℕ, ◌≡◌, refl, ◌∙◌, ap, String, List, [], ◌∷◌, Option, none, some, Bool,
  false, if◌then◌else◌,
}
use reliability_lab.Json.{
  Value, text, integer, object, end, member, is_key, into_text, ◌>>=◌, into_members, into_struct,
}
use reliability_lab.Json.Schema.{
  Schema, is_text, is_struct, fields, member_fits, is_some, into_struct-is_struct,
}
use reliability_lab.Orders.Create.{
  OrderRequest, OrderEvent, App, Msg, event_msg, created, handle_create,
}
use reliability_lab.Orders.Create.Outcomes.{payment, handle_create-publishes}
use reliability_lab.Services.Email.{
  Settled, counting, count_decoded, handle_all, handle_all_settles, Incoming, Consumer, Logged,
  logged_ack, handle_msg,
}

-- The tags of orderEvent, in the order of its fields.
unfoldable pub encode_event : (ℕ → String) → OrderEvent → Value
encode_event rfc3339 e = object (
    member "order_id" (text e.order_id) (
      member "customer_id" (text e.customer_id) (
        member "customer_email" (text e.customer_email) (
          member "amount_minor" (integer e.amount_minor) (
            member "currency" (text e.currency)
              (member "created_at" (text (rfc3339 e.created_at)) end))))))

-- The tags of incoming.
unfoldable pub set_incoming : String → Value → Incoming → Option Incoming
set_incoming name v evt =
    if is_key name "order_id"
    then (into_text v evt.order_id >>= λ x. some (record evt { order_id = x }))
    else if is_key name "customer_email"
    then (into_text v evt.customer_email >>= λ x. some (record evt { customer_email = x }))
    else some evt

unfoldable pub decode_incoming : Value → Option Incoming
unfolding set_incoming into_struct
decode_incoming v = into_struct set_incoming v (record { order_id = ""; customer_email = "" })

-- The handler from the data of the message on; data that are not a JSON text are `none`.
unfoldable pub handle_data : {W E : Type 0} → Consumer W E → Option Value → W → List (Logged E) × W
unfolding decode_incoming
handle_data c body w = handle_msg c (body >>= decode_incoming) w

-- What the worker keeps of an event.
abbrev pub received : OrderEvent → Incoming
received e = record { order_id = e.order_id; customer_email = e.customer_email }

pub decode_incoming-encode_event :
    (rfc3339 : ℕ → String) (e : OrderEvent)
    → decode_incoming (encode_event rfc3339 e) ≡ some (received e)
unfolding decode_incoming encode_event is_key into_text into_members
decode_incoming-encode_event rfc3339 e = refl

abbrev incoming_schema : Schema
incoming_schema = ("order_id", is_text) ∷ ("customer_email", is_text) ∷ []

set_incoming-fits :
    (name : String) (v : Value) (evt : Incoming)
    → is_some (set_incoming name v evt) ≡ member_fits incoming_schema name v
unfolding set_incoming
set_incoming-fits name v evt = search fields

-- The data of a message are an event that the worker can read.
abbrev pub is_event : Option Value → Bool
is_event none = false
is_event (some v) = is_struct incoming_schema v

body-is_event : (body : Option Value) → is_some (body >>= decode_incoming) ≡ is_event body
unfolding decode_incoming
body-is_event none = refl
body-is_event (some v) = into_struct-is_struct set_incoming incoming_schema set_incoming-fits v _

module _ {W E : Type 0} (a : App W E) (rfc3339 : ℕ → String) where
  -- While publishing is not paused, an order that is answered as created under an id has handed
  -- JetStream one message, to the app's subject. From the data of that message email-worker reads
  -- the id and the customer's email of the request, and it acknowledges the message.
  pub created-acked :
      {V D : Type 0} (c : Consumer V D) (v : V) (req : OrderRequest) (w : W) {id pid : String}
      → a.publishing_paused ≡ false
      → (handle_create a (some req) w).0 ≡ created id pid
      → (m : Msg) × ((handle_create a (some req) w).1 ≡ (a.publish_msg m (payment a w req).1).1)
        × (m.subject ≡ a.subject)
        × (decode_incoming (encode_event rfc3339 m.payload)
            ≡ some (record { order_id = id; customer_email = req.customer_email }))
        × (handle_data c (some (encode_event rfc3339 m.payload)) v
            ≡ (logged_ack c.is_connection_closed (c.ack v).0, (c.ack v).1))
  unfolding handle_data handle_msg
  created-acked c v req w {id} open_flag made =
      let m = event_msg a id req (payment a w req).1 in
      let read = decode_incoming-encode_event rfc3339 m.payload in
      (m, handle_create-publishes a w req open_flag made, refl, read, rw read refl)

abbrev pub decoded : List (Option Value) → List (Option Incoming)
decoded bodies = map (λ body. body >>= decode_incoming) bodies

abbrev pub count_events : List (Option Value) → ℕ
count_events [] = 0
count_events (body ∷ bodies) =
    if is_event body then suc (count_events bodies) else count_events bodies

count_decoded-one :
    (o : Option Incoming) (ms : List (Option Incoming))
    → count_decoded (o ∷ ms) ≡ (if is_some o then suc (count_decoded ms) else count_decoded ms)
count_decoded-one none ms = refl
count_decoded-one (some evt) ms = refl

count_decoded-decoded :
    (bodies : List (Option Value)) → count_decoded (decoded bodies) ≡ count_events bodies
count_decoded-decoded [] = refl
count_decoded-decoded (body ∷ bodies) =
    count_decoded-one (body >>= decode_incoming) (decoded bodies)
    ∙ rw (body-is_event body, count_decoded-decoded bodies) refl

length-decoded : (bodies : List (Option Value)) → length (decoded bodies) ≡ length bodies
length-decoded [] = refl
length-decoded (body ∷ bodies) = ap suc (length-decoded bodies)

-- For a consumer that counts its calls, whatever it answers: of any deliveries, those whose data are
-- a JSON object or null, with a text or null wherever a member's name goes with order_id or
-- customer_email, get an Ack, and every other gets a Term; each is settled once.
pub handle_all-events :
    {E : Type 0} (answer : Settled → Option E) (is_closed : E → Bool) (bodies : List (Option Value))
    (w : Settled)
    → let w' = (handle_all (counting answer is_closed) (decoded bodies) w).1 in
      (w'.acks ≡ w.acks + count_events bodies)
      × (w'.acks + w'.terms ≡ w.acks + w.terms + length bodies)
handle_all-events answer is_closed bodies w =
    let (acks, all) = handle_all_settles answer is_closed (decoded bodies) w in
    (
      acks ∙ ap (λ n. w.acks + n) (count_decoded-decoded bodies),
      all ∙ ap (λ n. w.acks + w.terms + n) (length-decoded bodies),
    )
