-- ===== src/Services/Email.antt =====
-- services/email-worker/main.go: the message handler, and the stream and consumer that main asks
-- JetStream for. Tracing and the simulated send, which only sleeps, are left out.
use reliability_lab.Common.{
  ℕ, suc, ◌+◌, length, String, List, [], ◌∷◌, Option, none, some, Bool, true, ◌≡◌, arith,
  if◌then◌else◌,
}

pub record Incoming : Type 0 where
  pub order_id : String
  pub customer_email : String

-- jetstream.Msg's operations, over the consumer's state `W`.
pub record Consumer (W E : Type 0) : Type 0 where
  pub term : W → Option E × W
  pub ack : W → Option E × W
  pub is_connection_closed : E → Bool

-- What the handler logs and records on the span.
pub data Logged (E : Type 0) : Type 0 where
  decode_failed : Logged E
  ack_failed : E → Logged E

abbrev pub logged_ack : {E : Type 0} → (E → Bool) → Option E → List (Logged E)
logged_ack is_closed none = []
logged_ack is_closed (some e) = if is_closed e then [] else ack_failed e ∷ []

-- The handler: `none` is a message whose data do not decode.
unfoldable pub handle_msg :
    {W E : Type 0} → Consumer W E → Option Incoming → W → List (Logged E) × W
handle_msg c none w = (decode_failed ∷ [], (c.term w).1)
handle_msg c (some evt) w = let (e, w') = c.ack w in (logged_ack c.is_connection_closed e, w')

pub record StreamConfig : Type 0 where
  pub name : String
  pub subjects : List String
  pub limits_retention : Bool
  pub max_age : ℕ
  pub file_storage : Bool

pub record ConsumerConfig : Type 0 where
  pub name : String
  pub durable : String
  pub filter_subject : String
  pub ack_explicit : Bool
  pub ack_wait : ℕ
  pub max_ack_pending : ℕ

-- Durations are in nanoseconds.
unfoldable pub stream_config : StreamConfig
stream_config = record {
  name = "ORDER_EVENTS";
  subjects = "orders.events.>" ∷ [];
  limits_retention = true;
  max_age = 86400000000000;
  file_storage = true;
}

unfoldable pub consumer_config : String → ConsumerConfig
consumer_config subject = record {
  name = "email-worker";
  durable = "email-worker";
  filter_subject = subject;
  ack_explicit = true;
  ack_wait = 30000000000;
  max_ack_pending = 100;
}

-- The handler over a sequence of deliveries.
unfoldable pub handle_all :
    {W E : Type 0} → Consumer W E → List (Option Incoming) → W → List (List (Logged E)) × W
handle_all c [] w = ([], w)
handle_all c (m ∷ ms) w =
    let (logged, w1) = handle_msg c m w in
    let (rest, w2) = handle_all c ms w1 in (logged ∷ rest, w2)

-- How often a consumer has been told Ack and Term.
pub record Settled : Type 0 where
  pub acks : ℕ
  pub terms : ℕ

-- A consumer that counts; its answers are those of the two functions.
abbrev pub counting : {E : Type 0} → (Settled → Option E) → (E → Bool) → Consumer Settled E
counting answer is_closed = record {
  term = λ w. (answer w, record w { terms = w.terms + 1 });
  ack = λ w. (answer w, record w { acks = w.acks + 1 });
  is_connection_closed = is_closed;
}

abbrev pub count_decoded : List (Option Incoming) → ℕ
count_decoded [] = 0
count_decoded (none ∷ ms) = count_decoded ms
count_decoded (some evt ∷ ms) = suc (count_decoded ms)

-- For a consumer that counts its calls, whatever it answers, every delivery is settled exactly
-- once: an Ack for each message that decodes, and a Term, so that it is not delivered again, for
-- each that does not.
pub handle_all_settles :
    {E : Type 0} (answer : Settled → Option E) (is_closed : E → Bool) (ms : List (Option Incoming))
    (w : Settled)
    → let w' = (handle_all (counting answer is_closed) ms w).1 in
      (w'.acks ≡ w.acks + count_decoded ms) × (w'.acks + w'.terms ≡ w.acks + w.terms + length ms)
unfolding handle_all handle_msg
handle_all_settles answer is_closed [] w = omega arith
handle_all_settles answer is_closed (none ∷ ms) w =
    omega (arith, handle_all_settles answer is_closed ms (record w { terms = w.terms + 1 }))
handle_all_settles answer is_closed (some evt ∷ ms) w =
    omega (arith, handle_all_settles answer is_closed ms (record w { acks = w.acks + 1 }))
