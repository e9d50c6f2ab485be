-- ===== src/Server/Body.antt =====
-- operator/internal/server/server.go: handleAlert from the JSON value of its body on, with the tags
-- of payload.go. A body that is not the text of a value is `none`; `is_time` is the test of
-- time.Time's UnmarshalJSON on a text.
use reliability_lab.Common.{
  ◌≡◌, refl, ◌∙◌, String, List, [], ◌∷◌, Option, none, some, Bool, true, false, if◌then◌else◌,
}
use reliability_lab.Common.{arith}
use reliability_lab.Common.Dict.{Dict}
use reliability_lab.Json.{
  Value, null, text, is_key, into_text, into_map, into_slice, ◌>>=◌, into_struct,
}
use reliability_lab.Json.Schema.{
  Test, Schema, is_text, is_map, is_slice, is_struct, fields, member_fits, is_some, is_some-bind,
  into_map-is_map, into_slice-is_slice, into_struct-is_struct,
}
use reliability_lab.Dedupe.Clock.{Time}
use reliability_lab.Server.Payload.{Alert, AlertManagerPayload}
use reliability_lab.Server.{Server, Response, handle_alert}

abbrev pub no_alert : Alert
no_alert = record {
  status = "";
  labels = [];
  annotations = [];
  starts_at = "";
  ends_at = "";
  fingerprint = "";
}

abbrev pub no_payload : AlertManagerPayload
no_payload = record { version = ""; group_key = ""; status = ""; receiver = ""; alerts = [] }

module _ (is_time : String → Bool) where
  unfoldable pub into_time : Value → String → Option String
  into_time null old = some old
  into_time (text s) old = if is_time s then some s else none
  into_time _ old = none

  -- The tags of Alert.
  unfoldable pub set_alert : String → Value → Alert → Option Alert
  unfolding into_time
  set_alert name v a =
      if is_key name "status"
      then (into_text v a.status >>= λ x. some (record a { status = x }))
      else if is_key name "labels"
      then (into_map v a.labels >>= λ x. some (record a { labels = x }))
      else if is_key name "annotations"
      then (into_map v a.annotations >>= λ x. some (record a { annotations = x }))
      else if is_key name "startsAt"
      then (into_time v a.starts_at >>= λ x. some (record a { starts_at = x }))
      else if is_key name "endsAt"
      then (into_time v a.ends_at >>= λ x. some (record a { ends_at = x }))
      else if is_key name "fingerprint"
      then (into_text v a.fingerprint >>= λ x. some (record a { fingerprint = x }))
      else some a

  -- The tags of AlertManagerPayload.
  unfoldable pub set_payload : String → Value → AlertManagerPayload → Option AlertManagerPayload
  unfolding set_alert
  set_payload name v p =
      if is_key name "version"
      then (into_text v p.version >>= λ x. some (record p { version = x }))
      else if is_key name "groupKey"
      then (into_text v p.group_key >>= λ x. some (record p { group_key = x }))
      else if is_key name "status"
      then (into_text v p.status >>= λ x. some (record p { status = x }))
      else if is_key name "receiver"
      then (into_text v p.receiver >>= λ x. some (record p { receiver = x }))
      else if is_key name "alerts"
      then (into_slice (into_struct set_alert) no_alert v p.alerts >>= λ x.
          some (record p { alerts = x }))
      else some p

  unfoldable pub decode_payload : Value → Option AlertManagerPayload
  unfolding set_payload
  decode_payload v = into_struct set_payload v no_payload

  -- The handler from the body on.
  unfoldable pub handle_body :
      {W E : Type 0} → Server W E → Option Value → Time → W → Response × Server W E × W
  unfolding decode_payload
  handle_body s body now w = handle_alert s (body >>= decode_payload) now w

  abbrev pub is_time_value : Test
  is_time_value null = true
  is_time_value (text s) = is_time s
  is_time_value _ = false

  abbrev pub alert_schema : Schema
  alert_schema =
      ("status", is_text)
      ∷ ("labels", is_map)
      ∷ ("annotations", is_map)
      ∷ ("startsAt", is_time_value)
      ∷ ("endsAt", is_time_value)
      ∷ ("fingerprint", is_text)
      ∷ []

  abbrev pub payload_schema : Schema
  payload_schema =
      ("version", is_text)
      ∷ ("groupKey", is_text)
      ∷ ("status", is_text)
      ∷ ("receiver", is_text)
      ∷ ("alerts", is_slice (is_struct alert_schema))
      ∷ []

  into_time-is_time_value : (v : Value) (old : String) → is_some (into_time v old) ≡ is_time_value v
  unfolding into_time
  into_time-is_time_value (text s) old = ground arith
  into_time-is_time_value null old = refl
  into_time-is_time_value _ old = refl

  map_field :
      {A : Type 0} (v : Value) (old : Dict String) (f : Dict String → A)
      → is_some (into_map v old >>= λ m. some (f m)) ≡ is_map v
  map_field v old f = is_some-bind (into_map v old) f ∙ into_map-is_map v old

  time_field :
      {A : Type 0} (v : Value) (old : String) (f : String → A)
      → is_some (into_time v old >>= λ m. some (f m)) ≡ is_time_value v
  time_field v old f = is_some-bind (into_time v old) f ∙ into_time-is_time_value v old

  set_alert-fits :
      (name : String) (v : Value) (a : Alert)
      → is_some (set_alert name v a) ≡ member_fits alert_schema name v
  unfolding set_alert
  set_alert-fits name v a = search (fields, map_field, time_field) depth 9

  alerts_field :
      (v : Value) (old : List Alert) (f : List Alert → AlertManagerPayload)
      → is_some (into_slice (into_struct set_alert) no_alert v old >>= λ x. some (f x))
        ≡ is_slice (is_struct alert_schema) v
  alerts_field v old f =
      is_some-bind (into_slice (into_struct set_alert) no_alert v old) f
      ∙ into_slice-is_slice (into_struct set_alert) no_alert (is_struct alert_schema)
          (λ u. into_struct-is_struct set_alert alert_schema set_alert-fits u no_alert) v old

  set_payload-fits :
      (name : String) (v : Value) (p : AlertManagerPayload)
      → is_some (set_payload name v p) ≡ member_fits payload_schema name v
  unfolding set_payload
  set_payload-fits name v p = search (fields, alerts_field) depth 9

  -- A body that is a value of the schema.
  abbrev pub is_payload : Option Value → Bool
  is_payload none = false
  is_payload (some v) = is_struct payload_schema v

  body-is_payload : (body : Option Value) → is_some (body >>= decode_payload) ≡ is_payload body
  unfolding decode_payload
  body-is_payload none = refl
  body-is_payload (some v) =
      into_struct-is_struct set_payload payload_schema set_payload-fits v no_payload

  module _ {W E : Type 0} (s : Server W E) (now : Time) (w : W) where
    answered :
        (p : Option AlertManagerPayload)
        → ((handle_alert s p now w).0.status ≡ (if is_some p then 202 else 400))
          × (is_some p ≡ false → (handle_alert s p now w).1 ≡ s)
          × (is_some p ≡ false → (handle_alert s p now w).2 ≡ w)
    unfolding handle_alert
    answered none = (refl, (λ e. refl), (λ e. refl))
    answered (some p) = (refl, (λ e. cc), (λ e. cc))

    -- A POST of alerts is answered 202 when its body is a JSON value of the payload's schema: an
    -- object or null, whose members and those of its alerts, where their names go with a tag, have
    -- its type. Any other body is answered 400, and changes neither the server nor the cluster.
    pub handle_body-answered :
        (body : Option Value)
        → let (response, s', w') = handle_body s body now w in
          (response.status ≡ (if is_payload body then 202 else 400))
          × (is_payload body ≡ false → s' ≡ s)
          × (is_payload body ≡ false → w' ≡ w)
    unfolding handle_body
    handle_body-answered body = rw (← body-is_payload body) (answered (body >>= decode_payload))
