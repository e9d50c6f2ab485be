-- ===== src/Gen/Wire.antt =====
-- The stubs over a connection that carries encoded messages. grpc-go and protobuf are arguments: the
-- codec of a message type, and `transport`, which takes a method's full name and encoded request.
use Prim.Native.String.{◌++◌ as ◌<>◌}
use reliability_lab.Common.{
  ◌≡◌, ◌≢◌, refl, ap, ◌∙◌, String, List, [], ◌∷◌, All, Option, none, some, Result, ok, err,
}
use reliability_lab.Gen.Rpc.{Method, Invoke, serve_call}
use reliability_lab.Gen.InventoryV1.{
  ReserveRequest, ReserveResponse, ReleaseRequest, ReleaseResponse, reserve_full_method,
  release_full_method,
}
use reliability_lab.Gen.PaymentsV1.{ChargeRequest, ChargeResponse, charge_full_method}

-- proto.Marshal and proto.Unmarshal of a message; a nil message is encoded too.
pub record Codec (Wire E A : Type 0) : Type 0 where
  pub marshal : Option A → Wire
  pub unmarshal : Wire → Result E A

-- What protobuf documents: a message is read back from its encoding.
abbrev pub ReadsBack : {Wire E A : Type 0} → Codec Wire E A → Type 0
ReadsBack {A} c = (a : A) → c.unmarshal (c.marshal (some a)) ≡ ok a

abbrev pub Transport : Type 0 → Type 0 → Type 0 → Type 0
Transport Wire W E = String → Wire → W → Result E Wire × W

-- grpc.MethodDesc and grpc.ServiceDesc.
pub record MethodDesc (Wire W E : Type 0) : Type 0 where
  pub method_name : String
  pub handler : Wire → W → Result E Wire × W

pub record ServiceDesc (Wire W E : Type 0) : Type 0 where
  pub service_name : String
  pub methods : List (MethodDesc Wire W E)

-- A server that never answers with a nil message.
abbrev pub NeverNil : {W E Req Resp : Type 0} → Method W E Req Resp → Type 0
NeverNil {W} {Req} srv = (req : Req) (w w' : W) → srv (some req) w ≢ (ok none, w')

module _ {Wire W E : Type 0} where
  abbrev pub marshalled :
      {A : Type 0} → Codec Wire E A → Result E (Option A) × W → Result E Wire × W
  marshalled c (err e, w) = (err e, w)
  marshalled c (ok a, w) = (ok (c.marshal a), w)

  abbrev pub unmarshalled : {A : Type 0} → Codec Wire E A → Result E Wire × W → Result E A × W
  unmarshalled c (err e, w) = (err e, w)
  unmarshalled c (ok wire, w) = (c.unmarshal wire, w)

  -- The connection's Invoke.
  unfoldable pub invoke_over :
      {Req Resp : Type 0}
      → Transport Wire W E
      → Codec Wire E Req
      → Codec Wire E Resp
      → Invoke W E Req Resp
  invoke_over transport creq cresp full_method req w =
      unmarshalled cresp (transport full_method (creq.marshal req) w)

  -- A method's handler, without an interceptor.
  unfoldable pub method_handler :
      {Req Resp : Type 0}
      → Codec Wire E Req
      → Codec Wire E Resp
      → Method W E Req Resp
      → String
      → Wire
      → W
      → Result E Wire × W
  unfolding serve_call
  method_handler creq cresp srv full_method wire w =
      marshalled cresp (serve_call srv (creq.unmarshal wire) none full_method w)

  -- InventoryService_ServiceDesc.
  unfoldable pub inventory_desc :
      Codec Wire E ReserveRequest
      → Codec Wire E ReserveResponse
      → Codec Wire E ReleaseRequest
      → Codec Wire E ReleaseResponse
      → Method W E ReserveRequest ReserveResponse
      → Method W E ReleaseRequest ReleaseResponse
      → ServiceDesc Wire W E
  inventory_desc c1 c2 c3 c4 reserve release = record {
    service_name = "inventory.v1.InventoryService";
    methods =
        record {
          method_name = "Reserve";
          handler = method_handler c1 c2 reserve reserve_full_method;
        }
        ∷ record {
          method_name = "Release";
          handler = method_handler c3 c4 release release_full_method;
        }
        ∷ [];
  }

  -- PaymentsService_ServiceDesc.
  unfoldable pub payments_desc :
      Codec Wire E ChargeRequest
      → Codec Wire E ChargeResponse
      → Method W E ChargeRequest ChargeResponse
      → ServiceDesc Wire W E
  payments_desc c1 c2 charge = record {
    service_name = "payments.v1.PaymentsService";
    methods =
        record { method_name = "Charge"; handler = method_handler c1 c2 charge charge_full_method }
        ∷ [];
  }

  -- What grpc-go documents of a server that has registered the service: a call by the path
  -- /service/method that succeeds has been answered by that method's handler.
  abbrev pub Routes : Transport Wire W E → ServiceDesc Wire W E → Type 0
  Routes transport desc =
      All
        (λ m.
          (wire out : Wire) (w w' : W)
          → transport ("/" <> (desc.service_name <> ("/" <> m.method_name))) wire w ≡ (ok out, w')
          → m.handler wire w ≡ (ok out, w'))
        desc.methods

  module _ {Req Resp : Type 0} (creq : Codec Wire E Req) (cresp : Codec Wire E Resp)
      (back_req : ReadsBack creq) (back_resp : ReadsBack cresp) (srv : Method W E Req Resp)
      (never : NeverNil srv) (transport : Transport Wire W E) (full_method : String)
      (routed : (wire out : Wire) (w w' : W)
        → transport full_method wire w ≡ (ok out, w')
        → method_handler creq cresp srv full_method wire w ≡ (ok out, w')) where
    -- From the server's result to what the client reads.
    read_back :
        (r : Result E (Option Resp) × W) (out : Wire) (resp : Resp) (w w' : W) (req : Req)
        → srv (some req) w ≡ r
        → marshalled cresp r ≡ (ok out, w')
        → cresp.unmarshal out ≡ ok resp
        → r ≡ (ok (some resp), w')
    read_back (err e, v) out resp w w' req served sent read = cc
    read_back (ok none, v) out resp w w' req served sent read = absurd (never req w v served)
    read_back (ok (some a), v) out resp w w' req served sent read =
        let same : cresp.marshal (some a) ≡ out = cc in
        let back : cresp.unmarshal out ≡ ok a = rw (← same) (back_resp a) in cc

    answered :
        (r : Result E Wire × W) (req : Req) (w w' : W) (resp : Resp)
        → transport full_method (creq.marshal (some req)) w ≡ r
        → unmarshalled cresp r ≡ (ok resp, w')
        → srv (some req) w ≡ (ok (some resp), w')
    unfolding method_handler
    answered (err e, v) req w w' resp sent read = cc
    answered (ok out, v) req w w' resp sent read =
        let handled : marshalled cresp (srv (some req) w) ≡ (ok out, v) =
          rw (back_req req) at (routed (creq.marshal (some req)) out w v sent) in
        let first : cresp.unmarshal out ≡ ok resp = ap (λ x. x.0) read in
        let second : v ≡ w' = ap (λ x. x.1) read in
        read_back (srv (some req) w) out resp w w' req refl (handled ∙ ap (λ x. (ok out, x)) second)
          first

    -- An answer of the stub is the answer of the server's method.
    pub invoke_over-served :
        (req : Req) (w w' : W) (resp : Resp)
        → invoke_over transport creq cresp full_method (some req) w ≡ (ok resp, w')
        → srv (some req) w ≡ (ok (some resp), w')
    unfolding invoke_over
    invoke_over-served req w w' resp read = answered _ req w w' resp refl read
