-- ===== src/Gen/Rpc.antt =====
-- What the generated stubs have in common (gen/go/*/v1/*_grpc.pb.go): the client method that
-- invokes a remote one, and the server handler that decodes, intercepts and calls. The connection,
-- the decoder and the interceptor are grpc-go's: arguments here.
use reliability_lab.Common.{String, Option, none, some, Result, ok, err}

-- A method of a client or a server: it acts on the state `W`, and returns a message pointer or an
-- error.
abbrev pub Method : Type 0 → Type 0 → Type 0 → Type 0 → Type 0
Method W E Req Resp = Option Req → W → Result E (Option Resp) × W

-- The results of Invoke: the error that it returns, or the message that it has filled in.
abbrev pub Invoke : Type 0 → Type 0 → Type 0 → Type 0 → Type 0
Invoke W E Req Resp = String → Option Req → W → Result E Resp × W

abbrev pub reply : {W E Resp : Type 0} → Result E Resp × W → Result E (Option Resp) × W
reply (err e, w) = (err e, w)
reply (ok out, w) = (ok (some out), w)

module _ {W E Req Resp : Type 0} where
  -- A client's method: nil with the error, or the filled message.
  unfoldable pub client_call : Invoke W E Req Resp → String → Method W E Req Resp
  client_call invoke full_method req w = reply (invoke full_method req w)

  -- A server's handler: `dec` decodes the request, and the interceptor may be nil.
  unfoldable pub serve_call :
      (srv : Method W E Req Resp)
      → Result E Req
      → Option (String → Option Req → Method W E Req Resp → W → Result E (Option Resp) × W)
      → String
      → W
      → Result E (Option Resp) × W
  serve_call srv (err e) interceptor full_method w = (err e, w)
  serve_call srv (ok req) none full_method w = srv (some req) w
  serve_call srv (ok req) (some interceptor) full_method w =
      interceptor full_method (some req) srv w
