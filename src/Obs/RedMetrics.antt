-- ===== src/Obs/RedMetrics.antt =====
-- pkg/obs/redmetrics.go: the RED middleware. A handler is the sequence of its calls on the
-- ResponseWriter, which is statusRecorder over net/http's.
pub mod Collectors
use reliability_lab.Common.{
  ℕ, ◌-◌, ◌≡◌, refl, String, List, [], ◌∷◌, Bool, true, false, not, ◌&&◌, arith, leb, ◌==◌,
  if◌then◌else◌,
}

pub record StatusRecorder : Type 0 where
  pub code : ℕ
  pub wrote_header : Bool

-- net/http's ResponseWriter: the first final WriteHeader sets the status that is sent, and a Write
-- before it sends 200; an informational code, 1xx but 101, is sent at once and is not final.
pub record NetWriter : Type 0 where
  pub sent : ℕ
  pub final : Bool

pub record Writer : Type 0 where
  pub recorder : StatusRecorder
  pub net : NetWriter

abbrev pub is_informational : ℕ → Bool
is_informational c = leb 100 c && leb c 199 && not (c == 101)

abbrev pub net_write_header : ℕ → NetWriter → NetWriter
net_write_header c n =
    if n.final then n else if is_informational c then n else record { sent = c; final = true }

abbrev pub net_write : NetWriter → NetWriter
net_write n = if n.final then n else record { sent = 200; final = true }

pub data WriterCall : Type 0 where
  write_header : ℕ → WriterCall
  write : WriterCall

-- statusRecorder.WriteHeader.
unfoldable pub recorder_write_header : ℕ → Writer → Writer
recorder_write_header c w = record {
  recorder =
      if w.recorder.wrote_header then w.recorder else record { code = c; wrote_header = true };
  net = net_write_header c w.net;
}

-- A call of the handler; Write is the embedded writer's own.
unfoldable pub call : WriterCall → Writer → Writer
unfolding recorder_write_header
call (write_header c) w = recorder_write_header c w
call write w = record w { net = net_write w.net }

unfoldable pub calls : List WriterCall → Writer → Writer
calls [] w = w
calls (c ∷ cs) w = calls cs (call c w)

-- The writer that Wrap hands to the handler; a handler that writes nothing is answered 200.
unfoldable pub fresh : Writer
fresh = record {
  recorder = record { code = 200; wrote_header = false };
  net = record { sent = 200; final = false };
}

pub record MetricLabels : Type 0 where
  pub handler : String
  pub method : String
  pub code : ℕ

-- The two collectors: the counter as the list of its increments, the histogram as that of its
-- observations in nanoseconds.
pub record HttpMetrics : Type 0 where
  pub requests : List MetricLabels
  pub duration : List (MetricLabels × ℕ)

-- The handler that Wrap returns, from `start` to `stop` on the clock.
unfoldable pub wrap : HttpMetrics → String → String → List WriterCall → ℕ → ℕ → HttpMetrics × Writer
unfolding calls fresh
wrap m handler method cs start stop =
    let w = calls cs fresh in
    let labels : MetricLabels = record {
      handler = handler;
      method = method;
      code = w.recorder.code;
    } in
    (record { requests = labels ∷ m.requests; duration = (labels, stop - start) ∷ m.duration }, w)

-- The status is settled, and recorded as it was sent.
record IsSettled (w : Writer) : Type 0 where
  wrote : w.recorder.wrote_header ≡ true
  final : w.net.final ≡ true
  same : w.recorder.code ≡ w.net.sent

call-IsSettled : (c : WriterCall) (w : Writer) → IsSettled w → IsSettled (call c w)
unfolding call
call-IsSettled (write_header c) w s = ground arith
call-IsSettled write w s = ground arith

calls-IsSettled : (cs : List WriterCall) (w : Writer) → IsSettled w → IsSettled (calls cs w)
unfolding calls
calls-IsSettled [] w s = s
calls-IsSettled (c ∷ cs) w s = calls-IsSettled cs (call c w) (call-IsSettled c w s)

abbrev pub NoHeader : List WriterCall → Type 0
NoHeader [] = Unit {0}
NoHeader (write_header c ∷ cs) = ⊥
NoHeader (write ∷ cs) = NoHeader cs

-- The handler writes its header first, with a final code, or never.
abbrev pub HeaderFirst : List WriterCall → Type 0
HeaderFirst [] = Unit {0}
HeaderFirst (write_header c ∷ cs) = is_informational c ≡ false
HeaderFirst (write ∷ cs) = NoHeader cs

calls-NoHeader :
    (code : ℕ) (cs : List WriterCall) (w : Writer)
    → NoHeader cs
    → w.recorder.code ≡ code
    → w.net.sent ≡ 200
    → ((calls cs w).recorder.code ≡ code) × ((calls cs w).net.sent ≡ 200)
unfolding calls call
calls-NoHeader code [] w n a b = (a, b)
calls-NoHeader code (write_header c ∷ cs) w n a b = absurd n
calls-NoHeader code (write ∷ cs) w n a b =
    calls-NoHeader code cs (record w { net = net_write w.net }) n a (ground arith)

-- A handler that writes its header first, with a code that is not informational, or never, is
-- counted under the status code that the client is sent, once in the counter and once in the
-- histogram.
pub wrap-sent :
    (m : HttpMetrics) (handler method : String) (cs : List WriterCall) (start stop : ℕ)
    → HeaderFirst cs
    → let (m', w) = wrap m handler method cs start stop in
      let labels : MetricLabels = record {
        handler = handler;
        method = method;
        code = w.net.sent;
      } in
      (m'.requests ≡ labels ∷ m.requests) × (m'.duration ≡ (labels, stop - start) ∷ m.duration)
unfolding wrap
wrap-sent m handler method cs start stop h = rw (recorded cs h) (refl, refl)
  where
    recorded :
        (cs : List WriterCall)
        → HeaderFirst cs
        → (calls cs fresh).recorder.code ≡ (calls cs fresh).net.sent
    recorded [] h = refl
    recorded (write_header c ∷ cs) h =
        (calls-IsSettled cs (call (write_header c) fresh) (unfold call fresh in ground arith)).same
    recorded (write ∷ cs) h =
        unfold calls call fresh in ground (arith, calls-NoHeader 200 cs (call write fresh) h)

-- A handler that writes before its header is counted under the code of that header, though the
-- client has been sent 200.
pub wrap_late_header :
    (m : HttpMetrics) (handler method : String) (c : ℕ) (cs : List WriterCall) (start stop : ℕ)
    → NoHeader cs
    → let w = (wrap m handler method (write ∷ write_header c ∷ cs) start stop).1 in
      (w.recorder.code ≡ c) × (w.net.sent ≡ 200)
unfolding wrap call fresh calls
wrap_late_header m handler method c cs start stop n =
    calls-NoHeader c cs (recorder_write_header c (call write fresh)) n refl refl
