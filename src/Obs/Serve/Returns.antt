-- ===== src/Obs/Serve/Returns.antt =====
-- What Serve returns, and when its goroutine ends.
use reliability_lab.Common.{
  Bool, true, false, Bool-cases, Option, none, some, ◌≡◌, ◌⊎◌, inl, inr, refl, arith,
}
use reliability_lab.Obs.Serve.{
  Listener, listening, sent, sending, Caller, selecting, shutting_down, returned, Serving,
  listen_result, Step, cancel, listen_returns, send, select_done, select_err, shutdown_returns,
  Reach, start, later, Steps, done, next,
}

module _ {E : Type 0} (is_closed : E → Bool) where
  -- An error is ErrServerClosed only after Shutdown.
  abbrev IsOpen : Bool → E → Type 0
  IsOpen shut e = is_closed e ≡ true → shut ≡ true

  abbrev ListenerInv : Bool → Option E → Listener E → Type 0
  ListenerInv shut ch listening = ch ≡ none
  ListenerInv shut ch (sending e) = (ch ≡ none) × IsOpen shut e
  ListenerInv shut ch sent = Unit {0}

  abbrev ChannelInv : Bool → Option E → Type 0
  ChannelInv shut none = Unit {0}
  ChannelInv shut (some e) = IsOpen shut e

  -- The reasons for a return.
  abbrev Cause : Bool → Bool → Caller E → Type 0
  Cause ctx_done shut selecting = shut ≡ false
  Cause ctx_done shut shutting_down = ctx_done ≡ true
  Cause ctx_done shut (returned r) =
      (ctx_done ≡ true) ⊎ ((e : E) × (is_closed e ≡ false) × (r ≡ some e))

  record Inv (s : Serving E) : Type 0 where
    listener : ListenerInv s.shut s.err_ch s.listener
    channel : ChannelInv s.shut s.err_ch
    cause : Cause s.ctx_done s.shut s.caller

  ListenerInv-shut :
      (shut : Bool) (ch : Option E) (l : Listener E) → ListenerInv shut ch l → ListenerInv true ch l
  ListenerInv-shut shut ch listening i = i
  ListenerInv-shut shut ch (sending e) i = (i.0, λ c. refl)
  ListenerInv-shut shut ch sent i = i

  ChannelInv-shut : (ch : Option E) → ChannelInv true ch
  ChannelInv-shut none = tt
  ChannelInv-shut (some e) = λ c. refl

  Cause-done : (ctx_done shut : Bool) (c : Caller E) → Cause ctx_done shut c → Cause true shut c
  Cause-done ctx_done shut selecting i = i
  Cause-done ctx_done shut shutting_down i = refl
  Cause-done ctx_done shut (returned r) i = ground arith

  -- A full channel has been filled by the listener.
  ListenerInv-received :
      (shut : Bool) (e : E) (l : Listener E) → ListenerInv shut (some e) l → ListenerInv shut none l
  ListenerInv-received shut e listening i = refl
  ListenerInv-received shut e (sending x) i = (refl, i.1)
  ListenerInv-received shut e sent i = tt

  listen_result-Cause :
      (ctx_done shut : Bool) (e : E)
      → shut ≡ false
      → IsOpen shut e
      → Cause ctx_done shut (returned (listen_result is_closed e))
  unfolding listen_result
  listen_result-Cause ctx_done shut e unshut o = elim (Bool-cases (is_closed e)) [
    | inl c ↦ let is_shut : shut ≡ true = o c in cc
    | inr c ↦ inr (e, c, rw c refl)
  ]

  Step-Inv : {s t : Serving E} → Step is_closed s t → Inv s → Inv t
  Step-Inv {s} cancel i = record {
    listener = i.listener;
    channel = i.channel;
    cause = Cause-done s.ctx_done s.shut s.caller i.cause;
  }
  Step-Inv {s} (listen_returns e l o) i = record {
    listener = (rw l at i.listener, o);
    channel = i.channel;
    cause = i.cause;
  }
  Step-Inv {s} (send e l n) i = record {
    listener = tt;
    channel = (rw l at i.listener).1;
    cause = i.cause;
  }
  Step-Inv {s} (select_done c d) i = record {
    listener = ListenerInv-shut s.shut s.err_ch s.listener i.listener;
    channel = ChannelInv-shut s.err_ch;
    cause = d;
  }
  Step-Inv {s} (select_err e c ch) i = record {
    listener = ListenerInv-received s.shut e s.listener (rw ch at i.listener);
    channel = tt;
    cause = listen_result-Cause s.ctx_done s.shut e (rw c at i.cause) (rw ch at i.channel);
  }
  Step-Inv {s} (shutdown_returns r c) i = record {
    listener = i.listener;
    channel = i.channel;
    cause = inl (rw c at i.cause);
  }

  Reach-Inv : {s : Serving E} → Reach is_closed s → Inv s
  Reach-Inv start = record { listener = refl; channel = tt; cause = refl }
  Reach-Inv (later r st) = Step-Inv st (Reach-Inv r)

  -- The goroutine of the listener is never blocked at its send, whether or not Serve has returned:
  -- in every reachable state in which it is about to send, it can.
  pub Reach-sends :
      {s : Serving E} (e : E)
      → Reach is_closed s
      → s.listener ≡ sending e
      → Step is_closed s (record s { listener = sent; err_ch = some e })
  Reach-sends e r l = send e l (rw l at (Reach-Inv r).listener).0

  -- When Serve returns without its context being done, it returns an error of ListenAndServe, which
  -- is not ErrServerClosed; so it returns nil only after the context is done.
  pub Reach-returned :
      {s : Serving E} (r : Option E)
      → Reach is_closed s
      → s.caller ≡ returned r
      → (s.ctx_done ≡ true) ⊎ ((e : E) × (is_closed e ≡ false) × (r ≡ some e))
  Reach-returned r reach c = rw c at (Reach-Inv reach).cause

  abbrev pub HasReturned : Caller E → Type 0
  HasReturned (returned r) = Unit {0}
  HasReturned _ = ⊥

  returns_from :
      (s : Serving E) (r : Option E) (c : Caller E)
      → s.caller ≡ c
      → s.ctx_done ≡ true
      → ¬ HasReturned c
      → (t : Serving E) × Steps is_closed s t × (t.caller ≡ returned r)
  returns_from s r selecting c d n =
      (_, next (select_done c d) (next (shutdown_returns r refl) done), refl)
  returns_from s r shutting_down c d n = (_, next (shutdown_returns r c) done, refl)
  returns_from s r (returned x) c d n = absurd (n tt)

  -- Once the context is done and Serve has not returned, it can: for whatever Shutdown answers,
  -- steps of the caller alone lead to a state in which Serve has returned that.
  pub Steps-returned :
      (s : Serving E) (r : Option E)
      → s.ctx_done ≡ true
      → ¬ HasReturned s.caller
      → (t : Serving E) × Steps is_closed s t × (t.caller ≡ returned r)
  Steps-returned s r d n = returns_from s r s.caller refl d n
