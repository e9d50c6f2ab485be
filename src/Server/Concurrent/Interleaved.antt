-- ===== src/Server/Concurrent/Interleaved.antt =====
-- Any number of webhooks at once: the steps of their handlers in any order, over one clock, one
-- dedupe and one cluster.
use reliability_lab.Common.{
  ℕ, ◌+◌, ◌≤◌, ◌≡◌, sym, subst, inl, inr, Bool-cases, List, [], ◌∷◌, Bool, true, false, arith,
  update, update-all, if◌then◌else◌,
}
use reliability_lab.Common.Int.{ℤ, pos_part}
use reliability_lab.Dedupe.Clock.{Time, IsCooldown}
use reliability_lab.Dedupe.{Dedupe, new_dedupe, acquire}
use reliability_lab.Dedupe.Refines.{Call, record_action}
use reliability_lab.Dedupe.Skew.{
  later_of, SpacedBut, IsHistory, IsHistory-later, acquire-IsHistory, new_dedupe-IsHistory,
}
use reliability_lab.Server.Payload.{Alert, AlertManagerPayload, is_firing}
use reliability_lab.Server.{Config}
use reliability_lab.Server.Accepted.{accepts, dedupe_after}
use reliability_lab.Server.Concurrent.{
  Handler, idle, reading, looping, dispatching, answered, turned, turn_lem, advance,
}

-- The handlers by their number, and the granted calls for a fingerprint, latest first.
pub record Webhooks (W : Type 0) : Type 0 where
  pub clock : Time
  pub dedupe : Dedupe
  pub cluster : W
  pub handlers : ℕ → Handler
  pub acted : List Call

-- The granted call that the next step of a handler makes.
abbrev pub acted_by : Handler → Dedupe → List Call → List Call
acted_by (looping now (a ∷ alerts)) d acted =
    if accepts now a d then record_action a.fingerprint now acted else acted
acted_by _ d acted = acted

-- The handler takes the mutex at most `k` after its reading of the clock.
abbrev pub IsTimely : ℕ → Time → Handler → Type 0
IsTimely k clock (looping now alerts) = clock ≤ now + k
IsTimely k clock _ = Unit {0}

module _ {W E : Type 0} (cfg : Config W E) (k : ℕ) where
  abbrev pub moved : Webhooks W → ℕ → Webhooks W
  moved s i =
      let (h, d, w) = advance cfg s.clock (s.handlers i) s.dedupe s.cluster in
      record s {
        dedupe = d;
        cluster = w;
        handlers = update s.handlers i h;
        acted = acted_by (s.handlers i) s.dedupe s.acted;
      }

  pub data Step (s : Webhooks W) : Webhooks W → Type 0 where
    tick : (t : Time) → s.clock ≤ t → Step s (record s { clock = t })
    arrive :
        (i : ℕ) (p : AlertManagerPayload)
        → s.handlers i ≡ idle
        → Step s (record s { handlers = update s.handlers i (reading p) })
    move : (i : ℕ) → IsTimely k s.clock (s.handlers i) → Step s (moved s i)

  -- From a fresh dedupe and no request.
  pub data Reach (c : ℤ) : Webhooks W → Type 0 where
    start :
        (clock : Time) (w : W)
        → Reach c (record {
          clock = clock;
          dedupe = new_dedupe c;
          cluster = w;
          handlers = λ i. idle;
          acted = [];
        })
    later : {s t : Webhooks W} → Reach c s → Step s t → Reach c t

  -- The steps from one state to another.
  pub data Steps : Webhooks W → Webhooks W → Type 0 where
    done : {s : Webhooks W} → Steps s s
    next : {s t u : Webhooks W} → Step s t → Steps t u → Steps s u

-- The handler has read the clock before now.
abbrev pub IsPast : Time → Handler → Type 0
IsPast clock (looping now alerts) = now ≤ clock
IsPast clock (dispatching now a alerts) = now ≤ clock
IsPast clock _ = Unit {0}

IsPast-later : (clock t : Time) (h : Handler) → clock ≤ t → IsPast clock h → IsPast t h
IsPast-later clock t idle le p = tt
IsPast-later clock t (reading q) le p = tt
IsPast-later clock t (looping now alerts) le p = omega arith
IsPast-later clock t (dispatching now a alerts) le p = omega arith
IsPast-later clock t (answered r) le p = tt

turned-IsPast :
    (clock now : Time) (a : Alert) (alerts : List Alert) (b : Bool)
    → now ≤ clock
    → IsPast clock (turned now a alerts b)
turned-IsPast clock now a alerts true p = p
turned-IsPast clock now a alerts false p = p

module _ {W E : Type 0} (cfg : Config W E) (clock : Time) (d : Dedupe) (w : W) where
  advance-IsPast : (h : Handler) → IsPast clock h → IsPast clock (advance cfg clock h d w).0
  unfolding advance
  advance-IsPast idle p = tt
  advance-IsPast (reading q) p = omega arith
  advance-IsPast (looping now []) p = tt
  advance-IsPast (looping now (a ∷ alerts)) p =
      subst (λ r. IsPast clock r.0) (sym (turn_lem now a alerts d))
        (turned-IsPast clock now a alerts (accepts now a d) p)
  advance-IsPast (dispatching now a alerts) p = p
  advance-IsPast (answered r) p = tt

  module _ (k : ℕ) (c : ℤ) (hc : IsCooldown c) (small : k ≤ pos_part c) (acted : List Call)
      (g : IsHistory k c clock d acted) where
    accepted-IsHistory :
        (now : Time) (a : Alert)
        → now ≤ clock
        → clock ≤ now + k
        → IsHistory k c clock
            (dedupe_after now a d)
            (if accepts now a d then record_action a.fingerprint now acted else acted)
    accepted-IsHistory now a past timely = elim (Bool-cases (is_firing a)) [
      | inl e ↦ rw e (
          subst
            (λ l. IsHistory k c l (acquire d a.fingerprint now).0 (
              if (acquire d a.fingerprint now).1
              then record_action a.fingerprint now acted
              else acted))
            latest (acquire-IsHistory k c hc small clock now a.fingerprint d acted timely g))
      | inr e ↦ rw e g
    ]
      where
        latest : later_of clock now ≡ clock
        latest = ground arith

    advance-IsHistory :
        (h : Handler)
        → IsPast clock h
        → IsTimely k clock h
        → IsHistory k c clock (advance cfg clock h d w).1 (acted_by h d acted)
    unfolding advance
    advance-IsHistory idle p t = g
    advance-IsHistory (reading q) p t = g
    advance-IsHistory (looping now []) p t = g
    advance-IsHistory (looping now (a ∷ alerts)) p t =
        subst
          (λ r.
            IsHistory k c clock r.1
              (if accepts now a d then record_action a.fingerprint now acted else acted))
          (sym (turn_lem now a alerts d)) (accepted-IsHistory now a p t)
    advance-IsHistory (dispatching now a alerts) p t = g
    advance-IsHistory (answered r) p t = g

-- What holds in every reachable state.
pub record Inv {W : Type 0} (k : ℕ) (c : ℤ) (s : Webhooks W) : Type 0 where
  pub history : IsHistory k c s.clock s.dedupe s.acted
  pub past : (i : ℕ) → IsPast s.clock (s.handlers i)

module _ {W E : Type 0} (cfg : Config W E) (k : ℕ) (c : ℤ) (hc : IsCooldown c)
    (small : k ≤ pos_part c) where
  Step-Inv : {s t : Webhooks W} → Step cfg k s t → Inv k c s → Inv k c t
  Step-Inv {s} (tick t le) inv = record {
    history =
        subst (λ l. IsHistory k c l s.dedupe s.acted) (ground arith)
          (IsHistory-later k c hc small s.clock t s.dedupe s.acted (omega arith) inv.history);
    past = λ i. IsPast-later s.clock t (s.handlers i) le (inv.past i);
  }
  Step-Inv {s} (arrive i p free) inv = record {
    history = inv.history;
    past = update-all (IsPast s.clock) s.handlers i (reading p) inv.past tt;
  }
  Step-Inv {s} (move i timely) inv = record {
    history =
        advance-IsHistory cfg s.clock s.dedupe s.cluster k c hc small s.acted inv.history
          (s.handlers i) (inv.past i) timely;
    past =
        update-all (IsPast s.clock) s.handlers i _ inv.past
          (advance-IsPast cfg s.clock s.dedupe s.cluster (s.handlers i) (inv.past i));
  }

  pub Reach-Inv : {s : Webhooks W} → Reach cfg k c s → Inv k c s
  Reach-Inv (start clock w) = record { history = new_dedupe-IsHistory k c clock; past = λ i. tt }
  Reach-Inv (later r st) = Step-Inv st (Reach-Inv r)

  -- However the handlers of any webhooks interleave, as long as each takes the mutex at most `k`
  -- after its reading of the clock, and `k` is at most the positive cooldown: any two alerts that
  -- Acquire has granted for one fingerprint that is not empty were stamped with times that lie at
  -- least the cooldown less `k` apart.
  pub Reach-SpacedBut : {s : Webhooks W} → Reach cfg k c s → SpacedBut k c s.acted
  Reach-SpacedBut r = (Reach-Inv r).history.spaced
