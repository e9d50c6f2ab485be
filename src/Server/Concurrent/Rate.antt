-- ===== src/Server/Concurrent/Rate.antt =====
-- How many alerts of one fingerprint interleaved webhooks may take to the dispatch in a window.
use reliability_lab.Common.{
  ℕ, suc, ◌+◌, ◌-◌, ◌*◌, ◌≤◌, ◌≡◌, subst, ◌⊎◌, inl, inr, Bool-cases, true, false, ◌&&◌, leb, String,
  List, [], ◌∷◌, All, arith, str_eq, eq_iff, if◌then◌else◌,
}
use native.Mathlib.Nat.{suc-mul}
use reliability_lab.Common.Int.{ℤ, pos_part}
use reliability_lab.Dedupe.Clock.{Time, IsCooldown}
use reliability_lab.Dedupe.{Dedupe}
use reliability_lab.Dedupe.Refines.{Call, record_action}
use reliability_lab.Dedupe.Skew.{ApartBut, SpacedBut}
use reliability_lab.Server.{Config}
use reliability_lab.Server.Accepted.{accepts}
use reliability_lab.Server.Concurrent.{Handler, idle, reading, looping, dispatching, answered}
use reliability_lab.Server.Concurrent.Interleaved.{
  Webhooks, acted_by, IsPast, tick, arrive, move, Reach, start, later, Reach-Inv,
}

-- The actions on a fingerprint that were stamped from a time on.
abbrev pub acted_since : Time → String → List Call → ℕ
acted_since from fp [] = 0
acted_since from fp ((g, t) ∷ h) =
    if str_eq g fp && leb from t then suc (acted_since from fp h) else acted_since from fp h

window : (n gap from t top : ℕ) → n ≤ t - from → from ≤ t → t + gap ≤ top → n + gap ≤ top - from
window n gap from t top rest low high = omega arith

module _ (gap : ℕ) (fp : String) where
  abbrev Below : Time → List Call → Type 0
  Below top h = All (λ e. (str_eq e.0 fp ≡ false) ⊎ (e.1 + gap ≤ top)) h

  abbrev Spaced : List Call → Type 0
  Spaced [] = Unit {0}
  Spaced ((g, t) ∷ h) = (str_eq g fp ≡ true → Below t h) × Spaced h

  Spaced-bound :
      (from top : Time) (h : List Call)
      → Spaced h
      → Below top h
      → acted_since from fp h * gap ≤ top - from
  Spaced-bound from top [] s b = omega arith
  Spaced-bound from top ((g, t) ∷ h) (apart, s) (x, b) =
      elim (Bool-cases (str_eq g fp && leb from t)) [
        | inl e ↦
            let own : str_eq g fp ≡ true = ground (arith, e) in
            let rest : acted_since from fp h * gap ≤ t - from =
              Spaced-bound from t h s (apart own) in
            let low : from ≤ t = ground (arith, e) in
            let high : t + gap ≤ top = ground (arith, own) in
            rw (e, suc-mul (acted_since from fp h) gap)
              (window (acted_since from fp h * gap) gap from t top rest low high)
        | inr e ↦ rw e (Spaced-bound from top h s b)
      ]

-- The gap of SpacedBut.
module _ (k : ℕ) (c : ℤ) (small : k ≤ pos_part c) (fp : String) where
  ApartBut-Below : (t : Time) (h : List Call) → ApartBut k c t fp h → Below (pos_part c - k) fp t h
  ApartBut-Below t [] a = tt
  ApartBut-Below t (e ∷ h) (x, a) = (ground arith, ApartBut-Below t h a)

  SpacedBut-Spaced : (h : List Call) → SpacedBut k c h → Spaced (pos_part c - k) fp h
  SpacedBut-Spaced [] s = tt
  SpacedBut-Spaced ((g, t) ∷ h) (a, s) = (
    (λ own.
        let same : g ≡ fp = (eq_iff g fp).0 own in
        ApartBut-Below t h (subst (λ f. ApartBut k c t f h) same a)),
    SpacedBut-Spaced h s,
  )

-- Every action was stamped no later than now.
abbrev Stamped : Time → List Call → Type 0
Stamped clock h = All (λ e. e.1 ≤ clock) h

Stamped-later : (s t : Time) (h : List Call) → s ≤ t → Stamped s h → Stamped t h
Stamped-later s t [] le a = tt
Stamped-later s t (e ∷ h) le (x, a) = (omega arith, Stamped-later s t h le a)

Stamped-Below :
    (gap clock : ℕ) (fp : String) (h : List Call) → Stamped clock h → Below gap fp (clock + gap) h
Stamped-Below gap clock fp [] a = tt
Stamped-Below gap clock fp (e ∷ h) (x, a) = (inr (omega arith), Stamped-Below gap clock fp h a)

record_action-Stamped :
    (clock : Time) (fp : String) (now : Time) (h : List Call)
    → now ≤ clock
    → Stamped clock h
    → Stamped clock (record_action fp now h)
record_action-Stamped clock fp now h p a = elim (Bool-cases (str_eq fp "")) [
  | inl e ↦ rw e a
  | inr e ↦ rw e (p, a)
]

acted_by-Stamped :
    (clock : Time) (h : Handler) (d : Dedupe) (acted : List Call)
    → IsPast clock h
    → Stamped clock acted
    → Stamped clock (acted_by h d acted)
acted_by-Stamped clock idle d acted p a = a
acted_by-Stamped clock (reading q) d acted p a = a
acted_by-Stamped clock (looping now []) d acted p a = a
acted_by-Stamped clock (looping now (x ∷ alerts)) d acted p a =
    elim (Bool-cases (accepts now x d)) [
      | inl e ↦ rw e (record_action-Stamped clock x.fingerprint now acted p a)
      | inr e ↦ rw e a
    ]
acted_by-Stamped clock (dispatching now x alerts) d acted p a = a
acted_by-Stamped clock (answered r) d acted p a = a

module _ {W E : Type 0} (cfg : Config W E) (k : ℕ) (c : ℤ) (hc : IsCooldown c)
    (small : k ≤ pos_part c) where
  Reach-Stamped : {s : Webhooks W} → Reach cfg k c s → Stamped s.clock s.acted
  Reach-Stamped (start clock w) = tt
  Reach-Stamped (later {s} r (tick t le)) = Stamped-later s.clock t s.acted le (Reach-Stamped r)
  Reach-Stamped (later r (arrive i p e)) = Reach-Stamped r
  Reach-Stamped (later {s} r (move i timely)) =
      acted_by-Stamped s.clock (s.handlers i) s.dedupe s.acted
        ((Reach-Inv cfg k c hc small r).past i) (Reach-Stamped r)

  -- However the handlers of any webhooks interleave, as long as each takes the mutex at most `k`
  -- after its reading of the clock, and `k` is at most the positive cooldown: the alerts of one
  -- fingerprint, if it is not empty, that were granted with a stamp at `from` or later, each counted
  -- as the cooldown less `k`, fit into the time from `from` until now and one cooldown less `k` more.
  pub Reach-rate :
      {s : Webhooks W} (from : Time) (fp : String)
      → Reach cfg k c s
      → acted_since from fp s.acted * (pos_part c - k) ≤ s.clock + (pos_part c - k) - from
  Reach-rate {s} from fp r =
      let gap = pos_part c - k in
      Spaced-bound gap fp from (s.clock + gap) s.acted
        (SpacedBut-Spaced k c small fp s.acted (Reach-Inv cfg k c hc small r).history.spaced)
        (Stamped-Below gap s.clock fp s.acted (Reach-Stamped r))
