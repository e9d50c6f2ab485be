-- ===== src/System/Calls/Preserves.antt =====
-- Invariants of the operator's calls: one of the cluster, and one of what a handler holds, which
-- the calls of the other handlers keep.
use reliability_lab.Common.{ℕ, ◌≡◌, refl, List, [], ◌∷◌, update-all}
use reliability_lab.Classifier.{Kind, classify}
use reliability_lab.Dedupe.Clock.{Time}
use reliability_lab.Dedupe.{Dedupe}
use reliability_lab.Remedy.Cluster.{Client}
use reliability_lab.Server.Payload.{Alert}
use reliability_lab.Server.Concurrent
use reliability_lab.Server.Concurrent.{idle, reading, looping, dispatching, answered, advance, turn}
use reliability_lab.Manager.{Flags}
use reliability_lab.System.Calls.{
  Handler, serving, scaling, braking, Calls, begin, finish, step, moved, Step, tick, arrive, move,
  Steps, done, next, started,
}

module _ {W E : Type 0} (client : Client W E) (flags : Flags) (Inv : W → Type 0)
    (Sound : W → Handler E → Type 0) where
  -- A change of the cluster by a handler that is left as `h`.
  abbrev pub Changes : W → Handler E → W → Type 0
  Changes w h v = Inv v × Sound v h × ((g : Handler E) → Sound w g → Sound v g)

  pub record Preserved : Type 0 where
    pub serves : (w : W) (h : Concurrent.Handler) → Sound w (serving h)
    pub begins :
        (k : Kind) (now : Time) (a : Alert) (rest : List Alert) (w : W)
        → (classify a.labels).kind ≡ k
        → Inv w
        → let (h, v) = begin client flags k now a rest w in Changes w h v
    pub finishes :
        (h : Handler E) (w : W)
        → Sound w h
        → Inv w
        → let (h', v) = finish client flags h w in Changes w h' v

  module _ (p : Preserved) where
    unchanged : (h : Concurrent.Handler) (w : W) → Inv w → Changes w (serving h) w
    unchanged h w i = (i, p.serves w h, (λ g s. s))

    step-Changes :
        (clock : Time) (h : Handler E) (d : Dedupe) (w : W)
        → Sound w h
        → Inv w
        → let (h', d', v) = step client flags clock h d w in Changes w h' v
    unfolding step advance
    step-Changes clock (serving idle) d w s i = unchanged idle w i
    step-Changes clock (serving (reading q)) d w s i = unchanged _ w i
    step-Changes clock (serving (looping now [])) d w s i = unchanged _ w i
    step-Changes clock (serving (looping now (a ∷ alerts))) d w s i = unchanged _ w i
    step-Changes clock (serving (dispatching now a rest)) d w s i =
        p.begins (classify a.labels).kind now a rest w refl i
    step-Changes clock (serving (answered r)) d w s i = unchanged _ w i
    step-Changes clock (scaling now rest key r) d w s i = p.finishes (scaling now rest key r) w s i
    step-Changes clock (braking now rest key r) d w s i = p.finishes (braking now rest key r) w s i

    abbrev pub Kept : Calls W E → Type 0
    Kept s = Inv s.cluster × ((i : ℕ) → Sound s.cluster (s.handlers i))

    pub moved-Kept : (s : Calls W E) (i : ℕ) → Kept s → Kept (moved client flags s i)
    moved-Kept s i (inv, all) =
        let (inv', new, keeps) =
          step-Changes s.clock (s.handlers i) s.dedupe s.cluster (all i) inv in
        (inv', update-all (Sound _) s.handlers i _ (λ j. keeps (s.handlers j) (all j)) new)

    Step-Kept : {s t : Calls W E} → Step client flags s t → Kept s → Kept t
    Step-Kept (tick t le) kept = kept
    Step-Kept {s} (arrive i q free) (inv, all) =
        (inv, update-all (Sound s.cluster) s.handlers i (serving (reading q)) all (p.serves _ _))
    Step-Kept {s} (move i) kept = moved-Kept s i kept

    pub Steps-Kept : {s t : Calls W E} → Steps client flags s t → Kept s → Kept t
    Steps-Kept done kept = kept
    Steps-Kept (next st run) kept = Steps-Kept run (Step-Kept st kept)

    pub started-Kept : (clock : Time) (d : Dedupe) (w : W) → Inv w → Kept (started clock d w)
    started-Kept clock d w inv = (inv, (λ i. p.serves w idle))
