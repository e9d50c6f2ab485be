-- ===== src/Dedupe/Refines.antt =====
-- The specification of the dedupe: no map and no clean-up, but the whole history of actions. A
-- fingerprint may be acted on when no action of the history on it lies inside the cooldown.
use reliability_lab.Common.{
  texts, ◌+◌, ◌≤◌, ◌≡◌, refl, ap, ◌&&◌, ◌||◌, not, Bool, true, false, Bool-cases, inl, inr, ◌⊎◌,
  String, List, [], ◌∷◌, Option, none, some, All, arith, ltb, str_eq, if◌then◌else◌,
}
use reliability_lab.Common.Int.{ℤ, pos_part}
use reliability_lab.Common.Dict.{Dict, lookup, insert, lookup-insert}
use reliability_lab.Dedupe.Clock.{Time, IsCooldown, sub_time-lt}
use reliability_lab.Dedupe.{Dedupe, new_dedupe, gc, inside, acquire}
use reliability_lab.Dedupe.Window.{Distinct, keep, lookup-gc, gc-Distinct, insert-Distinct}

-- A call of Acquire: the fingerprint and the time.
abbrev pub Call : Type 0
Call = String × Time

-- Some action on the fingerprint lies inside the cooldown at `now`.
unfoldable pub recent : ℤ → Time → String → List Call → Bool
recent c now fp [] = false
recent c now fp ((j, t) ∷ h) = (str_eq j fp && ltb now (t + pos_part c)) || recent c now fp h

-- The history records the actions that can be told apart.
abbrev pub record_action : String → Time → List Call → List Call
record_action fp now h = if str_eq fp "" then h else (fp, now) ∷ h

abbrev pub allowed : ℤ → List Call → Call → Bool
allowed c h (fp, now) = str_eq fp "" || not (recent c now fp h)

unfoldable pub spec_answers : ℤ → List Call → List Call → List Bool
spec_answers c h [] = []
spec_answers c h ((fp, now) ∷ calls) =
    let ok = allowed c h (fp, now) in
    ok ∷ spec_answers c (if ok then record_action fp now h else h) calls

unfoldable pub answers : Dedupe → List Call → List Bool
answers d [] = []
answers d ((fp, now) ∷ calls) = let (d', ok) = acquire d fp now in ok ∷ answers d' calls

-- The calls come in the order of time, none before `from`.
abbrev pub InOrder : Time → List Call → Type 0
InOrder from [] = Unit {0}
InOrder from ((fp, now) ∷ calls) = (from ≤ now) × InOrder now calls

recent_mono :
    (c : ℤ) (now later : Time) (fp : String) (h : List Call)
    → now ≤ later
    → recent c now fp h ≡ false
    → recent c later fp h ≡ false
unfolding recent
recent_mono c now later fp [] le e = refl
recent_mono c now later fp ((j, t) ∷ h) le e = ground (arith, recent_mono c now later fp h le)

-- From `from` on, the map and the history agree on every fingerprint.
abbrev Agrees : ℤ → Time → Dict Time → List Call → Type 0
Agrees c from m h =
    (fp : String) (now : Time) → from ≤ now → inside c now (lookup fp m) ≡ recent c now fp h

inside-keep :
    (c : ℤ) (hc : IsCooldown c) (now later : Time) (o : Option Time)
    → now ≤ later
    → inside c later (keep c now o) ≡ inside c later o
unfolding inside
inside-keep c hc now later none le = refl
inside-keep c hc now later (some t) le = ground (arith, sub_time-lt later t c hc)

granted-Agrees :
    (c : ℤ) (hc : IsCooldown c) (now : Time) (fp : String) (m : Dict Time) (h : List Call)
    → Distinct m
    → Agrees c now m h
    → recent c now fp h ≡ false
    → Agrees c now (gc c now (insert fp now m)) ((fp, now) ∷ h)
unfolding recent inside
granted-Agrees c hc now fp m h hd ag out fp' later le =
    rw
      (
        lookup-gc c hc now fp' (insert fp now m) (insert-Distinct fp now m hd),
        inside-keep c hc now later (lookup fp' (insert fp now m)) le,
        lookup-insert fp fp' now m,
      )
      (grind
        (texts, sub_time-lt later now c hc, recent_mono c now later fp h le out, ag fp' later le))

later-Agrees :
    (c : ℤ) (from now : Time) (m : Dict Time) (h : List Call)
    → from ≤ now
    → Agrees c from m h
    → Agrees c now m h
later-Agrees c from now m h le ag fp later h' = ag fp later (omega arith)

abbrev at : ℤ → Dict Time → Dedupe
at c m = record { cooldown = c; seen = m }

answers-Agrees :
    (c : ℤ) (hc : IsCooldown c) (from : Time) (m : Dict Time) (h calls : List Call)
    → InOrder from calls
    → Distinct m
    → Agrees c from m h
    → answers (at c m) calls ≡ spec_answers c h calls
unfolding answers spec_answers acquire
answers-Agrees c hc from m h [] io hd ag = refl
answers-Agrees c hc from m h ((fp, now) ∷ calls) (le, io) hd ag = elim (Bool-cases (str_eq fp "")) [
  | inl e ↦ rw e (ap (◌∷◌ true) (answers-Agrees c hc now m h calls io hd later))
  | inr e ↦ elim (Bool-cases (recent c now fp h)) [
    | inl r ↦
        rw (e, ag fp now le, r) (ap (◌∷◌ false) (answers-Agrees c hc now m h calls io hd later))
    | inr r ↦
        rw (e, ag fp now le, r)
          (ap (◌∷◌ true) (
            answers-Agrees c hc now (gc c now (insert fp now m)) ((fp, now) ∷ h) calls io
              (gc-Distinct c hc now _ (insert-Distinct fp now m hd))
              (granted-Agrees c hc now fp m h hd later r)))
  ]
]
  where
    later : Agrees c now m h
    later = later-Agrees c from now m h le ag

-- For a positive cooldown and any calls in the order of time, a fresh Dedupe answers every call as
-- the history of actions does: the clean-up of the map never shows.
pub answers-eq-spec_answers :
    (c : ℤ) (calls : List Call)
    → IsCooldown c
    → InOrder 0 calls
    → answers (new_dedupe c) calls ≡ spec_answers c [] calls
unfolding new_dedupe
answers-eq-spec_answers c calls hc io =
    answers-Agrees c hc 0 [] [] calls io tt (λ fp now le. unfold lookup inside recent in refl)

-- The actions that the answers allow, latest first.
unfoldable pub actions : Dedupe → List Call → List Call → List Call
actions d h [] = h
actions d h ((fp, now) ∷ calls) =
    let (d', ok) = acquire d fp now in actions d' (if ok then record_action fp now h else h) calls

-- An action at `now` on the fingerprint comes at least the cooldown after each of the history on it.
abbrev pub Apart : ℤ → Time → String → List Call → Type 0
Apart c now fp h = All (λ e. (str_eq e.0 fp ≡ false) ⊎ (e.1 + pos_part c ≤ now)) h

-- Any two actions on one fingerprint lie a cooldown apart.
abbrev pub Spaced : ℤ → List Call → Type 0
Spaced c [] = Unit {0}
Spaced c ((fp, now) ∷ h) = Apart c now fp h × Spaced c h

recent-Apart :
    (c : ℤ) (now : Time) (fp : String) (h : List Call)
    → recent c now fp h ≡ false
    → Apart c now fp h
unfolding recent
recent-Apart c now fp [] r = tt
recent-Apart c now fp ((j, t) ∷ h) r = (ground arith, recent-Apart c now fp h (ground arith))

actions-Spaced_from :
    (c : ℤ) (hc : IsCooldown c) (from : Time) (m : Dict Time) (h calls : List Call)
    → InOrder from calls
    → Distinct m
    → Agrees c from m h
    → Spaced c h
    → Spaced c (actions (at c m) h calls)
unfolding actions acquire
actions-Spaced_from c hc from m h [] io hd ag sp = sp
actions-Spaced_from c hc from m h ((fp, now) ∷ calls) (le, io) hd ag sp =
    elim (Bool-cases (str_eq fp "")) [
      | inl e ↦ rw e (actions-Spaced_from c hc now m h calls io hd later sp)
      | inr e ↦ elim (Bool-cases (recent c now fp h)) [
        | inl r ↦ rw (e, ag fp now le, r) (actions-Spaced_from c hc now m h calls io hd later sp)
        | inr r ↦
            rw (e, ag fp now le, r)
              (actions-Spaced_from c hc now (gc c now (insert fp now m)) ((fp, now) ∷ h) calls io
                (gc-Distinct c hc now _ (insert-Distinct fp now m hd))
                (granted-Agrees c hc now fp m h hd later r) (recent-Apart c now fp h r, sp))
      ]
    ]
  where
    later : Agrees c now m h
    later = later-Agrees c from now m h le ag

-- For a positive cooldown and any calls in the order of time, two actions that a fresh Dedupe
-- allows on one fingerprint, where that is not empty, lie at least the cooldown apart.
pub actions-Spaced :
    (c : ℤ) (calls : List Call)
    → IsCooldown c
    → InOrder 0 calls
    → Spaced c (actions (new_dedupe c) [] calls)
unfolding new_dedupe
actions-Spaced c calls hc io =
    actions-Spaced_from c hc 0 [] [] calls io tt (λ fp now le. unfold lookup inside recent in refl)
      tt
