-- ===== src/Dedupe/Window.antt =====
-- What the map of a Dedupe holds after a call, and what the clean-up leaves of it.
use reliability_lab.Common.{
  ◌+◌, ◌<◌, ◌≡◌, refl, true, false, String, [], ◌∷◌, Option, none, some, All, arith, texts, leb,
  str_eq, if◌then◌else◌,
}
use reliability_lab.Common.Int.{ℤ, pos_part}
use reliability_lab.Common.Dict.{Dict, lookup, insert, lookup-insert, lookup-insert_self}
use reliability_lab.Dedupe.Clock.{Time, IsCooldown, sub_time-ge}
use reliability_lab.Dedupe.{Dedupe, gc, inside, acquire}

abbrev pub Distinct : Dict Time → Type 0
Distinct [] = Unit {0}
Distinct ((k, t) ∷ m) = (lookup k m ≡ none) × Distinct m

-- What gc leaves of an entry.
abbrev pub keep : ℤ → Time → Option Time → Option Time
keep c now none = none
keep c now (some t) = if leb (t + pos_part c) now then none else some t

pub insert-Distinct : (k : String) (t : Time) (m : Dict Time) → Distinct m → Distinct (insert k t m)
unfolding insert lookup
insert-Distinct k t [] h = (refl, tt)
insert-Distinct k t ((j, u) ∷ m) h = grind (texts, lookup-insert k j t m, insert-Distinct k t m h.1)

module _ (c : ℤ) (hc : IsCooldown c) (now : Time) where
  gc-lookup-none : (k : String) (m : Dict Time) → lookup k m ≡ none → lookup k (gc c now m) ≡ none
  unfolding gc lookup
  gc-lookup-none k [] h = refl
  gc-lookup-none k ((j, t) ∷ m) h = ground (arith, gc-lookup-none k m)

  pub gc-Distinct : (m : Dict Time) → Distinct m → Distinct (gc c now m)
  unfolding gc
  gc-Distinct [] h = tt
  gc-Distinct ((j, t) ∷ m) h = ground (arith, gc-lookup-none j m h.0, gc-Distinct m h.1)

  pub lookup-gc :
      (k : String) (m : Dict Time) → Distinct m → lookup k (gc c now m) ≡ keep c now (lookup k m)
  unfolding gc lookup
  lookup-gc k [] h = refl
  lookup-gc k ((j, t) ∷ m) h =
      grind (texts, sub_time-ge now t c hc, gc-lookup-none j m h.0, lookup-gc k m h.1)

  gc_fresh : (m : Dict Time) → All (λ e. now < e.1 + pos_part c) (gc c now m)
  unfolding gc
  gc_fresh [] = tt
  gc_fresh ((j, t) ∷ m) = ground (arith, sub_time-ge now t c hc, gc_fresh m)

-- A granted call for a fingerprint: what was tested, and what is left.
pub acquire_granted :
    (d : Dedupe) (fp : String) (now : Time)
    → str_eq fp "" ≡ false
    → (acquire d fp now).1 ≡ true
    → (inside d.cooldown now (lookup fp d.seen) ≡ false)
      × ((acquire d fp now).0 ≡ record d { seen = gc d.cooldown now (insert fp now d.seen) })
unfolding acquire
acquire_granted d fp now ne ok = ground arith

-- For a positive cooldown and a map with one entry to a fingerprint: after an Acquire that is
-- granted for a fingerprint that is not empty, the map holds only fingerprints whose last action
-- lies inside the cooldown, and the fingerprint itself with the present time.
pub acquire_bounded :
    (d : Dedupe) (fp : String) (now : Time)
    → IsCooldown d.cooldown
    → Distinct d.seen
    → str_eq fp "" ≡ false
    → (acquire d fp now).1 ≡ true
    → All (λ e. now < e.1 + pos_part d.cooldown) (acquire d fp now).0.seen
      × (lookup fp (acquire d fp now).0.seen ≡ some now)
acquire_bounded d fp now hc hd ne ok = rw (acquire_granted d fp now ne ok).1 (
  gc_fresh d.cooldown hc now (insert fp now d.seen),
  ground (
    arith,
    hc,
    lookup-gc d.cooldown hc now fp (insert fp now d.seen) (insert-Distinct fp now d.seen hd),
    lookup-insert_self fp now d.seen,
  ),
)

-- Every call keeps one entry to a fingerprint.
pub acquire-Distinct :
    (d : Dedupe) (fp : String) (now : Time)
    → IsCooldown d.cooldown
    → Distinct d.seen
    → Distinct (acquire d fp now).0.seen
unfolding acquire
acquire-Distinct d fp now hc hd =
    ground (
      arith,
      gc-Distinct d.cooldown hc now (insert fp now d.seen) (insert-Distinct fp now d.seen hd),
    )
