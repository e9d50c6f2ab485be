-- ===== src/Dedupe/Skew.antt =====
-- Webhooks are handled at once, and a handler reads the clock before its calls of Acquire take the
-- mutex: the calls come in an order in which their times may go back by the handlers' delay.
use reliability_lab.Common.{
  ℕ, ◌+◌, ◌≤◌, ◌≡◌, refl, sym, subst, ◌⊎◌, inl, inr, Bool-cases, true, false, String, List, [], ◌∷◌,
  Option, none, some, All, arith, ltb, str_eq, eq_iff, if◌then◌else◌,
}
use reliability_lab.Common.Int.{ℤ, pos_part}
use reliability_lab.Common.Dict.{Dict, lookup, insert, lookup-insert, lookup-insert_self}
use reliability_lab.Dedupe.Clock.{Time, IsCooldown, sub_time-lt}
use reliability_lab.Dedupe.{Dedupe, new_dedupe, gc, inside, acquire}
use reliability_lab.Dedupe.Window.{Distinct, keep, lookup-gc, gc-Distinct, insert-Distinct}
use reliability_lab.Dedupe.Refines.{Call, record_action, actions}

abbrev pub later_of : Time → Time → Time
later_of a b = if ltb a b then b else a

-- No call is more than `k` earlier than the latest before it.
abbrev pub Skewed : ℕ → Time → List Call → Type 0
Skewed k latest [] = Unit {0}
Skewed k latest ((fp, now) ∷ calls) = (latest ≤ now + k) × Skewed k (later_of latest now) calls

-- The actions on one fingerprint lie a cooldown apart, less `k`.
abbrev pub ApartBut : ℕ → ℤ → Time → String → List Call → Type 0
ApartBut k c now fp h = All (λ e. (str_eq e.0 fp ≡ false) ⊎ (e.1 + pos_part c ≤ now + k)) h

abbrev pub SpacedBut : ℕ → ℤ → List Call → Type 0
SpacedBut k c [] = Unit {0}
SpacedBut k c ((fp, now) ∷ h) = ApartBut k c now fp h × SpacedBut k c h

-- An action is covered by a stamp that is no earlier, or its cooldown has passed.
abbrev Covers : ℤ → Time → Call → Option Time → Type 0
Covers c latest (fp, t) none = t + pos_part c ≤ latest
Covers c latest (fp, t) (some u) = (t ≤ u) ⊎ (t + pos_part c ≤ latest)

abbrev Covered : ℤ → Time → Dict Time → List Call → Type 0
Covered c latest m h = All (λ e. Covers c latest e (lookup e.0 m)) h

module _ (k : ℕ) (c : ℤ) (hc : IsCooldown c) (small : k ≤ pos_part c) (latest now : Time)
    (le : latest ≤ now + k) where
  Covers-later :
      (e : Call) (o : Option Time) → Covers c latest e o → Covers c (later_of latest now) e o
  Covers-later e none h = ground arith
  Covers-later e (some u) h = ground arith

  Covered-later :
      (m : Dict Time) (h : List Call) → Covered c latest m h → Covered c (later_of latest now) m h
  Covered-later m [] co = tt
  Covered-later m (e ∷ h) (x, co) = (Covers-later e (lookup e.0 m) x, Covered-later m h co)

  Covers-apart :
      (t : Time) (fp : String) (o : Option Time)
      → inside c now o ≡ false
      → Covers c latest (fp, t) o
      → t + pos_part c ≤ now + k
  unfolding inside
  Covers-apart t fp none out co = omega arith
  Covers-apart t fp (some u) out co = ground (arith, sub_time-lt now u c hc)

  Covered-ApartBut :
      (fp : String) (m : Dict Time) (h : List Call)
      → inside c now (lookup fp m) ≡ false
      → Covered c latest m h
      → ApartBut k c now fp h
  Covered-ApartBut fp m [] out co = tt
  Covered-ApartBut fp m ((j, t) ∷ h) out (x, co) = (
    elim (Bool-cases (str_eq j fp)) [
      | inl e ↦
          let same : j ≡ fp = (eq_iff j fp).0 e in
          inr (Covers-apart t j (lookup j m) (rw same out) x)
      | inr e ↦ inl e
    ],
    Covered-ApartBut fp m h out co,
  )

  Covers-keep :
      (e : Call) (o : Option Time)
      → Covers c latest e o
      → Covers c (later_of latest now) e (keep c now o)
  Covers-keep (fp, t) none h = ground arith
  Covers-keep (fp, t) (some u) h = ground arith

  granted-Covered :
      (fp : String) (m : Dict Time) (h : List Call)
      → Distinct m
      → ApartBut k c now fp h
      → Covered c latest m h
      → Covered c (later_of latest now) (gc c now (insert fp now m)) h
  granted-Covered fp m [] d ap co = tt
  granted-Covered fp m ((j, t) ∷ h) d (a, ap) (x, co) = (
    rw
        (
          lookup-gc c hc now j (insert fp now m) (insert-Distinct fp now m d),
          lookup-insert fp j now m,
        )
        (elim (Bool-cases (str_eq fp j)) [
          | inl e ↦ rw e (stamped ((eq_iff fp j).0 e))
          | inr e ↦ rw e (Covers-keep (j, t) (lookup j m) x)
        ]),
    granted-Covered fp m h d ap co,
  )
    where
      stamped : fp ≡ j → Covers c (later_of latest now) (j, t) (keep c now (some now))
      stamped same = elim a [
        | inl other ↦
            let same' : str_eq j fp ≡ true = (eq_iff j fp).1 (sym same) in
            absurd (ground (arith, other, same'))
        | inr far ↦ ground (arith, hc)
      ]

-- What the calls have made of the dedupe: `acted` are the actions so far, the latest call at most
-- at `latest`.
pub record IsHistory (k : ℕ) (c : ℤ) (latest : Time) (d : Dedupe) (acted : List Call) : Type 0 where
  pub cooldown_fixed : d.cooldown ≡ c
  pub distinct : Distinct d.seen
  pub covered : Covered c latest d.seen acted
  pub spaced : SpacedBut k c acted

module _ (k : ℕ) (c : ℤ) (hc : IsCooldown c) (small : k ≤ pos_part c) where
  pub IsHistory-later :
      (latest now : Time) (d : Dedupe) (acted : List Call)
      → latest ≤ now + k
      → IsHistory k c latest d acted
      → IsHistory k c (later_of latest now) d acted
  IsHistory-later latest now d acted le g = record {
    cooldown_fixed = g.cooldown_fixed;
    distinct = g.distinct;
    covered = Covered-later k c hc small latest now le d.seen acted g.covered;
    spaced = g.spaced;
  }

  stamped-IsHistory :
      (latest now : Time) (fp : String) (d : Dedupe) (acted : List Call)
      → latest ≤ now + k
      → inside d.cooldown now (lookup fp d.seen) ≡ false
      → IsHistory k c latest d acted
      → IsHistory k c
          (later_of latest now)
          (record d { seen = gc d.cooldown now (insert fp now d.seen) })
          ((fp, now) ∷ acted)
  stamped-IsHistory latest now fp d acted le out g = record {
    cooldown_fixed = g.cooldown_fixed;
    distinct =
        rw g.cooldown_fixed (gc-Distinct c hc now _ (insert-Distinct fp now d.seen g.distinct));
    covered =
        subst
          (λ b.
            Covered c (later_of latest now) (gc b now (insert fp now d.seen)) ((fp, now) ∷ acted))
          (sym g.cooldown_fixed)
          (
            own,
            granted-Covered k c hc small latest now le fp d.seen acted g.distinct apart g.covered,
          );
    spaced = (apart, g.spaced);
  }
    where
      apart : ApartBut k c now fp acted
      apart =
          Covered-ApartBut k c hc small latest now le fp d.seen acted (rw g.cooldown_fixed at out)
            g.covered

      own : Covers c (later_of latest now) (fp, now) (lookup fp (gc c now (insert fp now d.seen)))
      own =
          rw
            (
              lookup-gc c hc now fp (insert fp now d.seen)
                  (insert-Distinct fp now d.seen g.distinct),
              lookup-insert_self fp now d.seen,
            )
            (ground (arith, hc))

  -- Every call keeps the history.
  pub acquire-IsHistory :
      (latest now : Time) (fp : String) (d : Dedupe) (acted : List Call)
      → latest ≤ now + k
      → IsHistory k c latest d acted
      → let (d', granted) = acquire d fp now in
        IsHistory k c
          (later_of latest now)
          d'
          (if granted then record_action fp now acted else acted)
  unfolding acquire
  acquire-IsHistory latest now fp d acted le g = elim (Bool-cases (str_eq fp "")) [
    | inl e ↦ rw e (IsHistory-later latest now d acted le g)
    | inr e ↦ elim (Bool-cases (inside d.cooldown now (lookup fp d.seen))) [
      | inl r ↦ rw (e, r) (IsHistory-later latest now d acted le g)
      | inr r ↦ rw (e, r) (stamped-IsHistory latest now fp d acted le r g)
    ]
  ]

  actions-SpacedBut_from :
      (latest : Time) (d : Dedupe) (acted calls : List Call)
      → Skewed k latest calls
      → IsHistory k c latest d acted
      → SpacedBut k c (actions d acted calls)
  unfolding actions
  actions-SpacedBut_from latest d acted [] sk g = g.spaced
  actions-SpacedBut_from latest d acted ((fp, now) ∷ calls) (le, sk) g =
      actions-SpacedBut_from (later_of latest now) (acquire d fp now).0
        (if (acquire d fp now).1 then record_action fp now acted else acted) calls sk
        (acquire-IsHistory latest now fp d acted le g)

-- A fresh dedupe has acted on nothing.
pub new_dedupe-IsHistory : (k : ℕ) (c : ℤ) (latest : Time) → IsHistory k c latest (new_dedupe c) []
unfolding new_dedupe
new_dedupe-IsHistory k c latest = record {
  cooldown_fixed = refl;
  distinct = tt;
  covered = tt;
  spaced = tt;
}

-- For a positive cooldown and calls of which none is more than `k` earlier than the latest before
-- it, with `k` at most the cooldown: two actions that a fresh Dedupe allows on one fingerprint that
-- is not empty lie at least the cooldown less `k` apart, whatever the order of the calls.
pub actions-SpacedBut :
    (k : ℕ) (c : ℤ) (calls : List Call)
    → IsCooldown c
    → k ≤ pos_part c
    → Skewed k 0 calls
    → SpacedBut k c (actions (new_dedupe c) [] calls)
actions-SpacedBut k c calls hc small sk =
    actions-SpacedBut_from k c hc small 0 (new_dedupe c) [] calls sk (new_dedupe-IsHistory k c 0)
