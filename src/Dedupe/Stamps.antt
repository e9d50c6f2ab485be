-- ===== src/Dedupe/Stamps.antt =====
-- A stamp lasts: what an action leaves behind for the calls that follow it.
use reliability_lab.Common.{
  ◌+◌, ◌<◌, ◌≡◌, refl, ◌⊎◌, inl, inr, Bool-cases, true, false, String, Option, none, some, arith,
  str_eq, if◌then◌else◌,
}
use reliability_lab.Common.Int.{pos_part}
use reliability_lab.Common.Dict.{lookup, insert, lookup-insert, lookup-insert_self}
use reliability_lab.Dedupe.Clock.{Time, IsCooldown, sub_time-lt}
use reliability_lab.Dedupe.{Dedupe, inside, acquire}
use reliability_lab.Dedupe.Window.{Distinct, keep, lookup-gc, insert-Distinct}

-- The fingerprint was acted on at `now`.
abbrev pub Stamped : Time → Dedupe → String → Type 0
Stamped now d fp = lookup fp d.seen ≡ some now

-- Acting on the fingerprint at `now` would be allowed, or has been done.
abbrev pub IsOpen : Time → Dedupe → String → Type 0
IsOpen now d fp = (inside d.cooldown now (lookup fp d.seen) ≡ false) ⊎ Stamped now d fp

module _ (d : Dedupe) (hc : IsCooldown d.cooldown) (hd : Distinct d.seen) (now : Time) where
  pub lookup-acquire :
      (fp k : String)
      → (lookup k (acquire d fp now).0.seen ≡ lookup k d.seen)
        ⊎ (lookup k (acquire d fp now).0.seen
            ≡ keep d.cooldown now (if str_eq fp k then some now else lookup k d.seen))
  unfolding acquire
  lookup-acquire fp k = ground (
    arith,
    lookup-gc d.cooldown hc now k (insert fp now d.seen) (insert-Distinct fp now d.seen hd),
    lookup-insert fp k now d.seen,
  )

  pub acquire-cooldown : (fp : String) → (acquire d fp now).0.cooldown ≡ d.cooldown
  unfolding acquire
  acquire-cooldown fp = ground arith

  -- A granted call stamps its fingerprint.
  pub acquire-Stamped :
      (fp : String)
      → str_eq fp "" ≡ false
      → (acquire d fp now).1 ≡ true
      → Stamped now (acquire d fp now).0 fp
  unfolding acquire
  acquire-Stamped fp ne ok = ground (
    arith,
    hc,
    lookup-gc d.cooldown hc now fp (insert fp now d.seen) (insert-Distinct fp now d.seen hd),
    lookup-insert_self fp now d.seen,
  )

  -- A stamp of the present time stays.
  pub Stamped-acquire : (fp k : String) → Stamped now d k → Stamped now (acquire d fp now).0 k
  Stamped-acquire fp k st = elim (lookup-acquire fp k) [
    | inl e ↦ rw e st
    | inr e ↦ rw e (rw st (ground (arith, hc)))
  ]

  -- Inside the cooldown of a stamp a call is refused, and changes nothing.
  pub acquire_refused :
      (fp : String) (t : Time)
      → str_eq fp "" ≡ false
      → lookup fp d.seen ≡ some t
      → now < t + pos_part d.cooldown
      → acquire d fp now ≡ (d, false)
  unfolding acquire inside
  acquire_refused fp t ne st lt = rw (ne, st) (ground (arith, sub_time-lt now t d.cooldown hc))

  not_inside-keep :
      (o : Option Time)
      → inside d.cooldown now o ≡ false
      → inside d.cooldown now (keep d.cooldown now o) ≡ false
  unfolding inside
  not_inside-keep none h = refl
  not_inside-keep (some t) h = ground (arith, sub_time-lt now t d.cooldown hc)

  -- A fingerprint that is open stays so, whatever is acted on.
  pub IsOpen-acquire : (fp k : String) → IsOpen now d k → IsOpen now (acquire d fp now).0 k
  IsOpen-acquire fp k (inr st) = inr (Stamped-acquire fp k st)
  IsOpen-acquire fp k (inl out) = elim (lookup-acquire fp k) [
    | inl e ↦ inl (rw (acquire-cooldown fp, e) out)
    | inr e ↦ elim (Bool-cases (str_eq fp k)) [
      | inl same ↦ inr (rw e (rw same (ground (arith, hc))))
      | inr other ↦
          inl (rw (acquire-cooldown fp, e) (rw other (not_inside-keep (lookup k d.seen) out)))
    ]
  ]

  -- A call for an open fingerprint leaves it stamped.
  pub IsOpen-Stamped :
      (fp : String) → str_eq fp "" ≡ false → IsOpen now d fp → Stamped now (acquire d fp now).0 fp
  unfolding acquire
  IsOpen-Stamped fp ne (inr st) = Stamped-acquire fp fp st
  IsOpen-Stamped fp ne (inl out) = acquire-Stamped fp ne (rw (ne, out) refl)
