-- ===== src/Server/Resend.antt =====
-- AlertManager sends a firing alert again and again: what the server does with the repeats, and
-- with the alerts that no remedy is for.
use reliability_lab.Common.{
  ◌+◌, ◌<◌, ◌≡◌, refl, ap, ◌≢◌, ◌∙◌, ◌⊎◌, inl, inr, Bool-cases, true, false, List, [], ◌∷◌, some,
  All, str_eq,
}
use reliability_lab.Common.Int.{ℤ, pos_part}
use reliability_lab.Classifier.{label}
use reliability_lab.Classifier.Policy.{classify_only_page}
use reliability_lab.Dedupe.Clock.{Time}
use reliability_lab.Dedupe.{Dedupe}
use reliability_lab.Dedupe.Stamps.{Stamped, IsOpen, IsOpen-acquire, IsOpen-Stamped}
use reliability_lab.Server.Payload.{Alert, AlertManagerPayload, is_firing}
use reliability_lab.Server.{Config, Server, dispatch, handle_alert}
use reliability_lab.Server.Accepted.{
  dedupe_after, dedupe_after_all, accepts, accepted, dispatch_all, handle_alert_lem, IsReady,
  dedupe_after-IsReady, dedupe_after-Stamped, Stamped-refuses,
}

-- Every firing alert of the list has a fingerprint that is stamped at `t`.
abbrev AllStamped : Time → List Alert → Dedupe → Type 0
AllStamped t alerts d =
    All
      (λ a. (is_firing a ≡ false) ⊎ ((str_eq a.fingerprint "" ≡ false) × Stamped t d a.fingerprint))
      alerts

-- Every firing alert of the list has a fingerprint, and acting on it at `now` would be allowed.
abbrev pub AllOpen : Time → List Alert → Dedupe → Type 0
AllOpen now alerts d =
    All
      (λ a.
        (is_firing a ≡ false) ⊎ ((str_eq a.fingerprint "" ≡ false) × IsOpen now d a.fingerprint))
      alerts

module _ {c : ℤ} (now : Time) where
  IsOpen-dedupe_after :
      (a b : Alert) (d : Dedupe)
      → IsReady c d
      → IsOpen now d b.fingerprint
      → IsOpen now (dedupe_after now a d) b.fingerprint
  IsOpen-dedupe_after a b d r o = elim (Bool-cases (is_firing a)) [
    | inl e ↦ rw e (IsOpen-acquire d r.positive r.distinct now a.fingerprint b.fingerprint o)
    | inr e ↦ rw e o
  ]

  AllOpen-dedupe_after :
      (a : Alert) (alerts : List Alert) (d : Dedupe)
      → IsReady c d
      → AllOpen now alerts d
      → AllOpen now alerts (dedupe_after now a d)
  AllOpen-dedupe_after a [] d r o = tt
  AllOpen-dedupe_after a (b ∷ alerts) d r (inl o, os) =
      (inl o, AllOpen-dedupe_after a alerts d r os)
  AllOpen-dedupe_after a (b ∷ alerts) d r (inr (ne, o), os) =
      (inr (ne, IsOpen-dedupe_after a b d r o), AllOpen-dedupe_after a alerts d r os)

  Stamped-dedupe_after_all :
      (alerts : List Alert) (d : Dedupe) (b : Alert)
      → IsReady c d
      → Stamped now d b.fingerprint
      → Stamped now (dedupe_after_all now alerts d) b.fingerprint
  unfolding dedupe_after_all
  Stamped-dedupe_after_all [] d b r st = st
  Stamped-dedupe_after_all (a ∷ alerts) d b r st =
      Stamped-dedupe_after_all alerts (dedupe_after now a d) b (dedupe_after-IsReady now a d r)
        (dedupe_after-Stamped now a d b.fingerprint r st)

  stamp_of :
      (a : Alert) (d : Dedupe)
      → IsReady c d
      → is_firing a ≡ true
      → str_eq a.fingerprint "" ≡ false
      → IsOpen now d a.fingerprint
      → Stamped now (dedupe_after now a d) a.fingerprint
  stamp_of a d r f ne o = rw f (IsOpen-Stamped d r.positive r.distinct now a.fingerprint ne o)

  AllOpen-AllStamped :
      (alerts : List Alert) (d : Dedupe)
      → IsReady c d
      → AllOpen now alerts d
      → AllStamped now alerts (dedupe_after_all now alerts d)
  unfolding dedupe_after_all
  AllOpen-AllStamped [] d r o = tt
  AllOpen-AllStamped (a ∷ alerts) d r (o, os) =
      let ready = dedupe_after-IsReady now a d r in
      (
        elim (Bool-cases (is_firing a)) [
          | inr resolved ↦ inl resolved
          | inl f ↦ elim o [
            | inl resolved ↦ inl resolved
            | inr (ne, o') ↦ inr (
              ne,
              Stamped-dedupe_after_all alerts (dedupe_after now a d) a ready
                  (stamp_of a d r f ne o'),
            )
          ]
        ],
        AllOpen-AllStamped alerts (dedupe_after now a d) ready
            (AllOpen-dedupe_after a alerts d r os),
      )

  IsReady-dedupe_after_all :
      (alerts : List Alert) (d : Dedupe) → IsReady c d → IsReady c (dedupe_after_all now alerts d)
  unfolding dedupe_after_all
  IsReady-dedupe_after_all [] d r = r
  IsReady-dedupe_after_all (a ∷ alerts) d r =
      IsReady-dedupe_after_all alerts (dedupe_after now a d) (dedupe_after-IsReady now a d r)

AllStamped-refuses :
    {c : ℤ} (t later : Time) (alerts : List Alert) (d : Dedupe)
    → IsReady c d
    → later < t + pos_part d.cooldown
    → AllStamped t alerts d
    → (accepted later alerts d ≡ []) × (dedupe_after_all later alerts d ≡ d)
unfolding accepted dedupe_after_all
AllStamped-refuses t later [] d r lt st = (refl, refl)
AllStamped-refuses t later (a ∷ alerts) d r lt (s, st) =
    rw (skip.0, skip.1) (AllStamped-refuses t later alerts d r lt st)
  where
    skip : (accepts later a d ≡ false) × (dedupe_after later a d ≡ d)
    skip = elim s [
      | inl e ↦ rw e (refl, refl)
      | inr (ne, st') ↦ Stamped-refuses later t a d r ne st' lt
    ]

-- For a dedupe that is ready: a payload whose firing alerts all have a fingerprint that may be
-- acted on, sent again inside the cooldown. The second request is answered 202 and changes neither
-- the server nor the cluster, whatever the remedies did and returned the first time.
pub handle_alert_resend :
    {W E : Type 0} {c : ℤ} (s : Server W E) (p : AlertManagerPayload) (now later : Time) (w : W)
    → IsReady c s.dedupe
    → AllOpen now p.alerts s.dedupe
    → later < now + pos_part c
    → let (_, s', w') = handle_alert s (some p) now w in
      handle_alert s' (some p) later w' ≡ (record { status = 202; body = "" }, s', w')
handle_alert_resend s p now later w r o lt =
    rw (handle_alert_lem s p now w)
      (rw (handle_alert_lem _ p later _) (rw (again.0, again.1) (unfold dispatch_all in refl)))
  where
    after : Dedupe
    after = dedupe_after_all now p.alerts s.dedupe

    again : (accepted later p.alerts after ≡ []) × (dedupe_after_all later p.alerts after ≡ after)
    again =
        let ready = IsReady-dedupe_after_all now p.alerts s.dedupe r in
        AllStamped-refuses now later p.alerts after ready (rw ready.cooldown_fixed lt)
          (AllOpen-AllStamped now p.alerts s.dedupe r o)

-- Resolved, or of another severity than page.
abbrev pub IsIdle : Alert → Type 0
IsIdle a = (is_firing a ≡ false) ⊎ (label a.labels "severity" ≢ "page")

not_page_dispatch :
    {W E : Type 0} (cfg : Config W E) (a : Alert) (w : W)
    → label a.labels "severity" ≢ "page"
    → dispatch cfg a w ≡ w
unfolding dispatch
not_page_dispatch cfg a w n = rw (classify_only_page a.labels n) refl

idle_dispatch_all :
    {W E : Type 0} (cfg : Config W E) (now : Time) (alerts : List Alert) (d : Dedupe) (w : W)
    → All IsIdle alerts
    → dispatch_all cfg (accepted now alerts d) w ≡ w
unfolding accepted dispatch_all
idle_dispatch_all cfg now [] d w h = refl
idle_dispatch_all cfg now (a ∷ alerts) d w (inl e, h) =
    rw e (idle_dispatch_all cfg now alerts d w h)
idle_dispatch_all cfg now (a ∷ alerts) d w (inr n, h) = elim (Bool-cases (accepts now a d)) [
  | inl e ↦ rw e (
      ap (dispatch_all cfg (accepted now alerts (dedupe_after now a d)))
        (not_page_dispatch cfg a w n)
      ∙ idle_dispatch_all cfg now alerts (dedupe_after now a d) w h)
  | inr e ↦ rw e (idle_dispatch_all cfg now alerts (dedupe_after now a d) w h)
]

-- A payload of resolved alerts and of alerts with another severity than page never reaches the
-- cluster.
pub handle_alert_idle :
    {W E : Type 0} (s : Server W E) (p : AlertManagerPayload) (now : Time) (w : W)
    → All IsIdle p.alerts
    → (handle_alert s (some p) now w).2 ≡ w
handle_alert_idle s p now w h =
    rw (handle_alert_lem s p now w) (idle_dispatch_all s.cfg now p.alerts s.dedupe w h)
