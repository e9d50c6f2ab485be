-- ===== src/Server/Accepted.antt =====
-- The alerts of a payload that reach the dispatch, apart from what the dispatch does.
use reliability_lab.Common.{
  ◌+◌, ◌<◌, ◌≡◌, refl, ◌≢◌, ◌⊎◌, inl, inr, ◌∙◌, Bool-cases, Bool, true, false, ◌&&◌, String, List,
  [], ◌∷◌, some, All, arith, str_eq, if◌then◌else◌,
}
use reliability_lab.Common.Int.{ℤ, pos_part}
use reliability_lab.Dedupe.Clock.{Time, IsCooldown}
use reliability_lab.Dedupe.{Dedupe, acquire}
use reliability_lab.Dedupe.Window.{Distinct, acquire-Distinct}
use reliability_lab.Dedupe.Stamps.{
  Stamped, acquire-cooldown, acquire-Stamped, Stamped-acquire, acquire_refused,
}
use reliability_lab.Server.Payload.{Alert, AlertManagerPayload, is_firing}
use reliability_lab.Server.{Config, Server, dispatch, handle_one, handle_alerts, handle_alert}

-- The dedupe after an alert, and whether the alert reaches the dispatch.
abbrev pub dedupe_after : Time → Alert → Dedupe → Dedupe
dedupe_after now a d = if is_firing a then (acquire d a.fingerprint now).0 else d

abbrev pub accepts : Time → Alert → Dedupe → Bool
accepts now a d = is_firing a && (acquire d a.fingerprint now).1

unfoldable pub dedupe_after_all : Time → List Alert → Dedupe → Dedupe
dedupe_after_all now [] d = d
dedupe_after_all now (a ∷ alerts) d = dedupe_after_all now alerts (dedupe_after now a d)

unfoldable pub accepted : Time → List Alert → Dedupe → List Alert
accepted now [] d = []
accepted now (a ∷ alerts) d =
    let rest = accepted now alerts (dedupe_after now a d) in
    if accepts now a d then a ∷ rest else rest

unfoldable pub dispatch_all : {W E : Type 0} → Config W E → List Alert → W → W
dispatch_all cfg [] w = w
dispatch_all cfg (a ∷ alerts) w = dispatch_all cfg alerts (dispatch cfg a w)

pub handle_one_lem :
    {W E : Type 0} (cfg : Config W E) (now : Time) (a : Alert) (d : Dedupe) (w : W)
    → handle_one cfg now a d w
      ≡ (dedupe_after now a d, if accepts now a d then dispatch cfg a w else w)
unfolding handle_one acquire
handle_one_lem cfg now a d w = ground arith

handle_alerts_lem :
    {W E : Type 0} (cfg : Config W E) (now : Time) (alerts : List Alert) (d : Dedupe) (w : W)
    → handle_alerts cfg now alerts d w
      ≡ (dedupe_after_all now alerts d, dispatch_all cfg (accepted now alerts d) w)
unfolding handle_alerts dedupe_after_all dispatch_all accepted
handle_alerts_lem cfg now [] d w = refl
handle_alerts_lem cfg now (a ∷ alerts) d w =
    rw (handle_one_lem cfg now a d w) (elim (Bool-cases (accepts now a d)) [
      | inl e ↦ rw e (handle_alerts_lem cfg now alerts (dedupe_after now a d) (dispatch cfg a w))
      | inr e ↦ rw e (handle_alerts_lem cfg now alerts (dedupe_after now a d) w)
    ])

-- Whatever the remedies return, a payload that decodes is answered 202; the cluster has then seen
-- the dispatch of the accepted alerts, in their order, and of no others, and the dedupe the Acquire
-- of the firing ones.
pub handle_alert_lem :
    {W E : Type 0} (s : Server W E) (p : AlertManagerPayload) (now : Time) (w : W)
    → handle_alert s (some p) now w ≡ (
      record { status = 202; body = "" },
      record s { dedupe = dedupe_after_all now p.alerts s.dedupe },
      dispatch_all s.cfg (accepted now p.alerts s.dedupe) w,
    )
unfolding handle_alert
handle_alert_lem s p now w = rw (handle_alerts_lem s.cfg now p.alerts s.dedupe w)

-- The state of the dedupe that the loop relies on.
pub record IsReady (c : ℤ) (d : Dedupe) : Type 0 where
  pub cooldown_fixed : d.cooldown ≡ c
  pub positive : IsCooldown d.cooldown
  pub distinct : Distinct d.seen

pub dedupe_after-IsReady :
    {c : ℤ} (now : Time) (a : Alert) (d : Dedupe) → IsReady c d → IsReady c (dedupe_after now a d)
dedupe_after-IsReady now a d r = elim (Bool-cases (is_firing a)) [
  | inl e ↦ rw e (record {
    cooldown_fixed = acquire-cooldown d r.positive r.distinct now a.fingerprint ∙ r.cooldown_fixed;
    positive = rw (acquire-cooldown d r.positive r.distinct now a.fingerprint) r.positive;
    distinct = acquire-Distinct d a.fingerprint now r.positive r.distinct;
  })
  | inr e ↦ rw e r
]

pub dedupe_after-Stamped :
    {c : ℤ} (now : Time) (a : Alert) (d : Dedupe) (fp : String)
    → IsReady c d
    → Stamped now d fp
    → Stamped now (dedupe_after now a d) fp
dedupe_after-Stamped now a d fp r st = elim (Bool-cases (is_firing a)) [
  | inl e ↦ rw e (Stamped-acquire d r.positive r.distinct now a.fingerprint fp st)
  | inr e ↦ rw e st
]

-- An alert whose fingerprint was stamped at `t` is not accepted inside the cooldown.
pub Stamped-refuses :
    {c : ℤ} (now t : Time) (a : Alert) (d : Dedupe)
    → IsReady c d
    → str_eq a.fingerprint "" ≡ false
    → Stamped t d a.fingerprint
    → now < t + pos_part d.cooldown
    → (accepts now a d ≡ false) × (dedupe_after now a d ≡ d)
Stamped-refuses now t a d r ne st lt =
    rw (acquire_refused d r.positive r.distinct now a.fingerprint t ne st lt) (ground arith)

-- A fingerprint with a stamp of the present time is not accepted again.
Stamped-accepted :
    {c : ℤ} (now : Time) (fp : String) (alerts : List Alert) (d : Dedupe)
    → IsReady c d
    → str_eq fp "" ≡ false
    → Stamped now d fp
    → All (λ b. b.fingerprint ≢ fp) (accepted now alerts d)
unfolding accepted
Stamped-accepted now fp [] d r ne st = tt
Stamped-accepted now fp (a ∷ alerts) d r ne st =
    let rest =
      Stamped-accepted now fp alerts (dedupe_after now a d) (dedupe_after-IsReady now a d r) ne
        (dedupe_after-Stamped now a d fp r st) in
    elim (Bool-cases (accepts now a d)) [ inl e ↦ rw e (other e, rest) | inr e ↦ rw e rest ]
  where
    other : accepts now a d ≡ true → a.fingerprint ≢ fp
    other e same =
        let refused =
          Stamped-refuses now now a d r (rw same ne) (rw same st) (ground (arith, r.positive)) in
        cc refused.0

-- No two alerts of the list have one fingerprint, where that is not empty.
abbrev pub Unrepeated : List Alert → Type 0
Unrepeated [] = Unit {0}
Unrepeated (a ∷ alerts) =
    ((str_eq a.fingerprint "" ≡ true) ⊎ All (λ b. b.fingerprint ≢ a.fingerprint) alerts)
    × Unrepeated alerts

-- For a dedupe that is ready: of a payload, at most one alert with a given fingerprint that is not
-- empty reaches the dispatch, however often the payload holds it.
pub accepted-Unrepeated :
    {c : ℤ} (now : Time) (alerts : List Alert) (d : Dedupe)
    → IsReady c d
    → Unrepeated (accepted now alerts d)
unfolding accepted
accepted-Unrepeated now [] d r = tt
accepted-Unrepeated now (a ∷ alerts) d r = elim (Bool-cases (accepts now a d)) [
  | inl e ↦ rw e (
    elim (Bool-cases (str_eq a.fingerprint "")) [
      | inl empty ↦ inl empty
      | inr ne ↦ inr (
          Stamped-accepted now a.fingerprint alerts (dedupe_after now a d)
            (dedupe_after-IsReady now a d r) ne (stamped e ne))
    ],
    accepted-Unrepeated now alerts (dedupe_after now a d) (dedupe_after-IsReady now a d r),
  )
  | inr e ↦
      rw e (accepted-Unrepeated now alerts (dedupe_after now a d) (dedupe_after-IsReady now a d r))
]
  where
    stamped :
        accepts now a d ≡ true
        → str_eq a.fingerprint "" ≡ false
        → Stamped now (dedupe_after now a d) a.fingerprint
    stamped e ne = ground (arith, acquire-Stamped d r.positive r.distinct now a.fingerprint ne)
