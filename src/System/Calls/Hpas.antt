-- ===== src/System/Calls/Hpas.antt =====
-- The calls of the remedies on one HPA, by a property of what is stored and one of what is held.
use reliability_lab.Common.{◌≡◌, refl, sym, subst, ◌∙◌, inl, inr, false, List, Result, ok, err}
use reliability_lab.Common.Int.{pos, leb_ℤ}
use reliability_lab.Classifier.{Kind, no_remedy, rollback, scale_up, circuit_break}
use reliability_lab.Dedupe.Clock.{Time}
use reliability_lab.Remedy.Cluster.{Client, Hpa, Key}
use reliability_lab.Remedy.ScaleUp.{current_of, target_of, bumped, scale_after_get}
use reliability_lab.Remedy.ScaleUp.Races.Floor.{Left-rest}
use reliability_lab.Server.Payload.{Alert}
use reliability_lab.Manager.{Flags}
use reliability_lab.System.Calls.{Handler, serving, scaling, braking, begin, finish, ApiLaws}
use reliability_lab.System.Calls.Frame.{
  keys_cases, main_step, after_get-hpa, rollback-hpa, scale_after_get-hpa,
}

-- The HPA is found with the property.
abbrev pub IsStored : {W E : Type 0} → Client W E → Key → (Hpa → Type 0) → W → Type 0
IsStored client hk P w = (h : Hpa) × (client.get_hpa hk w ≡ ok h) × P h

-- What a scale-up has read of the HPA has the property.
abbrev pub IsRead : {E : Type 0} → Key → (Hpa → Type 0) → Handler E → Type 0
IsRead hk Q (scaling now rest key (ok h)) = (h.key ≡ key) × (key ≡ hk → Q h)
IsRead hk Q _ = Unit {0}

module _ {W E : Type 0} (client : Client W E) (laws : ApiLaws client) (flags : Flags) (hk : Key)
    (P Q : Hpa → Type 0)
    (writes : (h now : Hpa)
      → leb_ℤ (target_of (pos 2) h) (current_of h) ≡ false
      → Q h
      → P now
      → P (bumped (target_of (pos 2) h) now)) where
  same_hpa :
      (v w : W)
      → client.get_hpa hk v ≡ client.get_hpa hk w
      → IsStored client hk P w
      → IsStored client hk P v
  same_hpa v w same (h, got, p) = (h, same ∙ got, p)

  written_here :
      (h : Hpa) (w : W)
      → h.key ≡ hk
      → Q h
      → IsStored client hk P w
      → IsStored client hk P (scale_after_get client (pos 2) hk (ok h) w).1
  written_here h w own q (now, got, p) =
      elim (Left-rest client laws.hpas (pos 2) hk w h now own got) [
        | inl same ↦ (now, same, p)
        | inr (bump, new) ↦ (bumped (target_of (pos 2) h) now, new, writes h now bump q p)
      ]

  scaled-IsStored :
      (key : Key) (r : Result E Hpa) (w : W) (now : Time) (rest : List Alert)
      → IsRead hk Q (scaling now rest key r)
      → IsStored client hk P w
      → IsStored client hk P (scale_after_get client (pos 2) key r w).1
  unfolding scale_after_get
  scaled-IsStored key (err e) w now rest read stored = stored
  scaled-IsStored key (ok h) w now rest (own, q) stored = elim (keys_cases key hk) [
    | inl here ↦ rw here (written_here h w (own ∙ here) (q here) stored)
    | inr away ↦
        same_hpa _ w
          (scale_after_get-hpa client laws hk key (pos 2) h w (λ e. away (sym own ∙ sym e))) stored
  ]

  pub finish-IsStored :
      (h : Handler E) (w : W)
      → IsRead hk Q h
      → IsStored client hk P w
      → IsStored client hk P (finish client flags h w).1
  unfolding finish
  finish-IsStored (serving h) w read stored = stored
  finish-IsStored (scaling now rest key r) w read stored =
      rw main_step (scaled-IsStored key r w now rest read stored)
  finish-IsStored (braking now rest key r) w read stored =
      same_hpa _ w (after_get-hpa client laws hk key r w) stored

  pub finish-IsRead : (h : Handler E) (w : W) → IsRead hk Q (finish client flags h w).0
  unfolding finish
  finish-IsRead (serving h) w = tt
  finish-IsRead (scaling now rest key r) w = tt
  finish-IsRead (braking now rest key r) w = tt

  pub got-IsRead :
      (key : Key) (now : Time) (rest : List Alert) (w : W) (r : Result E Hpa)
      → client.get_hpa key w ≡ r
      → ((h : Hpa) → client.get_hpa hk w ≡ ok h → Q h)
      → IsRead hk Q (scaling now rest key r)
  got-IsRead key now rest w (err e) got q = tt
  got-IsRead key now rest w (ok h) got q = (
    laws.hpas.get_hpa-key key w h got,
    (λ here. q h (subst (λ k. client.get_hpa k w ≡ ok h) here got)),
  )

  pub begin-IsStored :
      (k : Kind) (now : Time) (a : Alert) (rest : List Alert) (w : W)
      → IsStored client hk P w
      → IsStored client hk P (begin client flags k now a rest w).1
  unfolding begin
  begin-IsStored no_remedy now a rest w stored = stored
  begin-IsStored rollback now a rest w stored =
      same_hpa _ w (rollback-hpa client laws flags hk a w) stored
  begin-IsStored scale_up now a rest w stored = stored
  begin-IsStored circuit_break now a rest w stored = stored

  -- The HPA as a dispatch finds it is what it holds of it, unless it is none of a scale-up.
  pub begin-IsRead :
      (k : Kind) (now : Time) (a : Alert) (rest : List Alert) (w : W)
      → (k ≡ scale_up → (h : Hpa) → client.get_hpa hk w ≡ ok h → Q h)
      → IsRead hk Q (begin client flags k now a rest w).0
  unfolding begin
  begin-IsRead no_remedy now a rest w q = tt
  begin-IsRead rollback now a rest w q = tt
  begin-IsRead scale_up now a rest w q = got-IsRead _ now rest w _ refl (q refl)
  begin-IsRead circuit_break now a rest w q = tt
