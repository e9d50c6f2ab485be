-- ===== src/Remedy/ScaleUp.antt =====
-- operator/internal/remedy/scale.go: raises the minReplicas of a HorizontalPodAutoscaler. All
-- numbers are int32 and their sum wraps.
pub mod Bounds
pub mod Repeats
pub mod Races
use reliability_lab.Common.{Option, none, some, if◌then◌else◌}
use reliability_lab.Common.Int.{ℤ, pos, leb_ℤ, ltb_ℤ, add_i32}
use reliability_lab.Remedy.Cluster.{Key, Client, Hpa, Result, ok, err}
use reliability_lab.Remedy.{Input, RemedyError, get_hpa_failed, patch_hpa_failed, target_key, wrap}

pub record ScaleUp : Type 0 where
  pub step : ℤ

unfoldable pub step_of : ScaleUp → ℤ
step_of s = if leb_ℤ s.step (pos 0) then pos 2 else s.step

-- *hpa.Spec.MinReplicas, or 0 where it is nil.
abbrev pub current_of : Hpa → ℤ
current_of hpa = elim hpa.min_replicas [ none ↦ pos 0 | some n ↦ n ]

-- The bump, capped at maxReplicas.
unfoldable pub target_of : ℤ → Hpa → ℤ
target_of step hpa =
    let target = add_i32 (current_of hpa) step in
    if ltb_ℤ hpa.max_replicas target then hpa.max_replicas else target

abbrev pub bumped : ℤ → Hpa → Hpa
bumped target hpa = record hpa { min_replicas = some target }

module _ {W E : Type 0} where
  unfoldable pub scale_after_get :
      Client W E → ℤ → Key → Result E Hpa → W → Option (RemedyError E) × W
  scale_after_get c step key (err e) w = (some (get_hpa_failed key e), w)
  scale_after_get c step key (ok hpa) w =
      let target = target_of step hpa in
      if leb_ℤ target (current_of hpa)
      then (none, w)
      else wrap (patch_hpa_failed key) (c.patch_hpa hpa (bumped target hpa) w)

  unfoldable pub scale_up_apply : ScaleUp → Input W E → W → Option (RemedyError E) × W
  unfolding scale_after_get
  scale_up_apply s i w =
      scale_after_get i.client (step_of s) (target_key i) (i.client.get_hpa (target_key i) w) w
