-- ===== src/System/StaysPaused.antt =====
-- The flag that a remedy has set, and the remedies that write no ConfigMap.
use reliability_lab.Common.{◌≡◌, refl, ◌∙◌, ap, inl, inr, Bool-cases, String, Result, ok, err}
use reliability_lab.Common.Int.{ℤ, leb_ℤ}
use reliability_lab.Remedy.Cluster.{
  Client, ConfigMap, Hpa, Key, GroupVersionKind, PatchType, merge_patch,
}
use reliability_lab.Remedy.{target_key, wrap-cluster, patch_hpa_failed, patch_rollout}
use reliability_lab.Remedy.CircuitBreak.{flag_of}
use reliability_lab.Remedy.ScaleUp.{target_of, current_of, bumped, scale_after_get}
use reliability_lab.Remedy.Rollback.{rollback_apply, rollout_gvr, abort_patch}
use reliability_lab.Server.Payload.{Alert}
use reliability_lab.Manager.{Flags}
use reliability_lab.System.Dispatch.{input_for}

abbrev pub flags_key : Key
flags_key = record { namespace = "reliability-lab"; name = "orders-svc-flags" }

-- What the API server documents: a patch of one object leaves another object alone.
pub record FrameLaws {W E : Type 0} (c : Client W E) : Type 0 where
  pub patch_hpa-config_map :
      (k : Key) (base h : Hpa) (w : W)
      → c.get_config_map k (c.patch_hpa base h w).1 ≡ c.get_config_map k w
  pub patch_status-config_map :
      (k : Key) (gvk : GroupVersionKind) (target : Key) (type : PatchType) (body : String) (w : W)
      → c.get_config_map k (c.patch_status gvk target type body w).1 ≡ c.get_config_map k w

-- The flag says "false" in the cluster.
abbrev pub IsPaused : {W E : Type 0} → Client W E → W → Type 0
IsPaused c w = (cm : ConfigMap) × (c.get_config_map flags_key w ≡ ok cm) × (flag_of cm ≡ "false")

module _ {W E : Type 0} (client : Client W E) (frame : FrameLaws client) (flags : Flags) where
  -- A rollback and a scale-up write no ConfigMap.
  pub rollback-config_map :
      (k : Key) (a : Alert) (w : W)
      → client.get_config_map k (rollback_apply (input_for client flags a) w).1
        ≡ client.get_config_map k w
  unfolding rollback_apply
  rollback-config_map k a w =
      let target = target_key (input_for client flags a) in
      let patched = client.patch_status rollout_gvr target merge_patch abort_patch w in
      ap (client.get_config_map k) (wrap-cluster (patch_rollout target) patched)
      ∙ frame.patch_status-config_map k rollout_gvr target merge_patch abort_patch w

  pub scale_after_get-config_map :
      (k : Key) (step : ℤ) (key : Key) (r : Result E Hpa) (w : W)
      → client.get_config_map k (scale_after_get client step key r w).1 ≡ client.get_config_map k w
  unfolding scale_after_get
  scale_after_get-config_map k step key (err e) w = refl
  scale_after_get-config_map k step key (ok h) w =
      elim (Bool-cases (leb_ℤ (target_of step h) (current_of h))) [
        | inl stay ↦ rw stay refl
        | inr bump ↦ rw bump (
            ap (client.get_config_map k) (
              wrap-cluster (patch_hpa_failed key)
                (client.patch_hpa h (bumped (target_of step h) h) w))
            ∙ frame.patch_hpa-config_map k h (bumped (target_of step h) h) w)
      ]
