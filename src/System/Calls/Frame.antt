-- ===== src/System/Calls/Frame.antt =====
-- What the remedies leave of an HPA that is not theirs.
use reliability_lab.Common.{
  ◌≡◌, ◌≢◌, refl, ap, ◌∙◌, ◌⊎◌, inl, inr, Bool-cases, str_eq, eq_iff, Result, ok, err,
}
use reliability_lab.Common.Int.{ℤ, pos, leb_ℤ}
use reliability_lab.Remedy.Cluster.{Client, ConfigMap, Hpa, Key, merge_patch}
use reliability_lab.Remedy.{
  target_key, create_flags, patch_flags, patch_hpa_failed, patch_rollout, wrap-cluster,
}
use reliability_lab.Remedy.CircuitBreak.{flag_of, flag_value_paused, new_flags, engaged, after_get}
use reliability_lab.Remedy.ScaleUp.{step_of, current_of, target_of, bumped, scale_after_get}
use reliability_lab.Remedy.Rollback.{rollback_apply, rollout_gvr, abort_patch}
use reliability_lab.Server.Payload.{Alert}
use reliability_lab.Manager.{Flags}
use reliability_lab.System.Dispatch.{input_for}
use reliability_lab.System.Calls.{ApiLaws}

pub keys_cases : (k l : Key) → (k ≡ l) ⊎ (k ≢ l)
keys_cases k l = elim (Bool-cases (str_eq k.namespace l.namespace)) [
  | inl same ↦ elim (Bool-cases (str_eq k.name l.name)) [
    | inl also ↦
        inl (λ i. record { namespace = (eq_iff _ _).0 same i; name = (eq_iff _ _).0 also i })
    | inr other ↦ inr (λ e. let also = (eq_iff _ _).1 (ap (λ (x : Key). x.name) e) in cc)
  ]
  | inr other ↦ inr (λ e. let same = (eq_iff _ _).1 (ap (λ (x : Key). x.namespace) e) in cc)
]

-- The step that main registers the remedy with: none, so the default of two.
pub main_step : step_of (record { step = pos 0 }) ≡ pos 2
unfolding step_of
main_step = refl

module _ {W E : Type 0} (client : Client W E) (laws : ApiLaws client) where
  -- A circuit breaker writes no HPA.
  pub after_get-hpa :
      (hk key : Key) (r : Result E ConfigMap) (w : W)
      → client.get_hpa hk (after_get client key r w).1 ≡ client.get_hpa hk w
  unfolding after_get
  after_get-hpa hk key (err e) w = elim (Bool-cases (client.is_not_found e)) [
    | inl missing ↦ rw missing (
        ap (client.get_hpa hk)
          (wrap-cluster (create_flags key) (client.create_config_map (new_flags key) w))
        ∙ laws.create_config_map-hpa hk (new_flags key) w)
    | inr other ↦ rw other refl
  ]
  after_get-hpa hk key (ok cm) w = elim (Bool-cases (str_eq (flag_of cm) flag_value_paused)) [
    | inl set ↦ rw set refl
    | inr unset ↦ rw unset (
        ap (client.get_hpa hk)
          (wrap-cluster (patch_flags key) (client.patch_config_map cm (engaged cm) w))
        ∙ laws.patch_config_map-hpa hk cm (engaged cm) w)
  ]

  pub rollback-hpa :
      (flags : Flags) (hk : Key) (a : Alert) (w : W)
      → client.get_hpa hk (rollback_apply (input_for client flags a) w).1 ≡ client.get_hpa hk w
  unfolding rollback_apply
  rollback-hpa flags hk a w =
      let target = target_key (input_for client flags a) in
      ap (client.get_hpa hk) (
        wrap-cluster (patch_rollout target)
          (client.patch_status rollout_gvr target merge_patch abort_patch w))
      ∙ laws.patch_status-hpa hk rollout_gvr target merge_patch abort_patch w

  -- A scale-up of another HPA.
  pub scale_after_get-hpa :
      (hk key : Key) (step : ℤ) (h : Hpa) (w : W)
      → hk ≢ h.key
      → client.get_hpa hk (scale_after_get client step key (ok h) w).1 ≡ client.get_hpa hk w
  unfolding scale_after_get
  scale_after_get-hpa hk key step h w other =
      elim (Bool-cases (leb_ℤ (target_of step h) (current_of h))) [
        | inl stay ↦ rw stay refl
        | inr bump ↦ rw bump (
            ap (client.get_hpa hk) (
              wrap-cluster (patch_hpa_failed key)
                (client.patch_hpa h (bumped (target_of step h) h) w))
            ∙ laws.patch_hpa-hpa hk h (bumped (target_of step h) h) w other)
      ]
