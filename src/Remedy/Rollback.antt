-- ===== src/Remedy/Rollback.antt =====
-- operator/internal/remedy/rollback.go: sets status.abort on an Argo Rollout by a merge patch of
-- its status subresource.
use reliability_lab.Common.{String, Option}
use reliability_lab.Remedy.Cluster.{GroupVersionKind, merge_patch}
use reliability_lab.Remedy.{Input, RemedyError, patch_rollout, target_key, wrap}

abbrev pub rollout_gvr : GroupVersionKind
rollout_gvr = record { group = "argoproj.io"; version = "v1alpha1"; kind = "Rollout" }

abbrev pub abort_patch : String
abort_patch = "{\"status\":{\"abort\":true}}"

unfoldable pub rollback_apply : {W E : Type 0} → Input W E → W → Option (RemedyError E) × W
rollback_apply i w =
    wrap (patch_rollout (target_key i))
      (i.client.patch_status rollout_gvr (target_key i) merge_patch abort_patch w)
