-- ===== src/Remedy/ScaleUp/Races.antt =====
-- ScaleUp.Apply as the webhooks run it at once on one HPA: its Get and its Patch are separate calls,
-- and the patch, client.MergeFrom without a resource version, is not refused when another writer has
-- come between them.
pub mod Floor
use reliability_lab.Common.{
  ℕ, ◌==◌, Bool, true, false, Bool-cases, inl, inr, ◌≡◌, ◌≢◌, refl, sym, subst, ◌∙◌, some, none,
  Option, Result, ok, err, arith, if◌then◌else◌,
}
use reliability_lab.Common.Int.{
  ℤ, pos, ◌+ℤ◌, ◌≤ℤ◌, ◌<ℤ◌, leb_ℤ, ltb_ℤ, IsInt32, add_i32, add_i32_exact,
}
use reliability_lab.Remedy.Cluster.{Key, Client, Hpa}
use reliability_lab.Remedy.{
  RemedyError, patch_hpa_failed, wrap, wrap-cluster, wrap-eq-none, wrap-ne-none,
}
use reliability_lab.Remedy.Races.{Race, Reach}
use reliability_lab.Remedy.ScaleUp.{current_of, target_of, bumped, scale_after_get}

-- What the API server documents of a merge patch of minReplicas: it sets that field of the object
-- that is stored now, whatever the patch was computed from; a refused one changes nothing.
pub record MergeLaws {W E : Type 0} (c : Client W E) : Type 0 where
  pub get_hpa-key : (k : Key) (w : W) (h : Hpa) → c.get_hpa k w ≡ ok h → h.key ≡ k
  pub merged :
      (base now : Hpa) (n : ℤ) (w : W)
      → base.min_replicas ≢ some n
      → c.get_hpa base.key w ≡ ok now
      → (c.patch_hpa base (bumped n base) w).0 ≡ none
      → c.get_hpa base.key (c.patch_hpa base (bumped n base) w).1 ≡ ok (bumped n now)
  pub refused :
      (base h : Hpa) (w : W) → (c.patch_hpa base h w).0 ≢ none → (c.patch_hpa base h w).1 ≡ w

-- Any number of Applies, with this step, on the HPA of this key.
abbrev pub Scaling : {W E : Type 0} → Client W E → ℤ → Key → W → Race Hpa W E → Type 0
Scaling c step key = Reach (c.get_hpa key) (scale_after_get c step key)
