-- ===== src/Remedy/ScaleUp/Bounds.antt =====
-- What the scale-up makes of the replica floor: the bounds, the no-op, and the wrapping sum.
use reliability_lab.Common.{
  ◌≡◌, sym, subst, ◌∙◌, ◌≢◌, inl, inr, ◌⊎◌, Bool-cases, none, true, false, arith, if◌then◌else◌,
}
use reliability_lab.Common.Int.{ℤ, pos, ◌+ℤ◌, ◌≤ℤ◌, ◌<ℤ◌, leb_ℤ, IsInt32, add_i32, add_i32_exact}
use reliability_lab.Remedy.Cluster.{Key, Client, Hpa, ok, Laws}
use reliability_lab.Remedy.{
  Input, patch_hpa_failed, target_key, wrap, wrap-cluster, wrap-eq-none, wrap-ne-none,
}
use reliability_lab.Remedy.ScaleUp.{
  ScaleUp, step_of, current_of, target_of, bumped, scale_after_get, scale_up_apply,
}

abbrev pub min_ℤ : ℤ → ℤ → ℤ
min_ℤ a b = if leb_ℤ a b then a else b

-- The step is at least 1, and 2 where none is configured.
pub step_of_pos : (s : ScaleUp) → pos 1 ≤ℤ step_of s
unfolding step_of
step_of_pos s = ground arith

target_of_exact :
    (step : ℤ) (h : Hpa)
    → IsInt32 (current_of h +ℤ step)
    → target_of step h ≡ min_ℤ (current_of h +ℤ step) h.max_replicas
unfolding target_of
target_of_exact step h fits = rw (add_i32_exact (current_of h) step fits) (ground arith)

target_of-le-max : (step : ℤ) (h : Hpa) → target_of step h ≤ℤ h.max_replicas
unfolding target_of
target_of-le-max step h = ground arith

abbrev pub max_ℤ : ℤ → ℤ → ℤ
max_ℤ a b = if leb_ℤ a b then b else a

-- The object that a call which returns nil leaves under the key.
unfoldable pub scaled : ℤ → Hpa → Hpa
scaled step h = if leb_ℤ (target_of step h) (current_of h) then h else bumped (target_of step h) h

pub scaled_floor :
    (step : ℤ) (h : Hpa)
    → pos 1 ≤ℤ step
    → IsInt32 (current_of h +ℤ step)
    → current_of (scaled step h)
      ≡ max_ℤ (current_of h) (min_ℤ (current_of h +ℤ step) h.max_replicas)
unfolding scaled
scaled_floor step h p fits = rw (target_of_exact step h fits) (ground arith)

pub scaled_bounds :
    (step : ℤ) (h : Hpa)
    → (current_of h ≤ℤ current_of (scaled step h))
      × ((current_of (scaled step h) ≡ current_of h)
          ⊎ (current_of (scaled step h) ≤ℤ h.max_replicas))
      × ((scaled step h).max_replicas ≡ h.max_replicas)
unfolding scaled
scaled_bounds step h = ground (arith, target_of-le-max step h)

overflow_stays :
    (step : ℤ) (h : Hpa)
    → IsInt32 (current_of h)
    → IsInt32 step
    → pos 0 ≤ℤ current_of h
    → pos 2147483647 <ℤ current_of h +ℤ step
    → leb_ℤ (target_of step h) (current_of h) ≡ true
unfolding target_of add_i32
overflow_stays step h fits step_fits low high = ground arith

module _ {W E : Type 0} (c : Client W E) (laws : Laws c) (step : ℤ) (key : Key) (w : W) (h : Hpa)
    (got : c.get_hpa key w ≡ ok h) where
  write_of-eq :
      leb_ℤ (target_of step h) (current_of h) ≡ false
      → scale_after_get c step key (ok h) w
        ≡ wrap (patch_hpa_failed key) (c.patch_hpa h (bumped (target_of step h) h) w)
  unfolding scale_after_get
  write_of-eq bump = rw bump

  written :
      (c.patch_hpa h (bumped (target_of step h) h) w).0 ≡ none
      → c.get_hpa key (c.patch_hpa h (bumped (target_of step h) h) w).1
        ≡ ok (bumped (target_of step h) h)
  written done =
      let own = laws.get_hpa-key key w h got in
      subst
        (λ k.
          c.get_hpa k (c.patch_hpa h (bumped (target_of step h) h) w).1
          ≡ ok (bumped (target_of step h) h))
        own
        (laws.patched_hpa h (bumped (target_of step h) h) w
          (subst (λ k. c.get_hpa k w ≡ ok h) (sym own) got) done)

  scale_after_get-scaled :
      (scale_after_get c step key (ok h) w).0 ≡ none
      → c.get_hpa key (scale_after_get c step key (ok h) w).1 ≡ ok (scaled step h)
  unfolding scale_after_get scaled
  scale_after_get-scaled done = elim (Bool-cases (leb_ℤ (target_of step h) (current_of h))) [
    | inl stay ↦ rw stay got
    | inr bump ↦ rw bump (
        rw (wrap-cluster (patch_hpa_failed key) (c.patch_hpa h (bumped (target_of step h) h) w))
          (written (wrap-eq-none (patch_hpa_failed key) _ (rw bump at done))))
  ]

  scale_after_get-refused :
      (scale_after_get c step key (ok h) w).0 ≢ none → (scale_after_get c step key (ok h) w).1 ≡ w
  unfolding scale_after_get
  scale_after_get-refused bad = elim (Bool-cases (leb_ℤ (target_of step h) (current_of h))) [
    | inl stay ↦ rw stay
    | inr bump ↦ rw bump (
        wrap-cluster (patch_hpa_failed key) (c.patch_hpa h (bumped (target_of step h) h) w)
        ∙ laws.refused_patch_hpa h (bumped (target_of step h) h) w
            (wrap-ne-none (patch_hpa_failed key) _ (rw bump at bad)))
  ]

module _ {W E : Type 0} (s : ScaleUp) (i : Input W E) (laws : Laws i.client) (w : W) (h : Hpa)
    (got : i.client.get_hpa (target_key i) w ≡ ok h) where
  -- A call that returns nil leaves the scaled version of the object that it found.
  pub scale_up_apply-scaled :
      (scale_up_apply s i w).0 ≡ none
      → i.client.get_hpa (target_key i) (scale_up_apply s i w).1 ≡ ok (scaled (step_of s) h)
  unfolding scale_up_apply
  scale_up_apply-scaled =
      subst
        (λ r.
          (scale_after_get i.client (step_of s) (target_key i) r w).0 ≡ none
          → i.client.get_hpa (target_key i)
              (scale_after_get i.client (step_of s) (target_key i) r w).1
            ≡ ok (scaled (step_of s) h))
        (sym got) (scale_after_get-scaled i.client laws (step_of s) (target_key i) w h got)

  -- Under the client's laws, where the HPA is found and the int32 sum of its floor and the step
  -- fits: an Apply that returns nil leaves the HPA with the same maxReplicas and with the larger of
  -- its old floor and of the sum capped at maxReplicas as its minReplicas.
  pub scale_up_apply_floor :
      IsInt32 (current_of h +ℤ step_of s)
      → (scale_up_apply s i w).0 ≡ none
      → (h' : Hpa) × (i.client.get_hpa (target_key i) (scale_up_apply s i w).1 ≡ ok h')
        × (h'.max_replicas ≡ h.max_replicas)
        × (current_of h' ≡ max_ℤ (current_of h) (min_ℤ (current_of h +ℤ step_of s) h.max_replicas))
  scale_up_apply_floor fits done = (
    scaled (step_of s) h,
    scale_up_apply-scaled done,
    (scaled_bounds (step_of s) h).2,
    scaled_floor (step_of s) h (step_of_pos s) fits,
  )

  -- Under the client's laws, where the HPA is found, whatever its numbers: an Apply that returns
  -- nil never lowers minReplicas, raises it to at most maxReplicas, and leaves maxReplicas alone.
  pub scale_up_apply_bounded :
      (scale_up_apply s i w).0 ≡ none
      → (h' : Hpa) × (i.client.get_hpa (target_key i) (scale_up_apply s i w).1 ≡ ok h')
        × (current_of h ≤ℤ current_of h')
        × ((current_of h' ≡ current_of h) ⊎ (current_of h' ≤ℤ h.max_replicas))
        × (h'.max_replicas ≡ h.max_replicas)
  scale_up_apply_bounded done =
      let b = scaled_bounds (step_of s) h in
      (scaled (step_of s) h, scale_up_apply-scaled done, b.0, b.1, b.2)

  -- Where the HPA is found with a floor that is not negative, and the sum of the two int32 numbers,
  -- floor and step, passes the largest int32: Apply returns nil without a write, whatever
  -- maxReplicas is.
  pub scale_up_apply_overflow :
      IsInt32 (current_of h)
      → IsInt32 (step_of s)
      → pos 0 ≤ℤ current_of h
      → pos 2147483647 <ℤ current_of h +ℤ step_of s
      → scale_up_apply s i w ≡ (none, w)
  unfolding scale_up_apply scale_after_get
  scale_up_apply_overflow fits step_fits low high =
      rw got (ground (arith, overflow_stays (step_of s) h fits step_fits low high))
