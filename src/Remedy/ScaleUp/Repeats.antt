-- ===== src/Remedy/ScaleUp/Repeats.antt =====
-- Applying the scale-up again and again.
use reliability_lab.Common.{ℕ, zero, suc, ◌≡◌, ◌∙◌, none, arith}
use reliability_lab.Common.Int.{ℤ, pos, ◌+ℤ◌, ◌≤ℤ◌, ◌<ℤ◌}
use reliability_lab.Remedy.Cluster.{Hpa, ok, Laws}
use reliability_lab.Remedy.{Input, target_key}
use reliability_lab.Remedy.ScaleUp.{ScaleUp, step_of, current_of, scale_up_apply}
use reliability_lab.Remedy.ScaleUp.Bounds.{
  min_ℤ, scaled, scaled_floor, scaled_bounds, step_of_pos, scale_up_apply-scaled,
}

-- No sum of a floor up to maxReplicas and the step leaves int32.
abbrev pub HasRoom : ℤ → Hpa → Type 0
HasRoom step h =
    (pos 0 ≤ℤ current_of h)
    × (current_of h ≤ℤ h.max_replicas)
    × (h.max_replicas +ℤ step ≤ℤ pos 2147483647)

scaled_room :
    (step : ℤ) (h : Hpa)
    → pos 1 ≤ℤ step
    → HasRoom step h
    → (current_of (scaled step h) ≡ min_ℤ (current_of h +ℤ step) h.max_replicas)
      × ((scaled step h).max_replicas ≡ h.max_replicas)
      × HasRoom step (scaled step h)
scaled_room step h p room =
    let floor = scaled_floor step h p (ground arith) in
    let top = (scaled_bounds step h).2 in
    let low : current_of (scaled step h) ≡ min_ℤ (current_of h +ℤ step) h.max_replicas =
      ground (arith, floor) in
    (low, top, rw (low, top) (ground arith))

abbrev pub scaled_times : ℤ → ℕ → Hpa → Hpa
scaled_times step zero h = h
scaled_times step (suc n) h = scaled_times step n (scaled step h)

scaled_times-reaches :
    (step : ℤ) (n : ℕ) (h : Hpa)
    → pos 1 ≤ℤ step
    → HasRoom step h
    → h.max_replicas ≤ℤ current_of h +ℤ pos n
    → current_of (scaled_times step n h) ≡ h.max_replicas
scaled_times-reaches step zero h p room far = ground arith
scaled_times-reaches step (suc n) h p room far =
    let r = scaled_room step h p room in
    scaled_times-reaches step n (scaled step h) p r.2 (rw (r.0, r.1) (ground arith)) ∙ r.1

module _ {W E : Type 0} (s : ScaleUp) (i : Input W E) where
  unfoldable pub apply_times : ℕ → W → W
  apply_times zero w = w
  apply_times (suc n) w = apply_times n (scale_up_apply s i w).1

  -- Each of the calls returns nil.
  abbrev pub AllNil : ℕ → W → Type 0
  AllNil zero w = Unit {0}
  AllNil (suc n) w = ((scale_up_apply s i w).0 ≡ none) × AllNil n (scale_up_apply s i w).1

  apply_times-scaled :
      (laws : Laws i.client) (n : ℕ) (w : W) (h : Hpa)
      → i.client.get_hpa (target_key i) w ≡ ok h
      → AllNil n w
      → i.client.get_hpa (target_key i) (apply_times n w) ≡ ok (scaled_times (step_of s) n h)
  unfolding apply_times
  apply_times-scaled laws zero w h got all = got
  apply_times-scaled laws (suc n) w h got all =
      apply_times-scaled laws n _ (scaled (step_of s) h)
        (scale_up_apply-scaled s i laws w h got all.0) all.1

  -- Under the client's laws, for a floor from 0 to maxReplicas and a step that fits above
  -- maxReplicas into an int32: as many calls as the floor is below maxReplicas, each returning nil,
  -- bring it up to maxReplicas.
  pub scale_up_apply_reaches :
      (laws : Laws i.client) (n : ℕ) (w : W) (h : Hpa)
      → i.client.get_hpa (target_key i) w ≡ ok h
      → HasRoom (step_of s) h
      → h.max_replicas ≤ℤ current_of h +ℤ pos n
      → AllNil n w
      → (h' : Hpa) × (i.client.get_hpa (target_key i) (apply_times n w) ≡ ok h')
        × (current_of h' ≡ h.max_replicas)
  scale_up_apply_reaches laws n w h got room far all = (
    scaled_times (step_of s) n h,
    apply_times-scaled laws n w h got all,
    scaled_times-reaches (step_of s) n h (step_of_pos s) room far,
  )

  -- Under the client's laws, for a floor that is not negative and a step that fits above
  -- maxReplicas into an int32, Apply is not idempotent: where the floor and the step stay below
  -- maxReplicas, the second of two calls that return nil raises the floor above what the first has
  -- left.
  pub scale_up_apply_twice :
      (laws : Laws i.client) (w : W) (h : Hpa)
      → i.client.get_hpa (target_key i) w ≡ ok h
      → HasRoom (step_of s) h
      → current_of h +ℤ step_of s <ℤ h.max_replicas
      → AllNil 2 w
      → (once : Hpa) × (again : Hpa) × (i.client.get_hpa (target_key i) (apply_times 1 w) ≡ ok once)
        × (i.client.get_hpa (target_key i) (apply_times 2 w) ≡ ok again)
        × (current_of once <ℤ current_of again)
  scale_up_apply_twice laws w h got room below all = (
    scaled (step_of s) h,
    scaled (step_of s) (scaled (step_of s) h),
    apply_times-scaled laws 1 w h got (all.0, tt),
    apply_times-scaled laws 2 w h got all,
    rises (step_of s) h (step_of_pos s) room below,
  )
    where
      rises :
          (step : ℤ) (h : Hpa)
          → pos 1 ≤ℤ step
          → HasRoom step h
          → current_of h +ℤ step <ℤ h.max_replicas
          → current_of (scaled step h) <ℤ current_of (scaled step (scaled step h))
      rises step h p room below =
          let r = scaled_room step h p room in
          let r' = scaled_room step (scaled step h) p r.2 in rw (r'.0, r.0, r.1) (ground arith)
