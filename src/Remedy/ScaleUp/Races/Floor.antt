-- ===== src/Remedy/ScaleUp/Races/Floor.antt =====
-- The replica floor that several scale-ups at once leave.
use reliability_lab.Common.{
  false, Bool-cases, inl, inr, ◌⊎◌, ◌≡◌, ◌≢◌, refl, sym, subst, ap, ◌∙◌, some, none, Option, Result,
  ok, err, arith,
}
use reliability_lab.Common.Int.{ℤ, pos, ◌+ℤ◌, ◌≤ℤ◌, leb_ℤ, IsInt32, add_i32}
use reliability_lab.Remedy.Cluster.{Key, Client, Hpa}
use reliability_lab.Remedy.{RemedyError, patch_hpa_failed, wrap, wrap-cluster, wrap-eq-none}
use reliability_lab.Remedy.ScaleUp.{current_of, target_of, bumped, scale_after_get}
use reliability_lab.Remedy.ScaleUp.Races.{MergeLaws, Scaling}
use reliability_lab.Remedy.Races.{
  Applier, entered, holding, returned, Race, Preserved, Reach-Preserved,
}

none-or-not : {A : Type 0} (o : Option A) → (o ≡ none) ⊎ (o ≢ none)
none-or-not none = inl refl
none-or-not (some a) = inr (λ e. cc)

min-ne-target :
    (step : ℤ) (h : Hpa)
    → leb_ℤ (target_of step h) (current_of h) ≡ false
    → h.min_replicas ≢ some (target_of step h)
min-ne-target step h bump = λ e.
    let low : leb_ℤ (target_of step h) (target_of step h) ≡ false =
      subst (λ m. leb_ℤ (target_of step h) (elim m [ none ↦ pos 0 | some n ↦ n ]) ≡ false) e bump in
    ground arith

module _ {W E : Type 0} (c : Client W E) (laws : MergeLaws c) (step : ℤ) (key : Key) (w : W)
    (h now : Hpa) (own : h.key ≡ key) (got : c.get_hpa key w ≡ ok now) where
  abbrev pub rest_of : Option (RemedyError E) × W
  rest_of = scale_after_get c step key (ok h) w

  abbrev patched : Option E × W
  patched = c.patch_hpa h (bumped (target_of step h) h) w

  rest_of-eq :
      leb_ℤ (target_of step h) (current_of h) ≡ false
      → rest_of ≡ wrap (patch_hpa_failed key) patched
  unfolding scale_after_get
  rest_of-eq bump = rw bump

  merged_of :
      leb_ℤ (target_of step h) (current_of h) ≡ false
      → patched.0 ≡ none
      → c.get_hpa key patched.1 ≡ ok (bumped (target_of step h) now)
  merged_of bump done =
      subst (λ k. c.get_hpa k patched.1 ≡ ok (bumped (target_of step h) now)) own
        (laws.merged h now (target_of step h) w (min-ne-target step h bump)
          (subst (λ k. c.get_hpa k w ≡ ok now) (sym own) got) done)

  -- Under the laws of the merge patch: an Apply that has read `h` and found a bump to do, and whose
  -- patch succeeds, sets minReplicas to the bump that it has computed from `h`, whatever the object
  -- `now` that is stored by then, also where its floor is higher.
  pub stale_patch :
      leb_ℤ (target_of step h) (current_of h) ≡ false
      → rest_of.0 ≡ none
      → c.get_hpa key rest_of.1 ≡ ok (bumped (target_of step h) now)
  stale_patch bump done =
      let eq = rest_of-eq bump in
      rw eq (
        rw (wrap-cluster (patch_hpa_failed key) patched)
          (merged_of bump (wrap-eq-none (patch_hpa_failed key) patched (rw eq at done))))

  -- The object that is found after the rest of an Apply.
  abbrev pub Left : W → Type 0
  Left v =
      (c.get_hpa key v ≡ ok now)
      ⊎ ((leb_ℤ (target_of step h) (current_of h) ≡ false)
          × (c.get_hpa key v ≡ ok (bumped (target_of step h) now)))

  Left-patched : leb_ℤ (target_of step h) (current_of h) ≡ false → Left patched.1
  Left-patched bump = elim (none-or-not patched.0) [
    | inl done ↦ inr (bump, merged_of bump done)
    | inr bad ↦ inl (subst (λ v. c.get_hpa key v ≡ ok now) (sym (laws.refused h _ w bad)) got)
  ]

  pub Left-rest : Left rest_of.1
  unfolding scale_after_get
  Left-rest = elim (Bool-cases (leb_ℤ (target_of step h) (current_of h))) [
    | inl stay ↦ subst Left (sym (rw stay refl)) (inl got)
    | inr bump ↦
        subst Left
          (sym (ap (λ r. r.1) (rest_of-eq bump) ∙ wrap-cluster (patch_hpa_failed key) patched))
          (Left-patched bump)
  ]

-- An HPA under the key with this maximum, and a floor between `low` and the maximum.
pub record Fits (key : Key) (low top : ℤ) (h : Hpa) : Type 0 where
  pub own : h.key ≡ key
  pub max : h.max_replicas ≡ top
  pub above : low ≤ℤ current_of h
  pub below : current_of h ≤ℤ top

module _ (key : Key) (low top step : ℤ) (natural : pos 0 ≤ℤ low) (positive : pos 1 ≤ℤ step)
    (room : IsInt32 (top +ℤ step)) where
  target_of-Fits :
      (h : Hpa) → Fits key low top h → (low ≤ℤ target_of step h) × (target_of step h ≤ℤ top)
  unfolding target_of add_i32
  target_of-Fits h f = let above = f.above in let below = f.below in let max = f.max in ground arith

  pub bumped-Fits :
      (h now : Hpa)
      → Fits key low top h
      → Fits key low top now
      → Fits key low top (bumped (target_of step h) now)
  bumped-Fits h now f g = record {
    own = g.own;
    max = g.max;
    above = (target_of-Fits h f).0;
    below = (target_of-Fits h f).1;
  }

  module _ {W E : Type 0} (c : Client W E) (laws : MergeLaws c) where
    abbrev pub Stored : W → Type 0
    Stored w = (h : Hpa) × (c.get_hpa key w ≡ ok h) × Fits key low top h

    abbrev Holds : W → Applier Hpa E → Type 0
    Holds w (holding (ok h)) = Fits key low top h
    Holds w _ = Unit {0}

    pub Stored-rest :
        (w : W) (r : Result E Hpa)
        → Stored w
        → Holds w (holding r)
        → Stored (scale_after_get c step key r w).1
    unfolding scale_after_get
    Stored-rest w (err e) s f = s
    Stored-rest w (ok h) (now, got, g) f = elim (Left-rest c laws step key w h now f.own got) [
      | inl same ↦ (now, same, g)
      | inr new ↦ (bumped (target_of step h) now, new.1, bumped-Fits h now f g)
    ]

    Holds-get : (w : W) → Stored w → Holds w (holding (c.get_hpa key w))
    Holds-get w (h, got, f) = rw got f

    -- What an Apply holds is about the object that it has read, so it survives the others.
    Holds-keep : (w v : W) (a : Applier Hpa E) → Holds w a → Holds v a
    Holds-keep w v entered h = h
    Holds-keep w v (holding (ok x)) h = h
    Holds-keep w v (holding (err e)) h = h
    Holds-keep w v (returned r) h = h

    Scaling-Preserved : Preserved (c.get_hpa key) (scale_after_get c step key) Stored Holds
    Scaling-Preserved = record {
      fresh = λ w s. tt;
      reads = Holds-get;
      ends = λ w r s f. tt;
      keeps = λ w r a s f. Holds-keep w (scale_after_get c step key r w).1 a;
      stores = Stored-rest;
    }

-- Any number of Applies on one HPA, whose Gets and Patches come in any order, some of them refused:
-- if the HPA is found with a floor that is not negative and at most its maximum, and the maximum and
-- the step together fit int32, then in every reachable state the HPA is found, its maximum is
-- unchanged, and its floor is at least the one at the start and at most the maximum.
pub Reach-floor :
    {W E : Type 0} (c : Client W E) (laws : MergeLaws c) (step : ℤ) (key : Key) (w : W) (h : Hpa)
    {s : Race Hpa W E}
    → pos 1 ≤ℤ step
    → c.get_hpa key w ≡ ok h
    → pos 0 ≤ℤ current_of h
    → current_of h ≤ℤ h.max_replicas
    → IsInt32 (h.max_replicas +ℤ step)
    → Scaling c step key w s
    → (h' : Hpa) × (c.get_hpa key s.cluster ≡ ok h')
      × (h'.max_replicas ≡ h.max_replicas)
      × (current_of h ≤ℤ current_of h')
      × (current_of h' ≤ℤ h.max_replicas)
Reach-floor c laws step key w h positive got natural below room r =
    let fits : Fits key (current_of h) h.max_replicas h = record {
      own = laws.get_hpa-key key w h got;
      max = refl;
      above = ground arith;
      below = below;
    } in
    let ((h', found, f), held) =
      Reach-Preserved (c.get_hpa key) (scale_after_get c step key)
        (Scaling-Preserved key _ _ step natural positive room c laws) (h, got, fits) r in
    (h', found, f.max, f.above, f.below)
