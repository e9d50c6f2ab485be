-- ===== src/Obs/Trace/Sampling.antt =====
-- pkg/obs/trace.go: samplingRatio. The floats are an interface: an order test on the numbers, and a
-- value that is not a number, of which every test is false (IEEE 754); fmt.Sscanf is an argument.
use reliability_lab.Common.{
  ◌≡◌, refl, ◌⊎◌, inl, inr, Bool, false, Bool-cases, String, Option, none, some, str_eq,
  if◌then◌else◌,
}

pub record Float64 : Type 1 where
  pub F : Type 0
  pub zero_f : F
  pub one_f : F
  pub le_f : F → F → Bool
  pub gt_f : F → F → Bool

module _ (f : Float64) where
  open f use {F, zero_f, one_f, le_f, gt_f}

  -- `scan` is fmt.Sscanf(v, "%f", &r), none where it returns an error.
  unfoldable pub ratio_of : Option F → F
  ratio_of none = one_f
  ratio_of (some r) = if le_f r zero_f then one_f else if gt_f r one_f then one_f else r

  unfoldable pub sampling_ratio : (String → Option F) → String → F
  unfolding ratio_of
  sampling_ratio scan v = if str_eq v "" then one_f else ratio_of (scan v)

  -- Both tests of the ratio fail of it: it is not at most 0, and not above 1.
  abbrev pub PassesTests : F → Type 0
  PassesTests r = (le_f r zero_f ≡ false) × (gt_f r one_f ≡ false)

  ratio_of-passes : (o : Option F) → (ratio_of o ≡ one_f) ⊎ PassesTests (ratio_of o)
  unfolding ratio_of
  ratio_of-passes none = inl refl
  ratio_of-passes (some r) = elim (Bool-cases (le_f r zero_f)) [
    | inl low ↦ inl (rw low)
    | inr low ↦ elim (Bool-cases (gt_f r one_f)) [
      | inl high ↦ inl (rw (low, high))
      | inr high ↦ rw (low, high) (inr (low, high))
    ]
  ]

  -- The sampling ratio is 1, or a value that is not at most 0 and not above 1.
  pub sampling_ratio_range :
      (scan : String → Option F) (v : String)
      → (sampling_ratio scan v ≡ one_f) ⊎ PassesTests (sampling_ratio scan v)
  unfolding sampling_ratio
  sampling_ratio_range scan v = elim (Bool-cases (str_eq v "")) [
    | inl e ↦ rw e (inl refl)
    | inr e ↦ rw e (ratio_of-passes (scan v))
  ]

  -- Every value that the variable scans to, and that is not at most 0 and not above 1, is taken over
  -- as it is; so is one that is not a number, for which both tests are false.
  pub sampling_ratio_passes :
      (scan : String → Option F) (v : String) (r : F)
      → str_eq v "" ≡ false
      → scan v ≡ some r
      → PassesTests r
      → sampling_ratio scan v ≡ r
  unfolding sampling_ratio
  sampling_ratio_passes scan v r ne s p = rw (ne, s) (rw (p.0, p.1) refl)
