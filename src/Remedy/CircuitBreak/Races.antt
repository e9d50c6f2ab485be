-- ===== src/Remedy/CircuitBreak/Races.antt =====
-- CircuitBreak.Apply as the webhooks run it at once on one ConfigMap: a Create or a Patch comes after
-- those of others that have read the same.
pub mod Stays
use reliability_lab.Common.{
  ℕ, ◌≡◌, ◌≢◌, refl, sym, subst, ap, ◌∙◌, ◌⊎◌, String, [], inl, inr, Bool-cases, Option, none, some,
  Bool, true, false, str_eq, texts, eq_iff, Result, ok, err,
}
use reliability_lab.Common.Dict.{lookup}
use reliability_lab.Remedy.Cluster.{Key, Client, ConfigMap}
use reliability_lab.Remedy.{
  RemedyError, create_flags, patch_flags, wrap, wrap-cluster, wrap-eq-none, wrap-ne-none,
}
use reliability_lab.Remedy.CircuitBreak.{
  entries_of, flag_of, flag_key, flag_value_paused, new_flags, engaged, after_get,
}
use reliability_lab.Remedy.CircuitBreak.Engages.{set-IsEngaged}
use reliability_lab.Remedy.Races.{
  Applier, entered, holding, returned, Race, Reach, Preserved, Reach-Preserved,
}

-- What the API server documents of a Create and of a merge patch: a Create stores the object, unless
-- there is one of its name; the patch sets the entries that differ between its two arguments in the object that is stored now,
-- whatever it was computed from; a refused one changes nothing.
pub record MergeLaws {W E : Type 0} (c : Client W E) : Type 0 where
  pub get_config_map-key :
      (k : Key) (w : W) (cm : ConfigMap) → c.get_config_map k w ≡ ok cm → cm.key ≡ k
  pub created :
      (cm : ConfigMap) (w : W)
      → (c.create_config_map cm w).0 ≡ none
      → c.get_config_map cm.key (c.create_config_map cm w).1 ≡ ok cm
  pub created_fresh :
      (cm old : ConfigMap) (w : W)
      → c.get_config_map cm.key w ≡ ok old
      → (c.create_config_map cm w).0 ≢ none
  pub merged :
      (base now : ConfigMap) (w : W)
      → flag_of base ≢ flag_value_paused
      → c.get_config_map base.key w ≡ ok now
      → (c.patch_config_map base (engaged base) w).0 ≡ none
      → c.get_config_map base.key (c.patch_config_map base (engaged base) w).1 ≡ ok (engaged now)
  pub refused_create :
      (cm : ConfigMap) (w : W)
      → (c.create_config_map cm w).0 ≢ none
      → (c.create_config_map cm w).1 ≡ w
  pub refused_patch :
      (base cm : ConfigMap) (w : W)
      → (c.patch_config_map base cm w).0 ≢ none
      → (c.patch_config_map base cm w).1 ≡ w

-- Any number of Applies on the ConfigMap of this key.
abbrev pub Braking : {W E : Type 0} → Client W E → Key → W → Race ConfigMap W E → Type 0
Braking c key = Reach (c.get_config_map key) (after_get c key)

-- The flag says "false" in the cluster.
abbrev pub Paused : {W E : Type 0} → Client W E → Key → W → Type 0
Paused c key w =
    (cm : ConfigMap) × (c.get_config_map key w ≡ ok cm) × (flag_of cm ≡ flag_value_paused)

-- The entries of a ConfigMap but for the flag's are those of another.
abbrev pub SameOthers : ConfigMap → ConfigMap → Type 0
SameOthers old cm =
    (k : String)
    → str_eq flag_key k ≡ false
    → lookup k (entries_of cm.entries) ≡ lookup k (entries_of old.entries)

-- A ConfigMap that is found before is found after, with its other entries.
abbrev pub Extends : {W E : Type 0} → Client W E → Key → W → W → Type 0
Extends c key w v =
    (old : ConfigMap)
    → c.get_config_map key w ≡ ok old
    → (cm : ConfigMap) × (c.get_config_map key v ≡ ok cm) × SameOthers old cm
