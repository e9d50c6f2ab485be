-- ===== src/Remedy/CircuitBreak/Engages.antt =====
-- What the circuit breaker leaves in the cluster, by the API server's laws.
use reliability_lab.Common.{
  ◌≡◌, refl, sym, ap, subst, ◌≢◌, ◌∙◌, inl, inr, Bool-cases, String, [], Option, none, some, true,
  false, arith, texts, str_eq, eq_iff, if◌then◌else◌,
}
use reliability_lab.Common.Dict.{
  Dict, lookup, insert, index, value_or, lookup-insert, lookup-insert_self,
}
use reliability_lab.Remedy.Cluster.{Key, Client, ConfigMap, Result, ok, err, Laws}
use reliability_lab.Remedy.{
  Input, create_flags, patch_flags, target_key, wrap-cluster, wrap-eq-none, wrap-ne-none,
}
use reliability_lab.Remedy.CircuitBreak.{
  flag_key, flag_value_paused, entries_of, flag_of, new_flags, engaged, after_get,
  circuit_break_apply,
}

-- The entries that Apply found.
abbrev pub entries_before : {E : Type 0} → Result E ConfigMap → Dict String
entries_before (err e) = []
entries_before (ok cm) = entries_of cm.entries

-- The flag reads as set, and the entries are those before with the flag's entry set.
pub record IsEngaged (before : Dict String) (cm : ConfigMap) : Type 0 where
  pub paused : flag_of cm ≡ flag_value_paused
  pub entry_of :
      (k : String)
      → lookup k (entries_of cm.entries)
        ≡ (if str_eq flag_key k then some flag_value_paused else lookup k before)

-- The flag is set in what the cluster holds under the key.
abbrev pub Engaged : {W E : Type 0} → Client W E → Key → Dict String → W → Type 0
Engaged c key before w = (cm : ConfigMap) × (c.get_config_map key w ≡ ok cm) × IsEngaged before cm

pub set-IsEngaged :
    (key : Key) (m : Dict String)
    → IsEngaged m (record { key = key; entries = some (insert flag_key flag_value_paused m) })
unfolding flag_of index
set-IsEngaged key m = record {
  paused = rw (lookup-insert_self flag_key flag_value_paused m) refl;
  entry_of = λ k. lookup-insert flag_key k flag_value_paused m;
}

value_or-some : (o : Option String) → value_or "" o ≡ "false" → o ≡ some "false"
value_or-some none e = cc
value_or-some (some v) e = ap some e

is_set-IsEngaged :
    (cm : ConfigMap) → flag_of cm ≡ flag_value_paused → IsEngaged (entries_of cm.entries) cm
unfolding flag_of index
is_set-IsEngaged cm e = record {
  paused = e;
  entry_of = λ k. elim (Bool-cases (str_eq flag_key k)) [
    | inl same ↦ rw same (
        rw (← (eq_iff flag_key k).0 same)
          (value_or-some (lookup flag_key (entries_of cm.entries)) e))
    | inr other ↦ rw other refl
  ];
}

module _ {W E : Type 0} (c : Client W E) (laws : Laws c) (key : Key) (w : W) where
  after_get-engages :
      (r : Result E ConfigMap)
      → c.get_config_map key w ≡ r
      → (after_get c key r w).0 ≡ none
      → Engaged c key (entries_before r) (after_get c key r w).1
  unfolding after_get
  after_get-engages (err e) got done = elim (Bool-cases (c.is_not_found e)) [
    | inl missing ↦ rw missing (
        rw (wrap-cluster (create_flags key) (c.create_config_map (new_flags key) w))
          (new_flags key, laws.created (new_flags key) w (created missing), set-IsEngaged key []))
    | inr other ↦ absurd (refused other)
  ]
    where
      created : c.is_not_found e ≡ true → (c.create_config_map (new_flags key) w).0 ≡ none
      created missing = wrap-eq-none (create_flags key) _ (rw missing at done)

      refused : c.is_not_found e ≡ false → ⊥
      refused other = ground (arith, done)
  after_get-engages (ok cm) got done = elim (Bool-cases (str_eq (flag_of cm) flag_value_paused)) [
    | inl set ↦ rw set (cm, got, is_set-IsEngaged cm ((eq_iff _ _).0 set))
    | inr unset ↦ rw unset (
        rw (wrap-cluster (patch_flags key) (c.patch_config_map cm (engaged cm) w))
          (engaged cm, written unset, set-IsEngaged cm.key (entries_of cm.entries)))
  ]
    where
      own : cm.key ≡ key
      own = laws.get_config_map-key key w cm got

      written :
          str_eq (flag_of cm) flag_value_paused ≡ false
          → c.get_config_map key (c.patch_config_map cm (engaged cm) w).1 ≡ ok (engaged cm)
      written unset =
          subst (λ k. c.get_config_map k (c.patch_config_map cm (engaged cm) w).1 ≡ ok (engaged cm))
            own
            (laws.patched cm (engaged cm) w
              (subst (λ k. c.get_config_map k w ≡ ok cm) (sym own) got)
              (wrap-eq-none (patch_flags key) _ (rw unset at done)))

  -- A flag that is set is left alone.
  after_get_set :
      (before : Dict String) (cm : ConfigMap)
      → IsEngaged before cm
      → after_get c key (ok cm) w ≡ (none, w)
  unfolding after_get
  after_get_set before cm e = grind (texts, e.paused)

  after_get-refused :
      (r : Result E ConfigMap) → (after_get c key r w).0 ≢ none → (after_get c key r w).1 ≡ w
  unfolding after_get
  after_get-refused (err e) bad = elim (Bool-cases (c.is_not_found e)) [
    | inl missing ↦ rw missing (
        wrap-cluster (create_flags key) (c.create_config_map (new_flags key) w)
        ∙ laws.refused_create (new_flags key) w
            (wrap-ne-none (create_flags key) _ (rw missing at bad)))
    | inr other ↦ rw other
  ]
  after_get-refused (ok cm) bad = elim (Bool-cases (str_eq (flag_of cm) flag_value_paused)) [
    | inl set ↦ rw set
    | inr unset ↦ rw unset (
        wrap-cluster (patch_flags key) (c.patch_config_map cm (engaged cm) w)
        ∙ laws.refused_patch cm (engaged cm) w (wrap-ne-none (patch_flags key) _ (rw unset at bad)))
  ]

circuit_break_apply_set :
    {W E : Type 0} (i : Input W E) (laws : Laws i.client) (w : W) (before : Dict String)
    (cm : ConfigMap)
    → i.client.get_config_map (target_key i) w ≡ ok cm
    → IsEngaged before cm
    → circuit_break_apply i w ≡ (none, w)
unfolding circuit_break_apply
circuit_break_apply_set i laws w before cm got e =
    rw got (after_get_set i.client laws (target_key i) w before cm e)

module _ {W E : Type 0} (i : Input W E) (laws : Laws i.client) (w : W) where
  -- Under the client's laws: when Apply returns nil, the cluster holds a ConfigMap of the target's
  -- name whose publish_enabled is "false" and whose other entries are those that Apply found there,
  -- or none where the read failed.
  pub circuit_break_apply-Engaged :
      (circuit_break_apply i w).0 ≡ none
      → Engaged i.client
          (target_key i)
          (entries_before (i.client.get_config_map (target_key i) w))
          (circuit_break_apply i w).1
  unfolding circuit_break_apply
  circuit_break_apply-Engaged done = after_get-engages i.client laws (target_key i) w _ refl done

  -- Under the client's laws: after an Apply that returned nil, a second one returns nil and leaves
  -- the cluster as it is.
  pub circuit_break_apply_twice :
      (circuit_break_apply i w).0 ≡ none
      → circuit_break_apply i (circuit_break_apply i w).1 ≡ (none, (circuit_break_apply i w).1)
  circuit_break_apply_twice done =
      let (cm, got, e) = circuit_break_apply-Engaged done in
      circuit_break_apply_set i laws _ _ cm got e

  -- Under the client's laws: when Apply returns an error, the cluster is as it was.
  pub circuit_break_apply-refused :
      (circuit_break_apply i w).0 ≢ none → (circuit_break_apply i w).1 ≡ w
  unfolding circuit_break_apply
  circuit_break_apply-refused bad = after_get-refused i.client laws (target_key i) w _ bad
