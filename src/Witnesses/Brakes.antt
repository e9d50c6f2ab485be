-- ===== src/Witnesses/Brakes.antt =====
-- Two circuit breakers at once, at the in-memory cluster.
use reliability_lab.Common.{update, ◌≡◌, ◌≢◌, refl, ℕ, some, none, Option, Result, ok, err, [], ◌∷◌}
use reliability_lab.Common.Dict.{insert}
use reliability_lab.Remedy.Cluster.{Client, ConfigMap}
use reliability_lab.Remedy.CircuitBreak.{flag_key, flag_of, entries_of, engaged, after_get}
use reliability_lab.Remedy.CircuitBreak.Engages.{set-IsEngaged}
use reliability_lab.Remedy.CircuitBreak.Races.{MergeLaws, Braking, Paused, Extends}
use reliability_lab.Remedy.CircuitBreak.Races.Stays.{Braking-Paused}
use reliability_lab.Remedy.Races.{
  Race, start, later, get, rest, applied, entered, holding, returned,
}
use reliability_lab.Witnesses.Fixtures.{
  World, ClusterError, cluster, create, find_config_map-put, find_config_map-key, cluster-Laws,
  find_config_map, flags_key, start_world,
}

-- Patch as the API server merges it, for the flag's entry.
abbrev pub flagged : ConfigMap → ConfigMap → ConfigMap
flagged cm now = record now {
  entries = some (insert flag_key (flag_of cm) (entries_of now.entries));
}

abbrev pub store_flag :
    Result ClusterError ConfigMap → ConfigMap → World → Option ClusterError × World
store_flag (err e) cm w = (some e, w)
store_flag (ok now) cm w = (none, record w { config_maps = flagged cm now ∷ w.config_maps })

abbrev pub merging : Client World ClusterError
merging = record cluster {
  patch_config_map = λ base cm w. store_flag (find_config_map cm.key w.config_maps) cm w;
}

refused_flag :
    (r : Result ClusterError ConfigMap) (cm : ConfigMap) (w : World)
    → (store_flag r cm w).0 ≢ none
    → (store_flag r cm w).1 ≡ w
refused_flag (err e) cm w bad = refl
refused_flag (ok now) cm w bad = absurd (bad refl)

merged_flag :
    (r : Result ClusterError ConfigMap) (base now : ConfigMap) (w : World)
    → r ≡ ok now
    → now.key ≡ base.key
    → find_config_map base.key (store_flag r (engaged base) w).1.config_maps ≡ ok (engaged now)
merged_flag (err e) base now w got own = cc
merged_flag (ok found) base now w got own =
    let this : found ≡ now = cc in
    rw (this, (set-IsEngaged base.key (entries_of base.entries)).paused, ← own)
      (find_config_map-put (engaged now) w.config_maps)

create_over :
    (r : Result ClusterError ConfigMap) (cm old : ConfigMap) (w : World)
    → r ≡ ok old
    → (create r cm w).0 ≢ none
create_over (err e) cm old w got = cc
create_over (ok found) cm old w got = λ e. cc

pub merging-MergeLaws : MergeLaws merging
merging-MergeLaws = record {
  get_config_map-key = cluster-Laws.get_config_map-key;
  created = cluster-Laws.created;
  created_fresh = λ cm old w got. create_over (find_config_map cm.key w.config_maps) cm old w got;
  merged = λ base now w unset got done.
      merged_flag (find_config_map base.key w.config_maps) base now w got
        (find_config_map-key base.key w.config_maps now got);
  refused_create = cluster-Laws.refused_create;
  refused_patch = λ base cm w. refused_flag (find_config_map cm.key w.config_maps) cm w;
}

-- The flag is on, and both have read that before either writes.
abbrev on : ConfigMap
on = record {
  key = flags_key;
  entries = some (("publish_enabled", "true") ∷ ("owner", "orders") ∷ []);
}

abbrev idle_race : Race ConfigMap World ClusterError
idle_race = record { cluster = start_world; appliers = λ i. entered }

abbrev reads : ℕ → Race ConfigMap World ClusterError → Race ConfigMap World ClusterError
reads i s = record s {
  appliers = update s.appliers i (holding (merging.get_config_map flags_key s.cluster));
}

abbrev finishes : ℕ → Race ConfigMap World ClusterError → Race ConfigMap World ClusterError
finishes i s = applied (merging.get_config_map flags_key) (after_get merging flags_key) s i (ok on)

abbrev both_braked : Race ConfigMap World ClusterError
both_braked = finishes 1 (finishes 0 (reads 1 (reads 0 idle_race)))

both_braked-Braking : Braking merging flags_key start_world both_braked
unfolding find_config_map
both_braked-Braking =
    let hold : Braking merging flags_key start_world (reads 1 (reads 0 idle_race)) =
      later (later start (get 0 refl)) (get 1 refl) in
    later (later hold (rest 0 (ok on) refl)) (rest 1 (ok on) refl)

Braking-Paused_example :
    ((i : ℕ)
      → both_braked.appliers i ≡ returned none
      → Paused merging flags_key both_braked.cluster)
    × (Paused merging flags_key start_world → Paused merging flags_key both_braked.cluster)
    × Extends merging flags_key start_world both_braked.cluster
Braking-Paused_example = Braking-Paused merging merging-MergeLaws flags_key both_braked-Braking
