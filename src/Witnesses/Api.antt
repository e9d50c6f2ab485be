-- ===== src/Witnesses/Api.antt =====
-- The in-memory cluster with the merge patches of the API server.
use reliability_lab.Common.{◌≡◌, ◌≢◌, refl, sym, ◌∙◌, ap, inl, inr, Bool-cases, Result, ok, err}
use reliability_lab.Remedy.Cluster.{Client, ConfigMap, Hpa, Key}
use reliability_lab.System.Calls.{ApiLaws}
use reliability_lab.Witnesses.Fixtures.{
  World, ClusterError, cluster, create, same_key, same_key-eq, find_config_map, find_hpa,
  find_hpa-key,
}
use reliability_lab.Witnesses.Races
use reliability_lab.Witnesses.Races.{merge, store_merged}
use reliability_lab.Witnesses.Brakes
use reliability_lab.Witnesses.Brakes.{store_flag}

abbrev pub api : Client World ClusterError
api = record cluster {
  patch_config_map = λ base cm w. store_flag (find_config_map cm.key w.config_maps) cm w;
  patch_hpa = λ base h w. store_merged (find_hpa h.key w.hpas) base h w;
}

merged-config_maps :
    (r : Result ClusterError Hpa) (base h : Hpa) (w : World)
    → (store_merged r base h w).1.config_maps ≡ w.config_maps
merged-config_maps (err e) base h w = refl
merged-config_maps (ok now) base h w = refl

flagged-hpas :
    (r : Result ClusterError ConfigMap) (cm : ConfigMap) (w : World)
    → (store_flag r cm w).1.hpas ≡ w.hpas
flagged-hpas (err e) cm w = refl
flagged-hpas (ok now) cm w = refl

created-hpas :
    (r : Result ClusterError ConfigMap) (cm : ConfigMap) (w : World)
    → (create r cm w).1.hpas ≡ w.hpas
created-hpas (err e) cm w = refl
created-hpas (ok old) cm w = refl

merged-others :
    (k : Key) (r : Result ClusterError Hpa) (base h : Hpa) (w : World)
    → r ≡ find_hpa h.key w.hpas
    → k ≢ h.key
    → find_hpa k (store_merged r base h w).1.hpas ≡ find_hpa k w.hpas
unfolding find_hpa
merged-others k (err e) base h w got other = refl
merged-others k (ok now) base h w got other = elim (Bool-cases (same_key now.key k)) [
  | inl same ↦
      absurd (other (sym (same_key-eq now.key k same) ∙ find_hpa-key h.key w.hpas now (sym got)))
  | inr away ↦ rw away refl
]

pub api-ApiLaws : ApiLaws api
api-ApiLaws = record {
  config_maps = record {
    get_config_map-key = Brakes.merging-MergeLaws.get_config_map-key;
    created = Brakes.merging-MergeLaws.created;
    created_fresh = Brakes.merging-MergeLaws.created_fresh;
    merged = Brakes.merging-MergeLaws.merged;
    refused_create = Brakes.merging-MergeLaws.refused_create;
    refused_patch = Brakes.merging-MergeLaws.refused_patch;
  };
  hpas = record {
    get_hpa-key = Races.merging-MergeLaws.get_hpa-key;
    merged = Races.merging-MergeLaws.merged;
    refused = Races.merging-MergeLaws.refused;
  };
  frame = record {
    patch_hpa-config_map =
        λ k base h w. ap (find_config_map k) (merged-config_maps (find_hpa h.key w.hpas) base h w);
    patch_status-config_map = λ k gvk target type body w. refl;
  };
  create_config_map-hpa =
      λ k cm w. ap (find_hpa k) (created-hpas (find_config_map cm.key w.config_maps) cm w);
  patch_config_map-hpa =
      λ k base cm w. ap (find_hpa k) (flagged-hpas (find_config_map cm.key w.config_maps) cm w);
  patch_status-hpa = λ k gvk target type body w. refl;
  patch_hpa-hpa = λ k base h w. merged-others k (find_hpa h.key w.hpas) base h w refl;
}
