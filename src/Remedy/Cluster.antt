-- ===== src/Remedy/Cluster.antt =====
-- The Kubernetes client that controller-runtime gives the operator (client.Client). It is not part
-- of this repository: its operations are a record over an unknown cluster state `W` and unknown
-- errors `E`, and what the remedies rely on is the record of laws below. A read leaves the cluster
-- as it is. The objects keep the fields that the remedies read or write.
pub use reliability_lab.Common.{Result, ok, err}
use reliability_lab.Common.{String, Option, none, Bool, ◌≡◌, ◌≢◌}
use reliability_lab.Common.Int.{ℤ}
use reliability_lab.Common.Dict.{Dict}

-- types.NamespacedName.
pub record Key : Type 0 where
  pub namespace : String
  pub name : String

-- corev1.ConfigMap; a nil Data map is `none`.
pub record ConfigMap : Type 0 where
  pub key : Key
  pub entries : Option (Dict String)

-- autoscalingv2.HorizontalPodAutoscaler; both numbers are int32, and MinReplicas may be nil.
pub record Hpa : Type 0 where
  pub key : Key
  pub min_replicas : Option ℤ
  pub max_replicas : ℤ

-- schema.GroupVersionKind.
pub record GroupVersionKind : Type 0 where
  pub group : String
  pub version : String
  pub kind : String

pub data PatchType : Type 0 where
  merge_patch : PatchType

-- `patch_config_map base cm` is Patch(ctx, cm, client.MergeFrom(base)).
pub record Client (W E : Type 0) : Type 0 where
  pub is_not_found : E → Bool
  pub get_config_map : Key → W → Result E ConfigMap
  pub create_config_map : ConfigMap → W → Option E × W
  pub patch_config_map : ConfigMap → ConfigMap → W → Option E × W
  pub get_hpa : Key → W → Result E Hpa
  pub patch_hpa : Hpa → Hpa → W → Option E × W
  pub patch_status : GroupVersionKind → Key → PatchType → String → W → Option E × W

-- What the API server documents of ConfigMaps and HPAs while nobody else writes: an object is
-- found under its own key, a successful create makes it readable, a successful merge patch from
-- the stored object stores the modified one, and a write that is refused changes nothing.
pub record Laws {W E : Type 0} (c : Client W E) : Type 0 where
  pub get_config_map-key :
      (k : Key) (w : W) (cm : ConfigMap) → c.get_config_map k w ≡ ok cm → cm.key ≡ k
  pub created :
      (cm : ConfigMap) (w : W)
      → (c.create_config_map cm w).0 ≡ none
      → c.get_config_map cm.key (c.create_config_map cm w).1 ≡ ok cm
  pub patched :
      (base cm : ConfigMap) (w : W)
      → c.get_config_map cm.key w ≡ ok base
      → (c.patch_config_map base cm w).0 ≡ none
      → c.get_config_map cm.key (c.patch_config_map base cm w).1 ≡ ok cm
  pub get_hpa-key : (k : Key) (w : W) (h : Hpa) → c.get_hpa k w ≡ ok h → h.key ≡ k
  pub patched_hpa :
      (base h : Hpa) (w : W)
      → c.get_hpa h.key w ≡ ok base
      → (c.patch_hpa base h w).0 ≡ none
      → c.get_hpa h.key (c.patch_hpa base h w).1 ≡ ok h
  pub refused_create :
      (cm : ConfigMap) (w : W)
      → (c.create_config_map cm w).0 ≢ none
      → (c.create_config_map cm w).1 ≡ w
  pub refused_patch :
      (base cm : ConfigMap) (w : W)
      → (c.patch_config_map base cm w).0 ≢ none
      → (c.patch_config_map base cm w).1 ≡ w
  pub refused_patch_hpa :
      (base h : Hpa) (w : W) → (c.patch_hpa base h w).0 ≢ none → (c.patch_hpa base h w).1 ≡ w
