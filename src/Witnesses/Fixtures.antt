-- ===== src/Witnesses/Fixtures.antt =====
-- A cluster in memory that meets the laws of the API server, and the objects of the tests.
use reliability_lab.Common.{
  ◌≡◌, refl, ◌≢◌, List, [], ◌∷◌, Option, none, some, Bool, true, false, ◌&&◌, Bool-cases, inl, inr,
  texts, str_eq, eq_refl, Result, ok, err, if◌then◌else◌,
}
use reliability_lab.Common.Int.{pos}
use reliability_lab.Remedy.Cluster.{Key, ConfigMap, Hpa, Client, Laws}

pub data ClusterError : Type 0 where
  not_found already_exists forbidden : ClusterError

pub record World : Type 0 where
  pub config_maps : List ConfigMap
  pub hpas : List Hpa
  pub aborted : List Key

abbrev pub same_key : Key → Key → Bool
same_key a b = str_eq a.namespace b.namespace && str_eq a.name b.name

unfoldable pub find_config_map : Key → List ConfigMap → Result ClusterError ConfigMap
find_config_map k [] = err not_found
find_config_map k (cm ∷ cms) = if same_key cm.key k then ok cm else find_config_map k cms

unfoldable pub find_hpa : Key → List Hpa → Result ClusterError Hpa
find_hpa k [] = err not_found
find_hpa k (h ∷ hs) = if same_key h.key k then ok h else find_hpa k hs

abbrev put_config_map : ConfigMap → World → World
put_config_map cm w = record w { config_maps = cm ∷ w.config_maps }

abbrev pub put_hpa : Hpa → World → World
put_hpa h w = record w { hpas = h ∷ w.hpas }

abbrev pub create : Result ClusterError ConfigMap → ConfigMap → World → Option ClusterError × World
create (err e) cm w = (none, put_config_map cm w)
create (ok old) cm w = (some already_exists, w)

abbrev pub changed :
    {A : Type 0} → Result ClusterError A → World → World → Option ClusterError × World
changed (err e) w w' = (some e, w)
changed (ok old) w w' = (none, w')

abbrev missing : ClusterError → Bool
missing not_found = true
missing already_exists = false
missing forbidden = false

abbrev pub cluster : Client World ClusterError
cluster = record {
  is_not_found = missing;
  get_config_map = λ k w. find_config_map k w.config_maps;
  create_config_map = λ cm w. create (find_config_map cm.key w.config_maps) cm w;
  patch_config_map =
      λ base cm w. changed (find_config_map cm.key w.config_maps) w (put_config_map cm w);
  get_hpa = λ k w. find_hpa k w.hpas;
  patch_hpa = λ base h w. changed (find_hpa h.key w.hpas) w (put_hpa h w);
  patch_status = λ gvk k type body w. (none, record w { aborted = k ∷ w.aborted });
}

pub same_key-eq : (a b : Key) → same_key a b ≡ true → a ≡ b
same_key-eq a b e = grind texts

pub find_config_map-key :
    (k : Key) (cms : List ConfigMap) (cm : ConfigMap) → find_config_map k cms ≡ ok cm → cm.key ≡ k
unfolding find_config_map
find_config_map-key k [] cm e = cc
find_config_map-key k (c ∷ cms) cm e = elim (Bool-cases (same_key c.key k)) [
  | inl s ↦
      let found : ok c ≡ ok cm = rw s at e in
      let own : c.key ≡ k = same_key-eq c.key k s in let this : c ≡ cm = cc in rw (← this) own
  | inr s ↦ find_config_map-key k cms cm (rw s at e)
]

pub find_hpa-key : (k : Key) (hs : List Hpa) (h : Hpa) → find_hpa k hs ≡ ok h → h.key ≡ k
unfolding find_hpa
find_hpa-key k [] h e = cc
find_hpa-key k (g ∷ hs) h e = elim (Bool-cases (same_key g.key k)) [
  | inl s ↦
      let found : ok g ≡ ok h = rw s at e in
      let own : g.key ≡ k = same_key-eq g.key k s in let this : g ≡ h = cc in rw (← this) own
  | inr s ↦ find_hpa-key k hs h (rw s at e)
]

pub find_config_map-put :
    (cm : ConfigMap) (cms : List ConfigMap) → find_config_map cm.key (cm ∷ cms) ≡ ok cm
unfolding find_config_map
find_config_map-put cm cms = rw (eq_refl cm.key.namespace, eq_refl cm.key.name) refl

pub find_hpa-put : (h : Hpa) (hs : List Hpa) → find_hpa h.key (h ∷ hs) ≡ ok h
unfolding find_hpa
find_hpa-put h hs = rw (eq_refl h.key.namespace, eq_refl h.key.name) refl

created :
    (r : Result ClusterError ConfigMap) (cm : ConfigMap) (w : World)
    → (create r cm w).0 ≡ none
    → find_config_map cm.key (create r cm w).1.config_maps ≡ ok cm
created (err e) cm w h = find_config_map-put cm w.config_maps
created (ok old) cm w h = cc

refused_create :
    (r : Result ClusterError ConfigMap) (cm : ConfigMap) (w : World)
    → (create r cm w).0 ≢ none
    → (create r cm w).1 ≡ w
refused_create (err e) cm w h = absurd (h refl)
refused_create (ok old) cm w h = refl

updated :
    {A : Type 0} (r : Result ClusterError A) (w w' : World)
    → (changed r w w').0 ≡ none
    → (changed r w w').1 ≡ w'
updated (err e) w w' h = cc
updated (ok old) w w' h = refl

refused_update :
    {A : Type 0} (r : Result ClusterError A) (w w' : World)
    → (changed r w w').0 ≢ none
    → (changed r w w').1 ≡ w
refused_update (err e) w w' h = refl
refused_update (ok old) w w' h = absurd (h refl)

pub cluster-Laws : Laws cluster
cluster-Laws = record {
  get_config_map-key = λ k w cm. find_config_map-key k w.config_maps cm;
  created = λ cm w. created (find_config_map cm.key w.config_maps) cm w;
  patched = λ base cm w got done.
      rw (updated (find_config_map cm.key w.config_maps) w (put_config_map cm w) done)
        (find_config_map-put cm w.config_maps);
  get_hpa-key = λ k w h. find_hpa-key k w.hpas h;
  patched_hpa = λ base h w got done.
      rw (updated (find_hpa h.key w.hpas) w (put_hpa h w) done) (find_hpa-put h w.hpas);
  refused_create = λ cm w. refused_create (find_config_map cm.key w.config_maps) cm w;
  refused_patch =
      λ base cm w. refused_update (find_config_map cm.key w.config_maps) w (put_config_map cm w);
  refused_patch_hpa = λ base h w. refused_update (find_hpa h.key w.hpas) w (put_hpa h w);
}

abbrev pub flags_key : Key
flags_key = record { namespace = "reliability-lab"; name = "orders-svc-flags" }

abbrev pub payments_key : Key
payments_key = record { namespace = "reliability-lab"; name = "payments-svc" }

-- The flag is on, beside another entry; the HPA of payments-svc has its floor at 2 of 10.
abbrev pub start_world : World
start_world = record {
  config_maps =
      record {
        key = flags_key;
        entries = some (("publish_enabled", "true") ∷ ("owner", "orders") ∷ []);
      }
      ∷ [];
  hpas = record { key = payments_key; min_replicas = some (pos 2); max_replicas = pos 10 } ∷ [];
  aborted = [];
}
