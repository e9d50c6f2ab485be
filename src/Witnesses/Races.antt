-- ===== src/Witnesses/Races.antt =====
-- Two scale-ups at once, at the in-memory cluster.
use reliability_lab.Common.{
  ◌≡◌, ◌≢◌, refl, inl, inr, Bool-cases, ◌∷◌, some, none, true, false, arith, ap, ◌∙◌, Bool, Option,
  Result, ok, err, if◌then◌else◌,
}
use reliability_lab.Common.Int.{ℤ, eq_ℤ, eq_ℤ_iff}
use reliability_lab.Remedy.Cluster.{Hpa, Client}
use reliability_lab.Remedy.ScaleUp.{bumped}
use reliability_lab.Remedy.ScaleUp.Races.{MergeLaws}
use reliability_lab.Witnesses.Fixtures.{
  World, ClusterError, cluster, find_hpa, find_hpa-key, find_hpa-put,
}

-- Patch as the API server merges it: the fields that differ between the base and the object.
abbrev pub same_min : Option ℤ → Option ℤ → Bool
same_min none none = true
same_min (some a) (some b) = eq_ℤ a b
same_min _ _ = false

abbrev pub merge : Hpa → Hpa → Hpa → Hpa
merge base h now = record now {
  min_replicas =
      if same_min base.min_replicas h.min_replicas then now.min_replicas else h.min_replicas;
  max_replicas = if eq_ℤ base.max_replicas h.max_replicas then now.max_replicas else h.max_replicas;
}

abbrev pub store_merged : Result ClusterError Hpa → Hpa → Hpa → World → Option ClusterError × World
store_merged (err e) base h w = (some e, w)
store_merged (ok now) base h w = (none, record w { hpas = merge base h now ∷ w.hpas })

abbrev pub merging : Client World ClusterError
merging = record cluster { patch_hpa = λ base h w. store_merged (find_hpa h.key w.hpas) base h w }

same_min-some : (o : Option ℤ) (n : ℤ) → same_min o (some n) ≡ true → o ≡ some n
same_min-some none n e = cc
same_min-some (some a) n e = let same : a ≡ n = ground arith in ap (λ x. some x) same

merge-bumped :
    (base now : Hpa) (n : ℤ)
    → base.min_replicas ≢ some n
    → merge base (bumped n base) now ≡ bumped n now
merge-bumped base now n other =
    let kept : eq_ℤ base.max_replicas base.max_replicas ≡ true =
      (eq_ℤ_iff base.max_replicas base.max_replicas).1 refl in
    elim (Bool-cases (same_min base.min_replicas (some n))) [
      | inl e ↦ absurd (other (same_min-some base.min_replicas n e))
      | inr e ↦ ap (merged_by base now n) e ∙ ap (merged_max now n base.max_replicas) kept
    ]
  where
    merged_max : Hpa → ℤ → ℤ → Bool → Hpa
    merged_max now n m b = record now {
      min_replicas = some n;
      max_replicas = if b then now.max_replicas else m;
    }

    merged_by : Hpa → Hpa → ℤ → Bool → Hpa
    merged_by base now n b = record now {
      min_replicas = if b then now.min_replicas else some n;
      max_replicas =
          if eq_ℤ base.max_replicas base.max_replicas then now.max_replicas else base.max_replicas;
    }

merged :
    (r : Result ClusterError Hpa) (base now : Hpa) (n : ℤ) (w : World)
    → base.min_replicas ≢ some n
    → r ≡ ok now
    → now.key ≡ base.key
    → find_hpa base.key (store_merged r base (bumped n base) w).1.hpas ≡ ok (bumped n now)
merged (err e) base now n w other got own = cc
merged (ok found) base now n w other got own =
    let this : found ≡ now = cc in
    rw (this, merge-bumped base now n other, ← own) (find_hpa-put (bumped n now) w.hpas)

refused :
    (r : Result ClusterError Hpa) (base h : Hpa) (w : World)
    → (store_merged r base h w).0 ≢ none
    → (store_merged r base h w).1 ≡ w
refused (err e) base h w bad = refl
refused (ok now) base h w bad = absurd (bad refl)

pub merging-MergeLaws : MergeLaws merging
merging-MergeLaws = record {
  get_hpa-key = λ k w h. find_hpa-key k w.hpas h;
  merged = λ base now n w other got done.
      merged (find_hpa base.key w.hpas) base now n w other got
        (find_hpa-key base.key w.hpas now got);
  refused = λ base h w. refused (find_hpa h.key w.hpas) base h w;
}
