-- ===== src/Remedy/Races.antt =====
-- Remedies at once on one object, as webhooks run them: an Apply reads the object with Get and then
-- does the rest, which writes, and other Applies may come between the two.
use reliability_lab.Common.{ℕ, ◌≡◌, update, update-all, subst, Option, Result}
use reliability_lab.Remedy.{RemedyError}

-- An Apply: before its Get, with the answer of its Get, or returned.
pub data Applier (A E : Type 0) : Type 0 where
  entered : Applier A E
  holding : Result E A → Applier A E
  returned : Option (RemedyError E) → Applier A E

pub record Race (A W E : Type 0) : Type 0 where
  pub cluster : W
  pub appliers : ℕ → Applier A E

module _ {A W E : Type 0} (read : W → Result E A)
    (rest_of : Result E A → W → Option (RemedyError E) × W) where
  -- The rest of the i-th Apply, after a Get that has answered `r`.
  abbrev pub applied : Race A W E → ℕ → Result E A → Race A W E
  applied s i r =
      let (e, w) = rest_of r s.cluster in
      record { cluster = w; appliers = update s.appliers i (returned e) }

  pub data Step (s : Race A W E) : Race A W E → Type 0 where
    get :
        (i : ℕ)
        → s.appliers i ≡ entered
        → Step s (record s { appliers = update s.appliers i (holding (read s.cluster)) })
    rest : (i : ℕ) (r : Result E A) → s.appliers i ≡ holding r → Step s (applied s i r)

  pub data Reach (w : W) : Race A W E → Type 0 where
    start : Reach w (record { cluster = w; appliers = λ i. entered })
    later : {s t : Race A W E} → Reach w s → Step s t → Reach w t

  -- An invariant: of the cluster, and of each Apply in it. An Apply's part is made by its own steps
  -- and survives those of the others.
  pub record Preserved (Stored : W → Type 0) (Holds : W → Applier A E → Type 0) : Type 0 where
    pub fresh : (w : W) → Stored w → Holds w entered
    pub reads : (w : W) → Stored w → Holds w (holding (read w))
    pub ends :
        (w : W) (r : Result E A)
        → Stored w
        → Holds w (holding r)
        → Holds (rest_of r w).1 (returned (rest_of r w).0)
    pub keeps :
        (w : W) (r : Result E A) (a : Applier A E)
        → Stored w
        → Holds w (holding r)
        → Holds w a
        → Holds (rest_of r w).1 a
    pub stores : (w : W) (r : Result E A) → Stored w → Holds w (holding r) → Stored (rest_of r w).1

  module _ {Stored : W → Type 0} {Holds : W → Applier A E → Type 0}
      (p : Preserved Stored Holds) where
    pub Reach-Preserved :
        {w : W} {s : Race A W E}
        → Stored w
        → Reach w s
        → Stored s.cluster × ((i : ℕ) → Holds s.cluster (s.appliers i))
    Reach-Preserved {w} stored start = (stored, λ i. p.fresh w stored)
    Reach-Preserved stored (later {s} before (get i e)) =
        let (now, all) = Reach-Preserved stored before in
        (now, update-all (Holds s.cluster) s.appliers i _ all (p.reads s.cluster now))
    Reach-Preserved stored (later {s} before (rest i r e)) =
        let (now, all) = Reach-Preserved stored before in
        let own = subst (Holds s.cluster) e (all i) in
        (
          p.stores s.cluster r now own,
          update-all (Holds (rest_of r s.cluster).1) s.appliers i _
              (λ k. p.keeps s.cluster r (s.appliers k) now own (all k))
              (p.ends s.cluster r now own),
        )
