-- ===== src/Remedy/CircuitBreak/Races/Stays.antt =====
-- The flag that several circuit breakers at once leave.
use reliability_lab.Common.{
  ℕ, ◌≡◌, ◌≢◌, refl, sym, subst, ◌∙◌, ◌⊎◌, [], inl, inr, Bool-cases, Option, none, some, str_eq,
  eq_iff, Result, ok, err,
}
use reliability_lab.Remedy.Cluster.{Key, Client, ConfigMap}
use reliability_lab.Remedy.{RemedyError, create_flags, patch_flags, wrap}
use reliability_lab.Remedy.CircuitBreak.{
  entries_of, flag_of, flag_value_paused, new_flags, engaged, after_get,
}
use reliability_lab.Remedy.CircuitBreak.Engages.{set-IsEngaged}
use reliability_lab.Remedy.Races.{
  Applier, entered, holding, returned, Race, Preserved, Reach-Preserved,
}
use reliability_lab.Remedy.CircuitBreak.Races.{MergeLaws, Braking, Paused, SameOthers, Extends}

engaged-SameOthers : (now : ConfigMap) → SameOthers now (engaged now)
engaged-SameOthers now k other =
    (set-IsEngaged now.key (entries_of now.entries)).entry_of k ∙ rw other refl

module _ {W E : Type 0} (c : Client W E) (laws : MergeLaws c) (key : Key) where
  -- What the rest of an Apply has done: an error and no write, or nil and the flag.
  abbrev pub Outcome : W → Option (RemedyError E) × W → Type 0
  Outcome w (e, v) = ((e ≢ none) × (v ≡ w)) ⊎ ((e ≡ none) × Paused c key v × Extends c key w v)

  wrap-Outcome :
      (f : E → RemedyError E) (w : W) (r : Option E × W)
      → (r.0 ≢ none → r.1 ≡ w)
      → (r.0 ≡ none → Paused c key r.1 × Extends c key w r.1)
      → Outcome w (wrap f r)
  wrap-Outcome f w (none, v) refused done = let (set, others) = done refl in inr (refl, set, others)
  wrap-Outcome f w (some e, v) refused done = inl ((λ x. cc), refused (λ x. cc))

  create-Outcome :
      (w : W) → Outcome w (wrap (create_flags key) (c.create_config_map (new_flags key) w))
  create-Outcome w =
      wrap-Outcome (create_flags key) w (c.create_config_map (new_flags key) w)
        (laws.refused_create (new_flags key) w)
        (λ done. (
          (new_flags key, laws.created (new_flags key) w done, (set-IsEngaged key []).paused),
          (λ old got. absurd (laws.created_fresh (new_flags key) old w got done)),
        ))

  patch-Outcome :
      (w : W) (base now : ConfigMap)
      → base.key ≡ key
      → c.get_config_map key w ≡ ok now
      → flag_of base ≢ flag_value_paused
      → Outcome w (wrap (patch_flags key) (c.patch_config_map base (engaged base) w))
  patch-Outcome w base now own got unset =
      wrap-Outcome (patch_flags key) w (c.patch_config_map base (engaged base) w)
        (laws.refused_patch base (engaged base) w)
        (λ done. (
          (engaged now, stored done, (set-IsEngaged now.key (entries_of now.entries)).paused),
          (λ old found.
              let same : now ≡ old = cc in
              (engaged now, stored done, rw (← same) (engaged-SameOthers now))),
        ))
    where
      stored :
          (c.patch_config_map base (engaged base) w).0 ≡ none
          → c.get_config_map key (c.patch_config_map base (engaged base) w).1 ≡ ok (engaged now)
      stored done =
          subst
            (λ k.
              c.get_config_map k (c.patch_config_map base (engaged base) w).1 ≡ ok (engaged now))
            own
            (laws.merged base now w unset (subst (λ k. c.get_config_map k w ≡ ok now) (sym own) got)
              done)

  -- What an Apply relies on after its Get, and what it promises when it has returned.
  abbrev pub Holds : W → Applier ConfigMap E → Type 0
  Holds w entered = Unit {0}
  Holds w (holding (err e)) = Unit {0}
  Holds w (holding (ok cm)) =
      (cm.key ≡ key)
      × ((now : ConfigMap) × (c.get_config_map key w ≡ ok now))
      × (flag_of cm ≡ flag_value_paused → Paused c key w)
  Holds w (returned none) = Paused c key w
  Holds w (returned (some e)) = Unit {0}

  pub after_get-Outcome :
      (r : Result E ConfigMap) (w : W) → Holds w (holding r) → Outcome w (after_get c key r w)
  unfolding after_get
  after_get-Outcome (err e) w held = elim (Bool-cases (c.is_not_found e)) [
    | inl missing ↦ rw missing (create-Outcome w)
    | inr other ↦ rw other (inl ((λ x. cc), refl))
  ]
  after_get-Outcome (ok cm) w (own, (now, got), stays) =
      elim (Bool-cases (str_eq (flag_of cm) flag_value_paused)) [
        | inl set ↦
            rw set (
              inr
                (refl, stays ((eq_iff _ _).0 set), (λ old found. (old, found, (λ k other. refl)))))
        | inr unset ↦
            rw unset (patch-Outcome w cm now own got (λ same. let set = (eq_iff _ _).1 same in cc))
      ]

  Extends-then : {u w v : W} → Extends c key u w → Extends c key w v → Extends c key u v
  Extends-then first second old found =
      let (mid, got, same) = first old found in
      let (cm, got', same') = second mid got in
      (cm, got', (λ k other. same' k other ∙ same k other))

  -- The flag is set by now: what an Apply holds stays so.
  Holds-Paused : (w v : W) (a : Applier ConfigMap E) → Paused c key v → Holds w a → Holds v a
  Holds-Paused w v entered p h = h
  Holds-Paused w v (holding (err e)) p h = h
  Holds-Paused w v (holding (ok cm)) p h = (h.0, (p.0, p.1), (λ set. p))
  Holds-Paused w v (returned none) p h = p
  Holds-Paused w v (returned (some e)) p h = h

  Holds-keep :
      (w : W) (out : Option (RemedyError E) × W) (a : Applier ConfigMap E)
      → Outcome w out
      → Holds w a
      → Holds out.1 a
  Holds-keep w (e, v) a (inl (bad, same)) h = subst (λ u. Holds u a) (sym same) h
  Holds-keep w (e, v) a (inr (done, p, others)) h = Holds-Paused w v a p h

  Holds-end :
      (w : W) (out : Option (RemedyError E) × W) → Outcome w out → Holds out.1 (returned out.0)
  Holds-end w (none, v) (inl (bad, same)) = absurd (bad refl)
  Holds-end w (none, v) (inr (done, p, others)) = p
  Holds-end w (some e, v) o = tt

  Holds-read : (w : W) (r : Result E ConfigMap) → c.get_config_map key w ≡ r → Holds w (holding r)
  Holds-read w (err e) got = tt
  Holds-read w (ok cm) got =
      (laws.get_config_map-key key w cm got, (cm, got), (λ set. (cm, got, set)))

  -- Since the start, a flag that was set has stayed set, and no other entry has changed.
  abbrev Since : W → W → Type 0
  Since u w = (Paused c key u → Paused c key w) × Extends c key u w

  Since-Outcome :
      (u w : W) (out : Option (RemedyError E) × W) → Outcome w out → Since u w → Since u out.1
  Since-Outcome u w (e, v) (inl (bad, same)) since = subst (Since u) (sym same) since
  Since-Outcome u w (e, v) (inr (done, p, others)) since = ((λ q. p), Extends-then since.1 others)

  Braking-Preserved : (u : W) → Preserved (c.get_config_map key) (after_get c key) (Since u) Holds
  Braking-Preserved u = record {
    fresh = λ w since. tt;
    reads = λ w since. Holds-read w (c.get_config_map key w) refl;
    ends = λ w r since held. Holds-end w (after_get c key r w) (after_get-Outcome r w held);
    keeps = λ w r a since held. Holds-keep w (after_get c key r w) a (after_get-Outcome r w held);
    stores = λ w r since held.
        Since-Outcome u w (after_get c key r w) (after_get-Outcome r w held) since;
  }

  -- Under the laws of Create and the merge patch, for any number of Applies on one ConfigMap, whose
  -- Gets, Creates and Patches come in any order, some of them refused: once one of them has returned
  -- nil, or where the flag was set at the start, the flag is set in every state that is reached; and
  -- a ConfigMap that was found at the start is found, with all its other entries as they were.
  pub Braking-Paused :
      {w : W} {s : Race ConfigMap W E}
      → Braking c key w s
      → ((i : ℕ) → s.appliers i ≡ returned none → Paused c key s.cluster)
        × (Paused c key w → Paused c key s.cluster)
        × Extends c key w s.cluster
  Braking-Paused {w} {s} r =
      let (since, all) =
        Reach-Preserved (c.get_config_map key) (after_get c key) (Braking-Preserved w)
          ((λ p. p), (λ old got. (old, got, (λ k other. refl)))) r in
      ((λ i e. subst (Holds s.cluster) e (all i)), since.0, since.1)
