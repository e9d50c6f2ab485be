-- ===== src/System/Calls/Brake.antt =====
-- The flag that a remedy has set, while the calls of any webhooks interleave.
use reliability_lab.Common.{
  ℕ, ◌≡◌, refl, ap, subst, ◌∙◌, inl, inr, List, Result, ok, err, Option, none,
}
use reliability_lab.Classifier.{Kind, no_remedy, rollback, scale_up, circuit_break, classify}
use reliability_lab.Classifier.Policy.{classify-iff-Selects}
use reliability_lab.Dedupe.{Dedupe}
use reliability_lab.Dedupe.Clock.{Time}
use reliability_lab.Remedy.Cluster.{Client, ConfigMap, Key}
use reliability_lab.Remedy.{RemedyError, target_key}
use reliability_lab.Remedy.CircuitBreak.{flag_of, flag_value_paused, after_get}
use reliability_lab.Remedy.CircuitBreak.Races.Stays.{Outcome, after_get-Outcome}
use reliability_lab.Server.Payload.{Alert}
use reliability_lab.Manager.{Flags}
use reliability_lab.System.Dispatch.{input_for}
use reliability_lab.System.StaysPaused.{
  flags_key, IsPaused, rollback-config_map, scale_after_get-config_map,
}
use reliability_lab.System.Calls.{
  Handler, serving, scaling, braking, Calls, begin, finish, step, moved, Steps, started, ApiLaws,
}
use reliability_lab.System.Calls.Preserves.{Preserved, Kept, moved-Kept, Steps-Kept, started-Kept}

-- The classifier names no ConfigMap but the flag's.
brakes_flags :
    {W E : Type 0} (client : Client W E) (flags : Flags) (a : Alert)
    → (classify a.labels).kind ≡ circuit_break
    → target_key (input_for client flags a) ≡ flags_key
brakes_flags client flags a e =
    let (page, worker, name) =
      (classify-iff-Selects a.labels circuit_break (classify a.labels).target (λ c. cc)).0
        (e, refl) in
    ap (λ n. record { namespace = "reliability-lab"; name = n }) name

module _ {W E : Type 0} (client : Client W E) (laws : ApiLaws client) (flags : Flags) where
  abbrev IsFound : W → Type 0
  IsFound w = (cm : ConfigMap) × (client.get_config_map flags_key w ≡ ok cm)

  -- What is there of the flag stays.
  abbrev Grows : W → W → Type 0
  Grows u w = (IsFound u → IsFound w) × (IsPaused client u → IsPaused client w)

  -- A circuit breaker is at the ConfigMap of the flag; what it has read there is still true.
  abbrev OnFlags : W → Handler E → Type 0
  OnFlags w (braking now rest key (ok cm)) =
      (key ≡ flags_key)
      × (cm.key ≡ flags_key)
      × IsFound w
      × (flag_of cm ≡ flag_value_paused → IsPaused client w)
  OnFlags w (braking now rest key (err e)) = key ≡ flags_key
  OnFlags w _ = Unit {0}

  OnFlags-Grows : (u w : W) (h : Handler E) → Grows u w → OnFlags u h → OnFlags w h
  OnFlags-Grows u w (serving h) grows o = o
  OnFlags-Grows u w (scaling now rest key r) grows o = o
  OnFlags-Grows u w (braking now rest key (err e)) grows o = o
  OnFlags-Grows u w (braking now rest key (ok cm)) (found, set) (own, at_key, f, p) =
      (own, at_key, found f, (λ e. set (p e)))

  Grows-same :
      (u w : W) → client.get_config_map flags_key w ≡ client.get_config_map flags_key u → Grows u w
  Grows-same u w same = ((λ f. (f.0, same ∙ f.1)), (λ p. (p.0, same ∙ p.1, p.2)))

  Grows-Outcome :
      (w : W) (out : Option (RemedyError E) × W)
      → Outcome client laws.config_maps flags_key w out
      → Grows w out.1
  Grows-Outcome w (e, v) (inl (bad, same)) =
      Grows-same w v (ap (client.get_config_map flags_key) same)
  Grows-Outcome w (e, v) (inr (done, set, others)) = ((λ f. (set.0, set.1)), (λ p. set))

  -- The rest of a circuit breaker.
  braking-Outcome :
      (now : Time) (rest : List Alert) (key : Key) (r : Result E ConfigMap) (w : W)
      → OnFlags w (braking now rest key r)
      → Outcome client laws.config_maps flags_key w (after_get client key r w)
  braking-Outcome now rest key (err e) w own =
      rw own (after_get-Outcome client laws.config_maps flags_key (err e) w tt)
  braking-Outcome now rest key (ok cm) w (own, at_key, f, p) =
      rw own (after_get-Outcome client laws.config_maps flags_key (ok cm) w (at_key, f, p))

  finish-Grows : (h : Handler E) (w : W) → OnFlags w h → Grows w (finish client flags h w).1
  unfolding finish
  finish-Grows (serving h) w o = Grows-same w w refl
  finish-Grows (scaling now rest key r) w o =
      Grows-same w _ (scale_after_get-config_map client laws.frame flags flags_key _ key r w)
  finish-Grows (braking now rest key r) w o = Grows-Outcome w _ (braking-Outcome now rest key r w o)

  finish-OnFlags : (h : Handler E) (w v : W) → OnFlags w h → OnFlags v (finish client flags h w).0
  unfolding finish
  finish-OnFlags (serving h) w v o = tt
  finish-OnFlags (scaling now rest key r) w v o = tt
  finish-OnFlags (braking now rest key r) w v o = tt

  begin-Grows :
      (k : Kind) (now : Time) (a : Alert) (rest : List Alert) (w : W)
      → Grows w (begin client flags k now a rest w).1
  unfolding begin
  begin-Grows no_remedy now a rest w = Grows-same w w refl
  begin-Grows rollback now a rest w =
      Grows-same w _ (rollback-config_map client laws.frame flags flags_key a w)
  begin-Grows scale_up now a rest w = Grows-same w w refl
  begin-Grows circuit_break now a rest w = Grows-same w w refl

  read-OnFlags :
      (key : Key) (now : Time) (rest : List Alert) (w : W) (r : Result E ConfigMap)
      → key ≡ flags_key
      → client.get_config_map key w ≡ r
      → OnFlags w (braking now rest key r)
  read-OnFlags key now rest w (err e) own got = own
  read-OnFlags key now rest w (ok cm) own got =
      let found : client.get_config_map flags_key w ≡ ok cm =
        subst (λ k. client.get_config_map k w ≡ ok cm) own got in
      (
        own,
        laws.config_maps.get_config_map-key flags_key w cm found,
        (cm, found),
        (λ set. (cm, found, set)),
      )

  begin-OnFlags :
      (k : Kind) (now : Time) (a : Alert) (rest : List Alert) (w : W)
      → (classify a.labels).kind ≡ k
      → OnFlags (begin client flags k now a rest w).1 (begin client flags k now a rest w).0
  unfolding begin
  begin-OnFlags no_remedy now a rest w e = tt
  begin-OnFlags rollback now a rest w e = tt
  begin-OnFlags scale_up now a rest w e = tt
  begin-OnFlags circuit_break now a rest w e =
      read-OnFlags _ now rest w _ (brakes_flags client flags a e) refl

  Grows-then : (u w v : W) → Grows w v → Grows u w → Grows u v
  Grows-then u w v second first = ((λ f. second.0 (first.0 f)), (λ p. second.1 (first.1 p)))

  calls-Grows : (u : W) → Preserved client flags (Grows u) OnFlags
  calls-Grows u = record {
    serves = λ w h. tt;
    begins = λ k now a rest w e grown.
        let grows = begin-Grows k now a rest w in
        (
          Grows-then u w _ grows grown,
          begin-OnFlags k now a rest w e,
          (λ g. OnFlags-Grows w _ g grows),
        );
    finishes = λ h w o grown.
        let grows = finish-Grows h w o in
        (Grows-then u w _ grows grown, finish-OnFlags h w _ o, (λ g. OnFlags-Grows w _ g grows));
  }

  reached-Kept :
      {clock : Time} {d : Dedupe} {w : W} {s : Calls W E}
      → Steps client flags (started clock d w) s
      → Kept client flags (Grows w) OnFlags (calls-Grows w) s
  reached-Kept {clock} {d} {w} run =
      Steps-Kept client flags (Grows w) OnFlags (calls-Grows w) run (
        started-Kept client flags (Grows w) OnFlags (calls-Grows w) clock d w (Grows-same w w refl))

  -- From a state that is reached on, the flag stays set.
  pub calls_keep_brake :
      {clock : Time} {d : Dedupe} {w : W} {s t : Calls W E}
      → Steps client flags (started clock d w) s
      → IsPaused client s.cluster
      → Steps client flags s t
      → IsPaused client t.cluster
  calls_keep_brake {s = s} reached p run =
      (Steps-Kept client flags (Grows s.cluster) OnFlags (calls-Grows s.cluster) run
          (Grows-same s.cluster s.cluster refl, (reached-Kept reached).1)).0.1
        p

  -- The last call of a circuit breaker whose remedy returns nil.
  braked-IsPaused :
      (s : Calls W E) (i : ℕ) (now : Time) (rest : List Alert) (key : Key) (r : Result E ConfigMap)
      → s.handlers i ≡ braking now rest key r
      → (after_get client key r s.cluster).0 ≡ none
      → OnFlags s.cluster (s.handlers i)
      → IsPaused client (moved client flags s i).cluster
  unfolding step finish
  braked-IsPaused s i now rest key r here done o = rw here (
      set_by (after_get client key r s.cluster) done
        (braking-Outcome now rest key r s.cluster (subst (OnFlags s.cluster) here o)))
    where
      set_by :
          (out : Option (RemedyError E) × W)
          → out.0 ≡ none
          → Outcome client laws.config_maps flags_key s.cluster out
          → IsPaused client out.1
      set_by (e, v) none_yet (inl (bad, same)) = absurd (bad none_yet)
      set_by (e, v) none_yet (inr (good, set, others)) = set

  -- The brake of the operator that main builds, with each call of the API as a step of its own: under
  -- the laws of creates and merge patches, where a write to one object leaves the others alone, in a
  -- state that the operator reaches a handler is inside a circuit breaker whose remedy is about to
  -- return nil. After that step, and after any further steps of any webhooks, whose Gets, Creates and
  -- Patches come in any order, some of them refused, the flag says "false" in the cluster.
  pub calls_brake :
      {clock : Time} {d : Dedupe} {w : W} {s t : Calls W E} (i : ℕ) (now : Time) (rest : List Alert)
      (key : Key) (r : Result E ConfigMap)
      → Steps client flags (started clock d w) s
      → s.handlers i ≡ braking now rest key r
      → (after_get client key r s.cluster).0 ≡ none
      → Steps client flags (moved client flags s i) t
      → IsPaused client t.cluster
  calls_brake {w = w} {s = s} i now rest key r reached here done run =
      let held = reached-Kept reached in
      let p = braked-IsPaused s i now rest key r here done (held.1 i) in
      let u : W = (moved client flags s i).cluster in
      let moved_on = moved-Kept client flags (Grows w) OnFlags (calls-Grows w) s i held in
      (Steps-Kept client flags (Grows u) OnFlags (calls-Grows u) run
          (Grows-same u u refl, moved_on.1)).0.1
        p
