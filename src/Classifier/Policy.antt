-- ===== src/Classifier/Policy.antt =====
-- The policy of the classifier as a relation between labels and remedies.
use reliability_lab.Common.{texts, ◌≡◌, refl, ◌≢◌, ◌↔◌, ◌⊎◌, inl, inr, String, arith}
use reliability_lab.Classifier.{
  Kind, no_remedy, rollback, scale_up, circuit_break, Labels, label, decide, classify,
}

-- When a remedy acts, and on which object: on the labels severity, service, slo and burn_speed.
abbrev pub Selects : String → String → String → String → Kind → String → Type 0
Selects severity service slo burn no_remedy target = ⊥
Selects severity service slo burn rollback target =
    (severity ≡ "page")
    × (service ≡ "orders")
    × ((burn ≡ "fast") ⊎ (slo ≡ "orders_latency"))
    × (target ≡ "orders-svc")
Selects severity service slo burn scale_up target =
    (severity ≡ "page")
    × (burn ≡ "fast")
    × (((service ≡ "payments") × (target ≡ "payments-svc"))
        ⊎ ((service ≡ "inventory") × (target ≡ "inventory-svc")))
Selects severity service slo burn circuit_break target =
    (severity ≡ "page") × (service ≡ "email-worker") × (target ≡ "orders-svc-flags")

module _ (severity service slo burn : String) where
  decide_sound :
      (k : Kind) (target : String)
      → k ≢ no_remedy
      → (decide severity service slo burn).kind ≡ k
      → (decide severity service slo burn).target ≡ target
      → Selects severity service slo burn k target
  unfolding decide
  decide_sound no_remedy target h e t = absurd (h refl)
  decide_sound k target h e t = grind texts

  decide_complete :
      (k : Kind) (target : String)
      → Selects severity service slo burn k target
      → ((decide severity service slo burn).kind ≡ k)
        × ((decide severity service slo burn).target ≡ target)
  unfolding decide
  decide_complete no_remedy target s = absurd s
  decide_complete rollback target (p, o, inl f, t) = rw (p, o, f, t) (refl, refl)
  decide_complete rollback target (p, o, inr l, t) = rw (p, o, l, t) (ground arith)
  decide_complete scale_up target (p, f, inl (s, t)) = rw (p, f, s, t) (refl, refl)
  decide_complete scale_up target (p, f, inr (s, t)) = rw (p, f, s, t) (refl, refl)
  decide_complete circuit_break target (p, s, t) = rw (p, s, t) (refl, refl)

-- For every remedy that acts and every object name: the classifier decides on that remedy of that
-- object exactly when a rule of the policy selects it.
pub classify-iff-Selects :
    (labels : Labels) (k : Kind) (target : String)
    → k ≢ no_remedy
    → (((classify labels).kind ≡ k) × ((classify labels).target ≡ target))
      ↔ Selects
          (label labels "severity")
          (label labels "service")
          (label labels "slo")
          (label labels "burn_speed")
          k
          target
unfolding classify
classify-iff-Selects labels k target h =
    (λ e. decide_sound _ _ _ _ k target h e.0 e.1, decide_complete _ _ _ _ k target)

-- Whatever the other labels, an alert whose severity is not page gets no remedy.
pub classify_only_page :
    (labels : Labels) → label labels "severity" ≢ "page" → (classify labels).kind ≡ no_remedy
unfolding classify decide
classify_only_page labels h = grind texts
