-- ===== src/Services/Cleanup.antt =====
-- services/*/main.go: what the mains defer, at each of their ends.
use reliability_lab.Common.{◌≡◌, refl, ◌⊎◌, inl, inr, Bool, List, [], ◌∷◌, Option, none, some, All}
use reliability_lab.Services.Startup.{
  Deferred, stop_signals, shut_down_tracing, close_conn, drain_nats, stop_consumer, Run,
  payments_main, inventory_main, email_main,
}

abbrev pub AllNil : {E : Type 0} → List (Option E) → Type 0
AllNil errors = All (λ e. e ≡ none) errors

-- A process that has run all the deferred functions, after calls that all succeeded, or none of them.
abbrev pub EndsClean : {E : Type 0} → List (Option E) → List Deferred → Run → Type 0
EndsClean errors all run =
    (AllNil errors × (run.exit ≡ 0) × (run.deferred ≡ all))
    ⊎ ((¬ AllNil errors) × (run.exit ≡ 1) × (run.deferred ≡ []))

payments_ends :
    {E : Type 0} (tracing dial listen : Option E) (ready_first : Bool)
    → EndsClean
        (tracing ∷ dial ∷ listen ∷ [])
        (close_conn ∷ shut_down_tracing ∷ stop_signals ∷ [])
        (payments_main tracing dial listen ready_first)
unfolding payments_main
payments_ends (some e) dial listen b = inr ((λ h. let bad = h.0 in cc), refl, refl)
payments_ends none (some e) listen b = inr ((λ h. let bad = h.1.0 in cc), refl, refl)
payments_ends none none (some e) b = inr ((λ h. let bad = h.1.1.0 in cc), refl, refl)
payments_ends none none none b = inl ((refl, (refl, (refl, tt))), refl, refl)

inventory_ends :
    {E : Type 0} (tracing listen : Option E) (ready_first : Bool)
    → EndsClean
        (tracing ∷ listen ∷ [])
        (shut_down_tracing ∷ stop_signals ∷ [])
        (inventory_main tracing listen ready_first)
unfolding inventory_main
inventory_ends (some e) listen b = inr ((λ h. let bad = h.0 in cc), refl, refl)
inventory_ends none (some e) b = inr ((λ h. let bad = h.1.0 in cc), refl, refl)
inventory_ends none none b = inl ((refl, (refl, tt)), refl, refl)

email_ends :
    {E : Type 0} (tracing nats jetstream stream consumer consume : Option E)
    → EndsClean
        (tracing ∷ nats ∷ jetstream ∷ stream ∷ consumer ∷ consume ∷ [])
        (stop_consumer ∷ drain_nats ∷ shut_down_tracing ∷ stop_signals ∷ [])
        (email_main tracing nats jetstream stream consumer consume)
unfolding email_main
email_ends (some e) n j s c u = inr ((λ h. let bad = h.0 in cc), refl, refl)
email_ends none (some e) j s c u = inr ((λ h. let bad = h.1.0 in cc), refl, refl)
email_ends none none (some e) s c u = inr ((λ h. let bad = h.1.1.0 in cc), refl, refl)
email_ends none none none (some e) c u = inr ((λ h. let bad = h.1.1.1.0 in cc), refl, refl)
email_ends none none none none (some e) u = inr ((λ h. let bad = h.1.1.1.1.0 in cc), refl, refl)
email_ends none none none none none (some e) =
    inr ((λ h. let bad = h.1.1.1.1.1.0 in cc), refl, refl)
email_ends none none none none none none =
    inl ((refl, (refl, (refl, (refl, (refl, (refl, tt)))))), refl, refl)

-- payments-svc, inventory-svc and email-worker: where every call of main that may fail succeeds, the
-- process ends with code 0 and has run all the functions that main has deferred, the last one first;
-- where some call fails, it ends with code 1 and has run none of them.
pub mains-EndsClean :
    {E : Type 0} (tracing dial listen nats jetstream stream consumer consume : Option E)
    (ready_first : Bool)
    → EndsClean
        (tracing ∷ dial ∷ listen ∷ [])
        (close_conn ∷ shut_down_tracing ∷ stop_signals ∷ [])
        (payments_main tracing dial listen ready_first)
      × EndsClean
          (tracing ∷ listen ∷ [])
          (shut_down_tracing ∷ stop_signals ∷ [])
          (inventory_main tracing listen ready_first)
      × EndsClean
          (tracing ∷ nats ∷ jetstream ∷ stream ∷ consumer ∷ consume ∷ [])
          (stop_consumer ∷ drain_nats ∷ shut_down_tracing ∷ stop_signals ∷ [])
          (email_main tracing nats jetstream stream consumer consume)
mains-EndsClean tracing dial listen nats jetstream stream consumer consume ready_first = (
  payments_ends tracing dial listen ready_first,
  inventory_ends tracing listen ready_first,
  email_ends tracing nats jetstream stream consumer consume,
)
