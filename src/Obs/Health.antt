-- ===== src/Obs/Health.antt =====
-- pkg/obs/obs.go: the ready and live flags, and the routes of Mux that show them. Both flags are
-- atomic, so each operation is one step. The metrics route is promhttp's.
use reliability_lab.Common.{
  ℕ, String, Bool, true, false, if◌then◌else◌, ◌≡◌, refl, ◌↔◌, List, [], ◌∷◌, arith, ◌≢◌, All,
}

pub record Health : Type 0 where
  pub ready : Bool
  pub live : Bool

unfoldable pub new_health : Health
new_health = record { ready = false; live = true }

pub data Op : Type 0 where
  set_ready set_not_ready set_down : Op

-- Ready, NotReady and Down.
unfoldable pub apply_op : Op → Health → Health
apply_op set_ready h = record h { ready = true }
apply_op set_not_ready h = record h { ready = false }
apply_op set_down h = record h { live = false }

pub record Page : Type 0 where
  pub status : ℕ
  pub body : String

-- The handler of /healthz.
unfoldable pub healthz : Health → Page
healthz h =
    if h.live then record { status = 200; body = "ok" } else record { status = 503; body = "" }

-- The handler of /readyz.
unfoldable pub readyz : Health → Page
readyz h =
    if h.ready then record { status = 200; body = "ready" } else record { status = 503; body = "" }

unfoldable pub run_ops : List Op → Health → Health
run_ops [] h = h
run_ops (o ∷ ops) h = run_ops ops (apply_op o h)

-- The last operation on readiness decides it.
abbrev pub last_ready : List Op → Bool → Bool
last_ready [] b = b
last_ready (set_ready ∷ ops) b = last_ready ops true
last_ready (set_not_ready ∷ ops) b = last_ready ops false
last_ready (set_down ∷ ops) b = last_ready ops b

run_ops-ready : (ops : List Op) (h : Health) → (run_ops ops h).ready ≡ last_ready ops h.ready
unfolding run_ops apply_op
run_ops-ready [] h = refl
run_ops-ready (set_ready ∷ ops) h = run_ops-ready ops (record h { ready = true })
run_ops-ready (set_not_ready ∷ ops) h = run_ops-ready ops (record h { ready = false })
run_ops-ready (set_down ∷ ops) h = run_ops-ready ops (record h { live = false })

run_ops-live :
    (ops : List Op) (h : Health) → All (λ o. o ≢ set_down) ops → (run_ops ops h).live ≡ h.live
unfolding run_ops apply_op
run_ops-live [] h k = refl
run_ops-live (set_ready ∷ ops) h (n, k) = run_ops-live ops (record h { ready = true }) k
run_ops-live (set_not_ready ∷ ops) h (n, k) = run_ops-live ops (record h { ready = false }) k
run_ops-live (set_down ∷ ops) h (n, k) = absurd (n refl)

-- After any operations without Down, a fresh Health is live, so /healthz answers 200, and /readyz
-- answers 200 exactly when the last of Ready and NotReady was Ready.
pub run_ops-pages :
    (ops : List Op)
    → All (λ o. o ≢ set_down) ops
    → ((healthz (run_ops ops new_health)).status ≡ 200)
      × (((readyz (run_ops ops new_health)).status ≡ 200) ↔ (last_ready ops false ≡ true))
unfolding healthz readyz new_health
run_ops-pages ops k = ground (
  arith,
  run_ops-live ops (record { ready = false; live = true }) k,
  run_ops-ready ops (record { ready = false; live = true }),
)
