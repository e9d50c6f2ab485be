-- ===== src/Remedy.antt =====
-- operator/internal/remedy/remedy.go: what a remedy is given, what it returns, and the contract of
-- one. A remedy acts on the cluster `W` through a client and returns an error or none; the logger
-- of the input and the log lines are left out.
pub mod Cluster
pub mod CircuitBreak
pub mod ScaleUp
pub mod Rollback
pub mod Registry
pub mod Races
use reliability_lab.Common.{String, Option, none, some, ◌≡◌, ◌≢◌, refl}
use reliability_lab.Classifier.{Kind, Decision}
use Cluster.{Key, Client}

pub record Input (W E : Type 0) : Type 0 where
  pub client : Client W E
  pub namespace : String
  pub decision : Decision

-- The errors of the remedies, by their fmt.Errorf format: what was tried, on what, and the cause.
pub data RemedyError (E : Type 0) : Type 0 where
  no_remedy_registered : Kind → RemedyError E
  create_flags : Key → E → RemedyError E
  get_flags : Key → E → RemedyError E
  patch_flags : Key → E → RemedyError E
  patch_rollout : Key → E → RemedyError E
  get_hpa_failed : Key → E → RemedyError E
  patch_hpa_failed : Key → E → RemedyError E

-- The Remedy interface: its one method Apply.
abbrev pub Remedy : Type 0 → Type 0 → Type 0
Remedy W E = Input W E → W → Option (RemedyError E) × W

-- The object that a decision names, in the input's namespace.
abbrev pub target_key : {W E : Type 0} → Input W E → Key
target_key i = record { namespace = i.namespace; name = i.decision.target }

-- An error of the client, with the context that a remedy adds; nil stays nil.
abbrev pub wrap : {W E : Type 0} → (E → RemedyError E) → Option E × W → Option (RemedyError E) × W
wrap f (none, w) = (none, w)
wrap f (some e, w) = (some (f e), w)

module _ {W E : Type 0} (f : E → RemedyError E) where
  pub wrap-cluster : (r : Option E × W) → (wrap f r).1 ≡ r.1
  wrap-cluster (none, w) = refl
  wrap-cluster (some e, w) = refl

  pub wrap-eq-none : (r : Option E × W) → (wrap f r).0 ≡ none → r.0 ≡ none
  wrap-eq-none (none, w) h = refl
  wrap-eq-none (some e, w) h = cc

  pub wrap-ne-none : (r : Option E × W) → (wrap f r).0 ≢ none → r.0 ≢ none
  wrap-ne-none (none, w) h = absurd (h refl)
  wrap-ne-none (some e, w) h = λ p. cc
