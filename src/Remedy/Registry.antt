-- ===== src/Remedy/Registry.antt =====
-- operator/internal/remedy/remedy.go: the registry, from the kind of a decision to its remedy.
use reliability_lab.Common.{Option, none, some, if◌then◌else◌}
use reliability_lab.Classifier.{Kind, kind_eq}
use reliability_lab.Remedy.{Input, RemedyError, Remedy, no_remedy_registered}

module _ (W E : Type 0) where
  -- The map is a function, `none` where it has no entry.
  pub record Registry : Type 0 where
    pub m : Kind → Option (Remedy W E)

module _ {W E : Type 0} where
  unfoldable pub new_registry : Registry W E
  new_registry = record { m = λ k. none }

  unfoldable pub register : Registry W E → Kind → Remedy W E → Registry W E
  register r k rem = record { m = λ j. if kind_eq j k then some rem else r.m j }

  -- Lookup returns the remedy and whether there is one.
  unfoldable pub lookup_remedy : Registry W E → Kind → Option (Remedy W E)
  lookup_remedy r k = r.m k

  unfoldable pub apply_found : Option (Remedy W E) → Input W E → W → Option (RemedyError E) × W
  apply_found none i w = (some (no_remedy_registered i.decision.kind), w)
  apply_found (some rem) i w = rem i w

  unfoldable pub apply : Registry W E → Input W E → W → Option (RemedyError E) × W
  unfolding apply_found lookup_remedy
  apply r i w = apply_found (lookup_remedy r i.decision.kind) i w
