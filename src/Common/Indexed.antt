-- ===== src/Common/Indexed.antt =====
-- Things by their number, such as handlers: the change of one of them.
use Prim.Native.Nat.{ℕ}
use mathlib.Core.Logic.{inl, inr}
use reliability_lab.Common.Tests.{◌==◌, Bool-cases, if◌then◌else◌}

module _ {A : Type 0} where
  abbrev pub update : (ℕ → A) → ℕ → A → ℕ → A
  update f i a j = if i == j then a else f j

  pub update-all :
      (P : A → Type 0) (f : ℕ → A) (i : ℕ) (a : A)
      → ((k : ℕ) → P (f k))
      → P a
      → (j : ℕ) → P (update f i a j)
  update-all P f i a all new j = elim (Bool-cases (i == j)) [
    | inl e ↦ rw e new
    | inr e ↦ rw e (all j)
  ]
