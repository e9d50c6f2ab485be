-- ===== src/Common/Outcome.antt =====
-- The value or the error of a Go call that returns both.
pub data Result (E A : Type 0) : Type 0 where
  ok : A → Result E A
  err : E → Result E A
