-- ===== src/Prelude/Result.antt =====
-- A Go pair of a value and an error, of which one counts.
pub data Result (E A : Type 0) : Type 0 where
  ok : A → Result E A
  err : E → Result E A
