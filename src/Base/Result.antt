-- ===== src/Base/Result.antt =====
-- `Result` of the source.

pub data Result (A E : Type 0) : Type 0 where
  done : A → Result A E
  failed : E → Result A E
