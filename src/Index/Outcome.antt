-- ===== src/Index/Outcome.antt =====
-- How the loops of both indexes end: with an answer, with a failed assertion, which ends the program,
-- or with no fuel left.
pub data Outcome (A : Type 0) : Type 0 where
  answer : (a : A) → Outcome A
  failed : Outcome A
  running : Outcome A

unfoldable pub or_else : {A : Type 0} → A → Outcome A → A
or_else default (answer a) = a
or_else default failed = default
or_else default running = default
