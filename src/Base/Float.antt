-- ===== src/Base/Float.antt =====
-- `f64`, which the checker does not have: the tests that the code makes are an interface. The
-- standard fixes what they compute; nothing here rests on more than that they are functions.
use localoud_ai.Base.Tests.{ltb, leb}
use mathlib.Core.Bool.{Bool}
use Prim.Native.Nat.{ℕ}

pub record F64 : Type 1 where
  pub Carrier : Type 0
  pub is_finite : Carrier → Bool
  pub less : Carrier → Carrier → Bool
  pub at_most : Carrier → Carrier → Bool
  pub zero_f : Carrier
  pub one_f : Carrier
  -- 0.75
  pub three_quarters : Carrier

-- A stand-in for runs: hundredths, with everything from 10000 on read as infinite.
abbrev pub hundredths : F64
hundredths = record {
  Carrier = ℕ;
  is_finite = λ n. ltb n 10000;
  less = ltb;
  at_most = leb;
  zero_f = 0;
  one_f = 100;
  three_quarters = 75;
}
