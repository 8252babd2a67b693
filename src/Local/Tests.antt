-- ===== src/Local/Tests.antt =====
-- Runs of the validation of an assessment, with hundredths for `f64`.
use localoud_ai.Base.{ℕ, false}
use localoud_ai.Core.{RiskLevel}
use localoud_ai.Local.{DifficultyAssessment}

abbrev easy : DifficultyAssessment ℕ
easy = record {
  difficulty = 2;
  confidence = 80;
  reason = "one small file";
  risk = RiskLevel.low;
  needs_plan = false;
  estimated_scope = record { files = 1; loc = 20 };
}
