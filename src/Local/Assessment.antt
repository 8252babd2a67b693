-- ===== src/Local/Assessment.antt =====
-- Which difficulty assessments are accepted.
use localoud_ai.Base.{len, ◌≡◌, ◌↔◌, ◌≤◌, false, true, ok, arith}
use localoud_ai.Base.Text.{is_blank}
use localoud_ai.Base.Float.{F64}
use localoud_ai.Local.{DifficultyAssessment, validate_assessment}

-- An assessment is accepted exactly if its difficulty is one of the five levels, its confidence a
-- finite number from 0 to 1 and not below 0.75, and its reason neither blank nor over 4000 bytes.
pub validate_assessment_iff :
    (F : F64) (a : DifficultyAssessment F.Carrier)
    → (validate_assessment F a ≡ ok tt) ↔ (
        (1 ≤ a.difficulty)
        × (a.difficulty ≤ 5)
        × (F.is_finite a.confidence ≡ true)
        × (F.at_most F.zero_f a.confidence ≡ true)
        × (F.at_most a.confidence F.one_f ≡ true)
        × (F.less a.confidence F.three_quarters ≡ false)
        × (is_blank a.reason ≡ false)
        × (len a.reason ≤ 4000))
unfolding validate_assessment
validate_assessment_iff F a = (λ h. ground arith, λ h. ground arith)
