-- ===== src/Knowledge/Facts.antt =====
-- internal/knowledge/facts.go.
pub mod Laws
use kaf_claw.Base.{
  ℤ, pos, ◌+ℤ◌, leb_ℤ, eqb_ℤ, is_nonpos, Text, text_eq, Bool, false, ◌&&◌, Option, none, some,
  if◌then◌else◌,
}
use kaf_claw.Knowledge.Contracts.{FactPayload}

pub record FactState : Type 0 where
  pub fact_id : Text
  pub subject : Text
  pub predicate : Text
  pub object : Text
  pub version : ℤ

pub data FactStatus : Type 0 where
  accepted stale conflict : FactStatus

pub data FactReason : Type 0 where
  invalid_version new_fact_must_start_at_v1 new_fact sequential_update : FactReason
  duplicate_or_stale version_regression_content_mismatch : FactReason
  version_gap : ℤ → ℤ → FactReason

pub record FactApplyResult : Type 0 where
  pub status : FactStatus
  pub reason : FactReason

abbrev pub result : FactStatus → FactReason → FactApplyResult
result s r = record { status = s; reason = r }

unfoldable pub same_fact_content : Option FactState → FactPayload → Bool
unfolding text_eq
same_fact_content none p = false
same_fact_content (some f) p =
    text_eq f.subject p.subject && text_eq f.predicate p.predicate && text_eq f.object p.object

unfoldable pub evaluate_fact_apply : Option FactState → FactPayload → FactApplyResult
unfolding same_fact_content
evaluate_fact_apply existing p =
    if is_nonpos p.version then result conflict invalid_version else elim existing [
      | none ↦
          if eqb_ℤ p.version (pos 1)
          then result accepted new_fact
          else result conflict new_fact_must_start_at_v1
      | some f ↦
          if eqb_ℤ p.version (f.version +ℤ pos 1)
          then result accepted sequential_update
          else if leb_ℤ p.version f.version
          then (if same_fact_content (some f) p
              then result stale duplicate_or_stale
              else result conflict version_regression_content_mismatch)
          else result conflict (version_gap f.version p.version)
    ]
