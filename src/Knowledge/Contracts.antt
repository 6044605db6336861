-- ===== src/Knowledge/Contracts.antt =====
-- internal/knowledge/contracts.go. A time is a number of nanoseconds, 0 for the zero time.
pub mod Laws
use kaf_claw.Base.{
  ℕ, ℤ, pos, ltb_ℤ, is_nonpos, ◌==◌, Text, lit, text_eq, is_empty, trim_space, to_lower, any, Bool,
  true, false, ◌||◌, not, Option, none, some, List, [], ◌∷◌, if◌then◌else◌,
}

pub data ContractError : Type 0 where
  is_required : Text → ContractError
  unsupported_type : Text → ContractError
  bad_vote : ContractError
  bad_outcome : ContractError
  negative_count : ContractError
  version_not_positive : ContractError

-- `if bad { return err }` in front of what follows.
abbrev pub reject_if : Bool → ContractError → Option ContractError → Option ContractError
reject_if bad e rest = if bad then some e else rest

unfoldable pub is_blank : Text → Bool
is_blank s = is_empty (trim_space s)

pub record Envelope : Type 0 where
  pub schema_version : Text
  pub kind : Text  -- the field `Type`
  pub trace_id : Text
  pub timestamp : ℕ
  pub idempotency_key : Text
  pub claw_id : Text
  pub instance_id : Text

abbrev pub envelope_kinds : List Text
envelope_kinds =
    lit "capabilities"
    ∷ lit "presence"
    ∷ lit "proposal"
    ∷ lit "vote"
    ∷ lit "decision"
    ∷ lit "fact"
    ∷ []

unfoldable pub validate_base : Envelope → Option ContractError
validate_base e = reject_if (is_blank e.schema_version) (is_required (lit "schemaVersion")) (
    reject_if (is_blank e.kind) (is_required (lit "type")) (
      reject_if (is_blank e.trace_id) (is_required (lit "traceId")) (
        reject_if (e.timestamp == 0) (is_required (lit "timestamp")) (
          reject_if (is_blank e.idempotency_key) (is_required (lit "idempotencyKey")) (
            reject_if (is_blank e.claw_id) (is_required (lit "clawId")) (
              reject_if (is_blank e.instance_id) (is_required (lit "instanceId")) (
                reject_if (not (any (text_eq e.kind) envelope_kinds)) (unsupported_type e.kind)
                  none)))))))

pub record ProposalPayload : Type 0 where
  pub proposal_id : Text
  pub group : Text
  pub title : Text
  pub statement : Text
  pub tags : List Text

unfoldable pub validate_proposal : ProposalPayload → Option ContractError
validate_proposal p = reject_if (is_blank p.proposal_id) (is_required (lit "proposalId")) (
    reject_if (is_blank p.group) (is_required (lit "group"))
      (reject_if (is_blank p.statement) (is_required (lit "statement")) none))

pub record VotePayload : Type 0 where
  pub proposal_id : Text
  pub vote : Text
  pub reason : Text

-- What the source compares a vote or an outcome by.
unfoldable pub normalize : Text → Text
normalize s = to_lower (trim_space s)

unfoldable pub validate_vote : VotePayload → Option ContractError
validate_vote p =
    reject_if (is_blank p.proposal_id) (is_required (lit "proposalId"))
      (reject_if (not (any (text_eq (normalize p.vote)) (lit "yes" ∷ lit "no" ∷ []))) bad_vote none)

pub record DecisionPayload : Type 0 where
  pub proposal_id : Text
  pub outcome : Text
  pub yes_votes : ℤ
  pub no_votes : ℤ
  pub reason : Text

abbrev pub outcomes : List Text
outcomes = lit "approved" ∷ lit "rejected" ∷ lit "expired" ∷ []

unfoldable pub validate_decision : DecisionPayload → Option ContractError
validate_decision p = reject_if (is_blank p.proposal_id) (is_required (lit "proposalId")) (
    reject_if (not (any (text_eq (normalize p.outcome)) outcomes)) bad_outcome
      (reject_if (ltb_ℤ p.yes_votes (pos 0) || ltb_ℤ p.no_votes (pos 0)) negative_count none))

pub record FactPayload : Type 0 where
  pub fact_id : Text
  pub group : Text
  pub subject : Text
  pub predicate : Text
  pub object : Text
  pub version : ℤ
  pub source : Text
  pub proposal_id : Text
  pub decision_id : Text
  pub tags : List Text

unfoldable pub validate_fact : FactPayload → Option ContractError
validate_fact p = reject_if (is_blank p.fact_id) (is_required (lit "factId")) (
    reject_if (is_blank p.group) (is_required (lit "group")) (
      reject_if (is_blank p.subject || is_blank p.predicate || is_blank p.object)
        (is_required (lit "subject/predicate/object"))
        (reject_if (is_nonpos p.version) version_not_positive
          (reject_if (is_blank p.source) (is_required (lit "source")) none))))
