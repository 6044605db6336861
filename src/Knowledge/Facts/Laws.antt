-- ===== src/Knowledge/Facts/Laws.antt =====
-- The version policy of shared facts.
use kaf_claw.Base.{ℤ, pos, ◌+ℤ◌, ◌≤ℤ◌, ◌<ℤ◌, text_eq_iff, Option, none, some, ◌≡◌, ◌↔◌, refl, arith}
use kaf_claw.Knowledge.Contracts.{FactPayload}
use kaf_claw.Knowledge.Facts.{FactState, accepted, stale, evaluate_fact_apply, same_fact_content}

-- The state that an accepted payload leaves.
abbrev pub state_of : FactPayload → FactState
state_of p = record {
  fact_id = p.fact_id;
  subject = p.subject;
  predicate = p.predicate;
  object = p.object;
  version = p.version;
}

-- The version that a fact must have to be accepted.
abbrev pub next_version : Option FactState → ℤ
next_version none = pos 1
next_version (some f) = f.version +ℤ pos 1

-- A fact is accepted exactly when its version is positive and is the one after the version that is
-- known, 1 where none is known.
pub accepted_iff :
    (existing : Option FactState) (p : FactPayload)
    → ((evaluate_fact_apply existing p).status ≡ accepted)
      ↔ ((pos 0 <ℤ p.version) × (p.version ≡ next_version existing))
unfolding evaluate_fact_apply
accepted_iff none p = (λ h. ground arith, λ h. ground arith)
accepted_iff (some f) p = (λ h. ground arith, λ h. ground arith)

-- A fact is stale exactly when its version is positive and not above the known one, and its subject,
-- predicate and object are the known ones.
pub stale_iff :
    (existing : Option FactState) (p : FactPayload)
    → ((evaluate_fact_apply existing p).status ≡ stale) ↔ (
        (pos 0 <ℤ p.version)
        × ((f : FactState) × (existing ≡ some f)
            × (p.version ≤ℤ f.version)
            × (f.subject ≡ p.subject)
            × (f.predicate ≡ p.predicate)
            × (f.object ≡ p.object)))
unfolding evaluate_fact_apply same_fact_content
stale_iff none p = (λ h. ground arith, λ h. ground arith)
stale_iff (some f) p = (
  λ h. (
    ground arith,
    (
      f,
      refl,
      ground arith,
      ground (arith, text_eq_iff f.subject p.subject),
      ground (arith, text_eq_iff f.predicate p.predicate),
      ground (arith, text_eq_iff f.object p.object),
    ),
  ),
  λ h. ground (
    arith,
    text_eq_iff f.subject p.subject,
    text_eq_iff f.predicate p.predicate,
    text_eq_iff f.object p.object,
  ),
)

-- A fact that was accepted is stale, never accepted again and never a conflict, when it comes a
-- second time.
pub accepted_twice :
    (existing : Option FactState) (p : FactPayload)
    → (evaluate_fact_apply existing p).status ≡ accepted
    → (evaluate_fact_apply (some (state_of p)) p).status ≡ stale
unfolding evaluate_fact_apply same_fact_content
accepted_twice existing p h = ground (
  arith,
  text_eq_iff p.subject p.subject,
  text_eq_iff p.predicate p.predicate,
  text_eq_iff p.object p.object,
)
