-- ===== src/Policy/Gate/Laws.antt =====
-- When the gate lets a tool call run.
use kaf_claw.Base.{
  Text, lit, trim_space, trim_right, Bool, true, false, none, some, List, [], ◌∷◌, ◌≡◌, ◌≢◌, ◌↔◌,
  ◌⊎◌, inl, inr, refl, arith, Option-cases, trimmed_ends, strip_prefix-append,
}
use kaf_claw.Policy.{Engine}
use kaf_claw.Policy.Gate.{
  run, after_wait, Loop, policy_context, ask, check_tool_policy, parse_approval_response, reply,
}
use kaf_claw.Approval.{Manager, create, wait}
use kaf_claw.Approval.Laws.{respond_all, wait-first_answer, wait-no_answer}

-- The first answer is an approval.
abbrev pub is_approved : List Bool → Bool
is_approved [] = false
is_approved (a ∷ _) = a

wait-run :
    (id : Text) (answers : List Bool) (m : Manager)
    → (after_wait (wait id (respond_all id answers (create id m))).0 ≡ run)
      ↔ (is_approved answers ≡ true)
wait-run id [] m = (λ h. ground (arith, wait-no_answer id m), λ h. cc)
wait-run id (true ∷ more) m = (λ h. refl, λ h. ground (arith, wait-first_answer id true more m))
wait-run id (false ∷ more) m = (λ h. ground (arith, wait-first_answer id false more m), λ h. cc)

-- With a policy engine a tool call runs exactly when the engine allows it, or asks for approval, the
-- loop has an approval manager and a bus, and the first answer in time is an approval.
pub check_tool_policy-run_iff :
    (l : Loop) (engine : Engine) (tool id : Text) (answers : List Bool)
    → l.policy ≡ some engine
    → ((check_tool_policy l tool id answers).0 ≡ run) ↔ (
        ((engine (policy_context l tool)).allow ≡ true)
        ⊎ (((engine (policy_context l tool)).requires_approval ≡ true)
            × (l.has_bus ≡ true)
            × (l.approvals ≢ none)
            × (is_approved answers ≡ true)))
unfolding check_tool_policy ask
check_tool_policy-run_iff l engine tool id answers p = elim (Option-cases l.approvals) [
  | inl e ↦ (λ h. ground arith, λ h. ground arith)
  | inr (m, e) ↦ (
    λ h. ground (arith, (wait-run id answers m).0),
    λ h. ground (arith, (wait-run id answers m).1),
  )
]

trim_space-reply :
    (id : Text) (b : Bool) → trim_right id ≡ id → id ≢ [] → trim_space (reply id b) ≡ reply id b
unfolding trim_space
trim_space-reply id true e h = ground arith
trim_space-reply id false e h = ground arith

-- The reply that the prompt asks for is read back as the answer to the request that it names, for
-- every id that is not empty and has no white space at its ends.
pub parse-reply :
    (id : Text) (b : Bool)
    → id ≢ []
    → trim_space id ≡ id
    → parse_approval_response (reply id b) ≡ some (id, b)
unfolding parse_approval_response
parse-reply [] b h e = absurd (h refl)
parse-reply (c ∷ s) true h e = ground (
  arith,
  trim_space-reply (c ∷ s) true (trimmed_ends (c ∷ s) e).1 h,
  strip_prefix-append (lit "approve:") (c ∷ s),
)
parse-reply (c ∷ s) false h e = ground (
  arith,
  trim_space-reply (c ∷ s) false (trimmed_ends (c ∷ s) e).1 h,
  strip_prefix-append (lit "deny:") (c ∷ s),
)
