-- ===== src/Policy/Laws.antt =====
-- What internal/policy/engine.go decides.
use kaf_claw.Base.{pos, ◌≤ℤ◌, ◌≡◌, ◌↔◌, ◌⊎◌, true, false, arith}
use kaf_claw.Policy.{
  Context, DefaultEngine, evaluate, is_external, is_refused_sender, effective_max_tier,
}

-- A call runs without approval exactly when its tool is read-only, or its sender is not refused by
-- the allowlist and its tier is within the limit for the kind of message that asked for it.
pub evaluate-allow_iff :
    (e : DefaultEngine) (ctx : Context)
    → ((evaluate e ctx).allow ≡ true) ↔ (
        (ctx.tier ≡ pos 0)
        ⊎ ((is_refused_sender e ctx ≡ false)
            × (ctx.tier ≤ℤ effective_max_tier e (is_external ctx))))
unfolding evaluate
evaluate-allow_iff e ctx = (λ h. ground arith, λ h. ground arith)

-- The approval prompt is offered exactly for what is denied to an internal, unrefused sender: a tool
-- above the automatic limit that is not read-only. An external message is never offered it.
pub evaluate-requires_approval_iff :
    (e : DefaultEngine) (ctx : Context)
    → ((evaluate e ctx).requires_approval ≡ true) ↔ (
        ((evaluate e ctx).allow ≡ false)
        × (is_external ctx ≡ false)
        × (is_refused_sender e ctx ≡ false))
unfolding evaluate
evaluate-requires_approval_iff e ctx = (λ h. ground arith, λ h. ground arith)

-- Raising either limit of an engine, its allowlist kept, withdraws no permission.
pub evaluate_mono :
    (e f : DefaultEngine) (ctx : Context)
    → e.max_auto_tier ≤ℤ f.max_auto_tier
    → e.external_max_tier ≤ℤ f.external_max_tier
    → f.allowed_senders ≡ e.allowed_senders
    → (evaluate e ctx).allow ≡ true
    → (evaluate f ctx).allow ≡ true
unfolding evaluate is_refused_sender
evaluate_mono e f ctx auto external same h = ground arith
