-- ===== src/Knowledge/Contracts/Laws.antt =====
-- What an envelope and its payload hold once they have passed validation.
use kaf_claw.Base.{
  pos, ◌<ℤ◌, Text, lit, text_eq, text_eq_iff, any, true, false, none, List, [], ◌∷◌, ◌≡◌, ◌≢◌, ◌↔◌,
  ◌⊎◌, inl, inr, refl, arith, trim_space, text_eq_sound, Bool-cases,
}
use mathlib.Core.List.{Memᴰ}
use kaf_claw.Knowledge.Contracts.{
  Envelope, envelope_kinds, validate_base, is_blank, VotePayload, validate_vote, normalize,
  FactPayload, validate_fact,
}

mem_of_any : (s : Text) (l : List Text) → any (text_eq s) l ≡ true → Memᴰ s l
mem_of_any s [] h = cc
mem_of_any s (t ∷ l) h = elim (Bool-cases (text_eq s t)) [
  | inl e ↦ Memᴰ.head (text_eq_sound s t e)
  | inr e ↦ Memᴰ.tail (mem_of_any s l (ground arith))
]

any_of_mem : (s : Text) (l : List Text) → Memᴰ s l → any (text_eq s) l ≡ true
any_of_mem s [] m = elim m [ ]
any_of_mem s (t ∷ l) (Memᴰ.head e) = ground (arith, text_eq_iff s t)
any_of_mem s (t ∷ l) (Memᴰ.tail m) = ground (arith, any_of_mem s l m)

is_blank-nil : is_blank [] ≡ true
unfolding is_blank trim_space
is_blank-nil = refl

kind_not_blank : (k : Text) → Memᴰ k envelope_kinds → is_blank k ≡ false
unfolding is_blank trim_space
kind_not_blank k (Memᴰ.head e) = ground arith
kind_not_blank k (Memᴰ.tail (Memᴰ.head e)) = ground arith
kind_not_blank k (Memᴰ.tail (Memᴰ.tail (Memᴰ.head e))) = ground arith
kind_not_blank k (Memᴰ.tail (Memᴰ.tail (Memᴰ.tail (Memᴰ.head e)))) = ground arith
kind_not_blank k (Memᴰ.tail (Memᴰ.tail (Memᴰ.tail (Memᴰ.tail (Memᴰ.head e))))) = ground arith
kind_not_blank k (Memᴰ.tail (Memᴰ.tail (Memᴰ.tail (Memᴰ.tail (Memᴰ.tail (Memᴰ.head e)))))) =
    ground arith
kind_not_blank k (Memᴰ.tail (Memᴰ.tail (Memᴰ.tail (Memᴰ.tail (Memᴰ.tail (Memᴰ.tail m)))))) =
    elim m [ ]

kind_known : (e : Envelope) → validate_base e ≡ none → any (text_eq e.kind) envelope_kinds ≡ true
unfolding validate_base
kind_known e h = ground arith

-- An envelope passes validation exactly when it has a time, none of its six texts is blank, and its
-- type is one of the six of the protocol.
pub validate_base_iff :
    (e : Envelope)
    → (validate_base e ≡ none) ↔ (
        (e.timestamp ≢ 0)
        × (is_blank e.schema_version ≡ false)
        × (is_blank e.trace_id ≡ false)
        × (is_blank e.idempotency_key ≡ false)
        × (is_blank e.claw_id ≡ false)
        × (is_blank e.instance_id ≡ false)
        × Memᴰ e.kind envelope_kinds)
unfolding validate_base
validate_base_iff e = (
  λ h. (
    ground arith,
    ground arith,
    ground arith,
    ground arith,
    ground arith,
    ground arith,
    mem_of_any e.kind envelope_kinds (kind_known e h),
  ),
  λ h. ground (arith, any_of_mem e.kind envelope_kinds h.6, kind_not_blank e.kind h.6),
)

-- A vote passes validation exactly when it names a proposal and reads yes or no, case and white
-- space at the ends aside.
pub validate_vote_iff :
    (p : VotePayload)
    → (validate_vote p ≡ none) ↔ (
        (is_blank p.proposal_id ≡ false)
        × ((normalize p.vote ≡ lit "yes") ⊎ (normalize p.vote ≡ lit "no")))
unfolding validate_vote
validate_vote_iff p = (
  λ h. ground (
    arith,
    text_eq_iff (normalize p.vote) (lit "yes"),
    text_eq_iff (normalize p.vote) (lit "no"),
  ),
  λ h. ground (
    arith,
    text_eq_iff (normalize p.vote) (lit "yes"),
    text_eq_iff (normalize p.vote) (lit "no"),
  ),
)

-- A fact passes validation exactly when it has an id, a group, a subject, a predicate, an object and
-- a source that are not blank, and a positive version.
pub validate_fact_iff :
    (p : FactPayload)
    → (validate_fact p ≡ none) ↔ (
        (is_blank p.fact_id ≡ false)
        × (is_blank p.group ≡ false)
        × (is_blank p.subject ≡ false)
        × (is_blank p.predicate ≡ false)
        × (is_blank p.object ≡ false)
        × (is_blank p.source ≡ false)
        × (pos 0 <ℤ p.version))
unfolding validate_fact
validate_fact_iff p = (λ h. ground arith, λ h. ground arith)
