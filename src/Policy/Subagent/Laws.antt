-- ===== src/Policy/Subagent/Laws.antt =====
-- What a subagent's tool policy denies.
use kaf_claw.Base.{
  is_empty, refl, ℕ, ℤ, pos, ◌<ℤ◌, any, Exists, any-Exists, Text, lit, text_eq, text_eq_iff,
  trim_space, strip_suffix, append_of_has_prefix, has_prefix-append, strip_suffix-append,
  append_of_strip_suffix, true, false, ◌≡◌, ◌≢◌, ◌↔◌, ◌⊎◌, inl, inr, some, List, [], ◌∷◌, ◌++◌,
  arith, Option-cases, Bool-cases, any-append,
}
use kaf_claw.Policy.{Context, Engine}
use kaf_claw.Policy.Subagent.{
  match_tool_pattern, tool_denied_by_policy, SubagentPolicy, evaluate, is_nil,
}

-- The glob reading of a pattern: it is the name itself, or a prefix of the name and a star.
abbrev pub Globs : Text → Text → Type 0
Globs pattern name =
    (pattern ≡ name) ⊎ ((p : Text) × (rest : Text) × (pattern ≡ p ++ lit "*") × (name ≡ p ++ rest))

match_tool_pattern-Globs :
    (name pattern : Text) → match_tool_pattern name pattern ≡ true → Globs pattern name
unfolding match_tool_pattern
match_tool_pattern-Globs name pattern h = elim (Option-cases (strip_suffix pattern (lit "*"))) [
  | inl e ↦ inl (
      ground (
        arith,
        text_eq_iff pattern name,
        text_eq_iff pattern (lit "*"),
        strip_suffix-append [] (lit "*"),
      ))
  | inr (p, e) ↦ elim (Bool-cases (text_eq pattern name)) [
    | inl same ↦ inl (ground (arith, text_eq_iff pattern name))
    | inr other ↦
        let (rest, split) = append_of_has_prefix name p (
          ground (
            arith,
            text_eq_iff pattern (lit "*"),
            strip_suffix-append [] (lit "*"),
            has_prefix-append [] name,
          )) in
        inr (p, rest, append_of_strip_suffix pattern (lit "*") p e, split)
  ]
]

match_of_Globs :
    (name pattern : Text)
    → pattern ≢ []
    → Globs pattern name
    → match_tool_pattern name pattern ≡ true
unfolding match_tool_pattern
match_of_Globs name pattern h (inl e) = ground (arith, text_eq_iff pattern name)
match_of_Globs name pattern h (inr (p, rest, e, split)) =
    ground (arith, strip_suffix-append p (lit "*"), has_prefix-append p rest)

nonempty_of_match : (name pattern : Text) → match_tool_pattern name pattern ≡ true → pattern ≢ []
unfolding match_tool_pattern
nonempty_of_match name [] h = cc
nonempty_of_match name (c ∷ q) h = λ e. cc

-- A pattern matches a tool's name exactly when it is not empty and is the name itself, or a prefix
-- of the name with a star behind it; the star alone is the empty prefix.
pub match_tool_pattern_iff :
    (name pattern : Text)
    → (match_tool_pattern name pattern ≡ true) ↔ ((pattern ≢ []) × Globs pattern name)
match_tool_pattern_iff name pattern = (
  λ h. (nonempty_of_match name pattern h, match_tool_pattern-Globs name pattern h),
  λ (h, g). match_of_Globs name pattern h g,
)

-- The deny list wins, and lists only narrow: a tool that is denied stays denied when patterns are
-- added to the deny list, and a tool that is denied by a longer, non-empty allow list was denied by
-- every non-empty part of it.
pub tool_denied_mono :
    (tool : Text) (deny allow more : List Text)
    → (tool_denied_by_policy tool deny allow ≡ true
        → tool_denied_by_policy tool (deny ++ more) allow ≡ true)
      × (allow ≢ []
          → tool_denied_by_policy tool deny (allow ++ more) ≡ true
          → tool_denied_by_policy tool deny allow ≡ true)
unfolding tool_denied_by_policy
tool_denied_mono tool deny allow more = (
  λ h.
      ground
        (arith, any-append (λ q. match_tool_pattern (trim_space tool) (trim_space q)) deny more),
  λ h k.
      ground
        (arith, any-append (λ q. match_tool_pattern (trim_space tool) (trim_space q)) allow more),
)

-- A pattern, without the blanks around it, that a name matches.
abbrev pub Matches : Text → Text → Type 0
Matches name raw = (trim_space raw ≢ []) × Globs (trim_space raw) name

-- No tool is named, or no pattern of the deny list matches its name and, where there is an allow list, one
-- of its patterns does.
abbrev pub Permitted : Text → List Text → List Text → Type 0
Permitted tool deny allow =
    let name = trim_space tool in
    (name ≡ []) ⊎ ((¬ Exists (Matches name) deny) × ((allow ≡ []) ⊎ Exists (Matches name) allow))

any_iff :
    (name : Text) (patterns : List Text)
    → (any (λ q. match_tool_pattern name (trim_space q)) patterns ≡ true)
      ↔ Exists (Matches name) patterns
any_iff name patterns =
    any-Exists (Matches name) (λ q. match_tool_pattern name (trim_space q)) patterns
      (λ q. match_tool_pattern_iff name (trim_space q))

nil_of_is_nil : (xs : List Text) → is_nil xs ≡ true → xs ≡ []
nil_of_is_nil [] e = refl
nil_of_is_nil (x ∷ xs) e = ground arith

name_of_is_empty : (s : Text) → is_empty s ≡ true → s ≡ []
name_of_is_empty [] e = refl
name_of_is_empty (c ∷ s) e = ground arith

permitted :
    (tool : Text) (deny allow : List Text)
    → tool_denied_by_policy tool deny allow ≡ false
    → Permitted tool deny allow
unfolding tool_denied_by_policy
permitted tool deny allow h =
    let name = trim_space tool in
    let denied = any_iff name deny in
    let listed = any_iff name allow in
    elim (Bool-cases (is_empty name)) [
      | inl e ↦ inl (name_of_is_empty name e)
      | inr named ↦ inr (
        (λ d. let found = denied.1 d in ground arith),
        elim (Bool-cases (is_nil allow)) [
          | inl n ↦ inl (nil_of_is_nil allow n)
          | inr some_listed ↦ inr (
              listed.0 (elim (Bool-cases (any (λ q. match_tool_pattern name (trim_space q)) deny)) [
                | inl d ↦ ground arith
                | inr d ↦ ground arith
              ]))
        ],
      )
    ]

none-Matches :
    (name : Text) (patterns : List Text)
    → ¬ Exists (Matches name) patterns
    → any (λ q. match_tool_pattern name (trim_space q)) patterns ≡ false
none-Matches name patterns n =
    elim (Bool-cases (any (λ q. match_tool_pattern name (trim_space q)) patterns)) [
      | inl e ↦ elim (n ((any_iff name patterns).0 e)) [ ]
      | inr e ↦ e
    ]

not_denied :
    (tool : Text) (deny allow : List Text)
    → Permitted tool deny allow
    → tool_denied_by_policy tool deny allow ≡ false
unfolding tool_denied_by_policy
not_denied tool deny allow (inl e) = ground (arith, e)
not_denied tool deny allow (inr (n, inl e)) =
    ground (arith, none-Matches (trim_space tool) deny n, e)
not_denied tool deny allow (inr (n, inr e)) =
    ground (arith, none-Matches (trim_space tool) deny n, (any_iff (trim_space tool) allow).1 e)

below :
    (p : SubagentPolicy) (engine : Engine) (ctx : Context)
    → p.base ≡ some engine
    → (engine ctx).allow ≡ true
    → tool_denied_by_policy ctx.tool p.deny_list p.allow_list ≡ false
    → ((ctx.tool ≡ lit "sessions_spawn")
        → (depth : ℕ) (max : ℤ) → p.depth ≡ some (depth, max)
        → pos depth <ℤ max)
    → (evaluate p ctx).allow ≡ true
unfolding evaluate
below p engine ctx b allowed lists shallow = elim (Option-cases p.depth) [
  | inl n ↦ ground (arith, text_eq_iff ctx.tool (lit "sessions_spawn"))
  | inr ((depth, max), d) ↦ elim (Bool-cases (text_eq ctx.tool (lit "sessions_spawn"))) [
    | inr other ↦ ground arith
    | inl spawns ↦
        let less = shallow ((text_eq_iff ctx.tool (lit "sessions_spawn")).0 spawns) depth max d in
        ground arith
  ]
]

-- Over an engine, a subagent is allowed exactly what that engine allows, less the tools that the lists
-- deny and spawns at the depth limit: a tool is let through by the lists when it has no name, or when no
-- pattern of the deny list matches and one of the allow list does, where there is one; and a spawn when
-- the session is less deep than sessions may be.
pub evaluate-le-base :
    (p : SubagentPolicy) (engine : Engine) (ctx : Context)
    → p.base ≡ some engine
    → ((evaluate p ctx).allow ≡ true) ↔ (
        ((engine ctx).allow ≡ true)
        × Permitted ctx.tool p.deny_list p.allow_list
        × ((ctx.tool ≡ lit "sessions_spawn")
            → (depth : ℕ) (max : ℤ) → p.depth ≡ some (depth, max)
            → pos depth <ℤ max))
unfolding evaluate
evaluate-le-base p engine ctx b = (
  λ h. (
    ground arith,
    permitted ctx.tool p.deny_list p.allow_list (ground arith),
    λ s depth max d. ground (arith, text_eq_iff ctx.tool (lit "sessions_spawn")),
  ),
  λ (allowed, lists, shallow).
      below p engine ctx b allowed (not_denied ctx.tool p.deny_list p.allow_list lists) shallow,
)
