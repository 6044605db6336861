-- ===== src/Subagents/Kill/Trees.antt =====
-- The runs below a session, and what a change of the runs keeps of them.
use kaf_claw.Base.{
  ℕ, suc, ◌≤◌, Text, text_eq, Table, lookup, false, Option, some, [], ◌∷◌, ◌≡◌, inl, inr, refl, sym,
  subst, ◌∙◌, arith, Bool-cases,
}
use kaf_claw.Subagents.Runs.{Run}
use kaf_claw.Subagents.Kill.{is_live, kill_run, change_at}

-- The second run stands for the first: it has the same place in the tree, and is no more alive.
pub record Tamed (run run' : Run) : Type 0 where
  pub same_parent : run'.parent_session ≡ run.parent_session
  pub same_child : run'.child_session_key ≡ run.child_session_key
  pub no_livelier : is_live run ≡ false → is_live run' ≡ false

abbrev pub Tamer : Table Run → Table Run → Type 0
Tamer runs runs' =
    (id : Text) (run : Run)
    → lookup id runs ≡ some run
    → (run' : Run) × (lookup id runs' ≡ some run') × Tamed run run'

pub Tamer-refl : (runs : Table Run) → Tamer runs runs
Tamer-refl runs id run e =
    (run, e, record { same_parent = refl; same_child = refl; no_livelier = λ h. h })

pub Tamer-trans : (a b c : Table Run) → Tamer a b → Tamer b c → Tamer a c
Tamer-trans a b c f g id run e =
    let (run', e', t) = f id run e in
    let (run'', e'', u) = g id run' e' in
    (
      run'',
      e'',
      record {
        same_parent = u.same_parent ∙ t.same_parent;
        same_child = u.same_child ∙ t.same_child;
        no_livelier = λ h. u.no_livelier (t.no_livelier h);
      },
    )

pub kill_run-Tamed :
    (now : ℕ) (archive : Option ℕ) (run : Run) → Tamed run (kill_run now archive run)
unfolding kill_run
kill_run-Tamed now archive run = record {
  same_parent = ground arith;
  same_child = ground arith;
  no_livelier = λ h. ground arith;
}

pub kill_run-dead :
    (now : ℕ) (archive : Option ℕ) (run : Run) → is_live (kill_run now archive run) ≡ false
unfolding kill_run is_live
kill_run-dead now archive run = ground arith

-- The key has a run, and there is nothing to cancel of it.
abbrev pub Gone : Text → Table Run → Type 0
Gone id runs = (run : Run) × (lookup id runs ≡ some run) × (is_live run ≡ false)

pub Gone-Tamer :
    (id : Text) (runs runs' : Table Run) → Tamer runs runs' → Gone id runs → Gone id runs'
Gone-Tamer id runs runs' f (run, e, h) =
    let (run', e', t) = f id run e in (run', e', t.no_livelier h)

-- A run that is some steps below a session, by parents.
pub data Below (runs : Table Run) : ℕ → Text → Text → Type 0 where
  child :
      {session : Text} (id : Text) (run : Run)
      → lookup id runs ≡ some run
      → run.parent_session ≡ session
      → Below runs 1 session id
  deeper :
      {session : Text} {steps : ℕ} {target : Text} (id : Text) (run : Run)
      → lookup id runs ≡ some run
      → run.parent_session ≡ session
      → Below runs steps run.child_session_key target
      → Below runs (suc steps) session target

pub Below-Tamer :
    (runs runs' : Table Run) {session target : Text} {steps : ℕ}
    → Tamer runs runs'
    → Below runs steps session target
    → Below runs' steps session target
Below-Tamer runs runs' f (child id run e p) =
    let (run', e', t) = f id run e in child id run' e' (t.same_parent ∙ p)
Below-Tamer runs runs' {target = target} f (deeper {steps = steps} id run e p b) =
    let (run', e', t) = f id run e in
    deeper id run' e' (t.same_parent ∙ p)
      (subst (λ s. Below runs' steps s target) (sym t.same_child) (Below-Tamer runs runs' f b))

pub Tamed-refl : (run : Run) → Tamed run run
Tamed-refl run = record { same_parent = refl; same_child = refl; no_livelier = λ h. h }

pub Below-positive :
    {runs : Table Run} {session target : Text} {steps : ℕ}
    → Below runs steps session target
    → 1 ≤ steps
Below-positive (child id run e p) = omega arith
Below-positive (deeper id run e p b) = omega arith

pub change_at-Tamer :
    (f : Run → Run) (k : Text) (runs : Table Run)
    → ((run : Run) → Tamed run (f run))
    → Tamer runs (change_at f k runs)
unfolding change_at lookup
change_at-Tamer f k [] tamed id run e = ground arith
change_at-Tamer f k ((j, r) ∷ runs) tamed id run e = elim (Bool-cases (text_eq j k)) [
  | inl hit ↦ elim (Bool-cases (text_eq j id)) [
    | inl same_id ↦ (f r, ground arith, subst (λ x. Tamed x (f r)) (ground arith) (tamed r))
    | inr other ↦ (run, ground arith, Tamed-refl run)
  ]
  | inr miss ↦ elim (Bool-cases (text_eq j id)) [
    | inl same_id ↦ (r, ground arith, subst (λ x. Tamed x r) (ground arith) (Tamed-refl r))
    | inr other ↦
        let (run', e', t) = change_at-Tamer f k runs tamed id run (ground arith) in
        (run', ground arith, t)
  ]
]

pub change_at-Gone :
    (f : Run → Run) (k : Text) (run : Run) (runs : Table Run)
    → lookup k runs ≡ some run
    → ((r : Run) → is_live (f r) ≡ false)
    → Gone k (change_at f k runs)
unfolding change_at lookup
change_at-Gone f k run [] e dead = ground arith
change_at-Gone f k run ((j, r) ∷ runs) e dead = elim (Bool-cases (text_eq j k)) [
  | inl hit ↦ (f r, ground arith, dead r)
  | inr miss ↦
      let (r', e', h) = change_at-Gone f k run runs (ground arith) dead in (r', ground arith, h)
]
