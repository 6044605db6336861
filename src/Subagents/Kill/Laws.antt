-- ===== src/Subagents/Kill/Laws.antt =====
-- That killing a run kills everything below it.
use kaf_claw.Base.{
  ℕ, zero, suc, ◌≤◌, Text, text_eq, trim_space, text_eq_iff, Table, lookup, entries, Bool, true,
  false, some, [], ◌∷◌, ◌≡◌, inl, inr, refl, sym, subst, arith, Bool-cases,
}
use kaf_claw.Subagents.Runs.{Run, Manager, archive_time, sweep_expired, root_session}
use kaf_claw.Subagents.Counts.{runs-root_session}
use kaf_claw.Subagents.Kill.{
  is_live, kill_run, change_at, kill_each, kill_descendants, kill_tree, kill_in_scope, killed,
  can_control, kill_by_run_id,
}
use kaf_claw.Subagents.Kill.Trees.{
  Tamed, Tamer, Tamer-refl, Tamer-trans, kill_run-Tamed, kill_run-dead, Gone, Gone-Tamer, Below,
  Below-Tamer, Below-positive, change_at-Tamer, change_at-Gone, child, deeper,
}

module _ (kill : Run → Run) (tamed : (run : Run) → Tamed run (kill run))
    (dead : (run : Run) → is_live (kill run) ≡ false) where
  -- One round of the loop, for a child of the session.
  child-Tamer :
      (go : Text → Table Run → Table Run) (session k : Text) (runs : Table Run)
      → ((s : Text) (rs : Table Run) → Tamer rs (go s rs))
      → Tamer runs (go session (change_at kill k runs))
  child-Tamer go session k runs tame =
      let changed = change_at kill k runs in
      Tamer-trans runs changed (go session changed) (change_at-Tamer kill k runs tamed)
        (tame session changed)

  kill_each-Tamer :
      (go : Text → Table Run → Table Run) (session : Text) (left runs : Table Run)
      → ((s : Text) (rs : Table Run) → Tamer rs (go s rs))
      → Tamer runs (kill_each kill go session left runs)
  unfolding kill_each
  kill_each-Tamer go session [] runs tame = Tamer-refl runs
  kill_each-Tamer go session ((k, c) ∷ left) runs tame =
      elim (Bool-cases (text_eq c.parent_session session)) [
        | inr other ↦ rw (other, kill_each) (kill_each-Tamer go session left runs tame)
        | inl its ↦
            let next = go c.child_session_key (change_at kill k runs) in
            rw (its, kill_each)
              (Tamer-trans runs next (kill_each kill go session left next)
                (child-Tamer go c.child_session_key k runs tame)
                (kill_each-Tamer go session left next tame))
      ]

  kill_descendants-Tamer :
      (fuel : ℕ) (session : Text) (runs : Table Run)
      → Tamer runs (kill_descendants kill fuel session runs)
  unfolding kill_descendants
  kill_descendants-Tamer zero session runs = Tamer-refl runs
  kill_descendants-Tamer (suc fuel) session runs =
      kill_each-Tamer (kill_descendants kill fuel) session runs runs (kill_descendants-Tamer fuel)

  -- What one child of the session that is among the entries left comes to: itself and what the call
  -- for its own session reaches.
  kill_each-Gone :
      (go : Text → Table Run → Table Run) (steps : ℕ) (session : Text) (left runs : Table Run)
      (id : Text) (c c' : Run)
      → ((s : Text) (rs : Table Run) → Tamer rs (go s rs))
      → ((s target : Text) (rs : Table Run) → Below rs steps s target → Gone target (go s rs))
      → lookup id left ≡ some c
      → c.parent_session ≡ session
      → lookup id runs ≡ some c'
      → Gone id (kill_each kill go session left runs)
        × ((target : Text)
            → Below runs steps c.child_session_key target
            → Gone target (kill_each kill go session left runs))
  unfolding kill_each lookup
  kill_each-Gone go steps session [] runs id c c' tame reach e p e' = ground arith
  kill_each-Gone go steps session ((k, r) ∷ left) runs id c c' tame reach e p e' =
      elim (Bool-cases (text_eq k id)) [
        | inr other ↦ elim (Bool-cases (text_eq r.parent_session session)) [
          | inr foreign ↦
              rw (foreign, kill_each)
                (kill_each-Gone go steps session left runs id c c' tame reach (ground arith) p e')
          | inl its ↦
              let next = go r.child_session_key (change_at kill k runs) in
              let tamer = child-Tamer go r.child_session_key k runs tame in
              let (c'', e'', t) = tamer id c' e' in
              let (gone, below) =
                kill_each-Gone go steps session left next id c c'' tame reach (ground arith) p
                  e'' in
              rw (its, kill_each) (gone, λ target b. below target (Below-Tamer runs next tamer b))
        ]
        | inl same ↦
            let its : text_eq r.parent_session session ≡ true =
              ground (arith, text_eq_iff r.parent_session session) in
            let key : k ≡ id = (text_eq_iff k id).0 same in
            let run : r ≡ c = ground arith in
            let changed = change_at kill k runs in
            let next = go r.child_session_key changed in
            let last = kill_each-Tamer go session left next tame in
            let result = kill_each kill go session left next in
            rw (its, kill_each)
              (
                Gone-Tamer id next result last (
                    Gone-Tamer id changed next (tame r.child_session_key changed) (
                      subst (λ x. Gone id (change_at kill x runs)) (sym key)
                        (change_at-Gone kill id c' runs e' dead))),
                λ target b. Gone-Tamer target next result last (
                    reach r.child_session_key target changed (
                      subst (λ x. Below changed steps x.child_session_key target) (sym run)
                        (Below-Tamer runs changed (change_at-Tamer kill k runs tamed) b))),
              )
      ]

  -- Whatever is within reach of the fuel below a session is gone.
  kill_descendants-Gone :
      (fuel steps : ℕ) (session target : Text) (runs : Table Run)
      → steps ≤ fuel
      → Below runs steps session target
      → Gone target (kill_descendants kill fuel session runs)
  unfolding kill_descendants
  kill_descendants-Gone zero steps session target runs l b =
      absurd (omega (arith, l, Below-positive b))
  kill_descendants-Gone (suc fuel) steps session target runs l (child id run e p) =
      (kill_each-Gone (kill_descendants kill fuel) 0 session runs runs id run run
        (kill_descendants-Tamer fuel)
        (λ s t rs b. kill_descendants-Gone fuel 0 s t rs (omega arith) b) e p e).0
  kill_descendants-Gone (suc fuel) steps session target runs l (deeper {steps = n} id run e p b) =
      (kill_each-Gone (kill_descendants kill fuel) n session runs runs id run run
          (kill_descendants-Tamer fuel)
          (λ s t rs b'. kill_descendants-Gone fuel n s t rs (omega (arith, l)) b') e p e).1
        target b

kill_tree-Gone :
    (now : ℕ) (id : Text) (run : Run) (m : Manager)
    → lookup id m.runs ≡ some run
    → Gone id (kill_tree now id run m).runs
      × ((steps : ℕ) (target : Text)
          → steps ≤ entries m.runs
          → Below m.runs steps run.child_session_key target
          → Gone target (kill_tree now id run m).runs)
unfolding kill_tree
kill_tree-Gone now id run m e =
    let kill = kill_run now (archive_time now m) in
    let tamed = kill_run-Tamed now (archive_time now m) in
    let dead = kill_run-dead now (archive_time now m) in
    let changed = change_at kill id m.runs in
    (
      Gone-Tamer id changed (kill_descendants kill (entries m.runs) run.child_session_key changed)
          (kill_descendants-Tamer kill tamed dead (entries m.runs) run.child_session_key changed)
          (change_at-Gone kill id run m.runs e dead),
      λ steps target l b.
          kill_descendants-Gone kill tamed dead (entries m.runs) steps run.child_session_key target
            changed l (Below-Tamer m.runs changed (change_at-Tamer kill id m.runs tamed) b),
    )

in_scope :
    (now : ℕ) (id : Text) (run : Run) (asked : Bool × Manager) (m : Manager)
    → kill_in_scope now id run asked ≡ (killed true, m)
    → (asked.0 ≡ true) × (m ≡ kill_tree now id run asked.1)
in_scope now id run (false, m') m e = ground arith
in_scope now id run (true, m') m e = (refl, ground arith)

-- A kill that succeeds was asked for from the root session of the run. Afterwards there is nothing
-- to cancel of the run, nor of any run that was below it by at most as many steps as there were runs.
pub kill_by_run_id-Gone :
    (now : ℕ) (controller id : Text) (run : Run) (m m' : Manager)
    → let swept = sweep_expired now m in
      lookup id swept.runs ≡ some run
      → kill_by_run_id now controller id m ≡ (killed true, m')
      → (text_eq (root_session controller swept).0 (trim_space run.root_session) ≡ true)
        × (Gone id m'.runs
            × ((steps : ℕ) (target : Text)
                → steps ≤ entries swept.runs
                → Below swept.runs steps run.child_session_key target
                → Gone target m'.runs))
unfolding kill_by_run_id can_control
kill_by_run_id-Gone now controller id run m m' f e =
    let swept = sweep_expired now m in
    let rooted = (root_session controller swept).1 in
    let (ok, to) = in_scope now id run (can_control controller run swept) m' (ground arith) in
    let same = runs-root_session controller swept in
    let (gone, below) =
      kill_tree-Gone now id run rooted (subst (λ rs. lookup id rs ≡ some run) (sym same) f) in
    (
      ok,
      (
        subst (λ x. Gone id x.runs) (sym to) gone,
        λ steps target l b.
            subst (λ x. Gone target x.runs) (sym to)
              (below steps target (subst (λ rs. steps ≤ entries rs) (sym same) l)
                (subst (λ rs. Below rs steps run.child_session_key target) (sym same) b)),
      ),
    )
