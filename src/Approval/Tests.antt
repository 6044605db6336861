-- ===== src/Approval/Tests.antt =====
-- Runs of the approval manager.
use kaf_claw.Base.{lit, text_eq, lookup, insert, delete, true, false, none, some, [], ◌∷◌, ◌≡◌}
use kaf_claw.Approval.{
  Manager, new_manager, create, find, send, receive, give_up, respond, wait, cleanup, set_status,
  cleanup_stale, answered,
}
use kaf_claw.Approval.Laws.{respond_all, wait-first_answer}

manager : Unit {0}
unfolding text_eq lookup insert delete create respond_all find send receive give_up respond wait
    cleanup set_status new_manager cleanup_stale
manager = tt

abbrev fresh : Manager
fresh = new_manager (some [])

wait-first_answer_example :
    let m' = respond_all (lit "a1") (false ∷ true ∷ []) (create (lit "a1") fresh) in
    ((wait (lit "a1") m').0 ≡ answered false) × (find (lit "a1") (wait (lit "a1") m').1 ≡ none)
wait-first_answer_example = wait-first_answer (lit "a1") false (true ∷ []) fresh

abbrev two : Manager
two = create (lit "a2") (create (lit "a1") fresh)
