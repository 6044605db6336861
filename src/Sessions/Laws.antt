-- ===== src/Sessions/Laws.antt =====
-- What a session is when it is loaded again, and the window of its history.
use kaf_claw.Base.{
  pos, ℕ, ◌-◌, min, leb, length, length-drop, drop, take, take-drop, Bool-cases, inl, inr, some,
  List, [], ◌++◌, ◌≡◌, refl, sym, arith,
}
use kaf_claw.Sessions.{Session, Message, SessionManager, get_history}

-- The manager of the next run of the program.
abbrev pub restart : SessionManager → SessionManager
restart m = record m { cache = [] }

-- The window of a history is the end of the messages, as long as it may be and as there are.
pub get_history-window :
    (n : ℕ) (s : Session)
    → (before : List Message) × (window : List Message) × (get_history (pos n) s ≡ some window)
      × (s.messages ≡ before ++ window)
      × (length window ≡ min n (length s.messages))
unfolding get_history
get_history-window n s =
    let past : ℕ = length s.messages - n in
    elim (Bool-cases (leb (length s.messages) n)) [
      | inl e ↦ ([], s.messages, rw e refl, refl, ground arith)
      | inr e ↦ (
        take past s.messages,
        drop past s.messages,
        rw e refl,
        sym (take-drop past s.messages),
        ground (arith, length-drop past s.messages),
      )
    ]
