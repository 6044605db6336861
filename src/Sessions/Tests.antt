-- ===== src/Sessions/Tests.antt =====
-- Runs of the sessions.
use kaf_claw.Base.{negsuc, lit, text_eq, lookup, insert, false, none, [], ◌≡◌, refl, strip_suffix}
use kaf_claw.Sessions.{
  Session, SessionManager, saved_lines, read_line, read_lines, load, from_file, new_session,
  add_message, get_history, get_or_create, save,
}
use kaf_claw.Sessions.Laws.{restart}
use kaf_claw.Sessions.Paths.{
  replace_byte, replace_dots, safe_key, file_name, session_path, listed_key, has_byte,
}
use kaf_claw.Sessions.Paths.Laws.{file_name-separators}

sessions : Unit {0}
unfolding text_eq lookup insert strip_suffix new_session add_message get_history get_or_create save
    saved_lines read_line read_lines load from_file replace_byte replace_dots safe_key file_name
    session_path listed_key
sessions = tt

abbrev ours : Session
ours = add_message 2 (lit "user") (lit "hello") (new_session 1 (lit "slack:a_b"))

abbrev empty : SessionManager
empty = record { sessions_dir = lit "d"; cache = []; disk = [] }

-- The other key is that of another conversation, but its file is the same.
taken_over :
    (get_or_create 9 (lit "slack:a:b") (restart (save ours empty))).0
    ≡ record ours { key = lit "slack:a:b" }
unfolding sessions
taken_over = refl

file_name-separators_example :
    (has_byte 47 (file_name (lit "../x")) ≡ false) × (has_byte 92 (file_name (lit "../x")) ≡ false)
file_name-separators_example = file_name-separators (lit "../x")

traversal : file_name (lit "../x") ≡ lit "__x.jsonl"
unfolding sessions
traversal = refl

-- A window of a negative length panics.
negative_window : get_history (negsuc 0) ours ≡ none
unfolding sessions
negative_window = refl
