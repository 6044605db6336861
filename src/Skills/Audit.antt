-- ===== src/Skills/Audit.antt =====
-- internal/skills/audit_chain.go. A line of the log is the JSON object that it holds: its keys with
-- their values. SHA-256 in hexadecimal and `json.Marshal` are arguments. Reading and writing succeed, and
-- no line is empty. Another process may append between the reading of the last hash and the writing.
pub mod Laws
use kaf_claw.Base.{
  Text, lit, is_empty, trim_space, Table, lookup, insert, delete, Option, none, some, List, [], ◌∷◌,
  ◌++◌, if◌then◌else◌,
}

-- A JSON value: a string, or a value of another type, as it is printed.
pub data Json : Type 0 where
  string : Text → Json
  other : Text → Json

abbrev pub Entry : Type 0
Entry = Table Json

abbrev pub Log : Type 0
Log = List Entry

abbrev pub hash_key : Text
hash_key = lit "hash"

abbrev pub prev_key : Text
prev_key = lit "prevHash"

unfoldable pub normalize_audit_payload : Entry → Entry
normalize_audit_payload payload = delete prev_key (delete hash_key payload)

-- `toString` of the value of a key: a string, or what is printed of another value or of none.
abbrev pub to_string : Option Json → Text
to_string none = lit "<nil>"
to_string (some (string s)) = s
to_string (some (other s)) = s

-- The hash of the last line, empty for a log without lines.
unfoldable pub read_last_audit_hash : Log → Text
read_last_audit_hash [] = []
read_last_audit_hash (l ∷ []) = trim_space (to_string (lookup hash_key l))
read_last_audit_hash (l ∷ m ∷ log) = read_last_audit_hash (m ∷ log)

-- The entry that is hashed, with the hash of the line before.
unfoldable pub linked : Entry → Text → Entry
unfolding normalize_audit_payload
linked payload prev_hash =
    let entry = normalize_audit_payload payload in
    if is_empty prev_hash then entry else insert prev_key (string prev_hash) entry

module _ (sha256 : Text → Text) (marshal : Entry → Text) where
  unfoldable pub compute_audit_hash : Entry → Text
  compute_audit_hash entry = sha256 (marshal (delete hash_key entry))

  unfoldable pub chained_line : Entry → Text → Entry
  unfolding compute_audit_hash linked
  chained_line payload prev_hash =
      let entry = linked payload prev_hash in
      insert hash_key (string (compute_audit_hash entry)) entry

  -- What is written by a process that has read this last hash.
  unfoldable pub write_line : Entry → Text → Log → Log
  unfolding chained_line
  write_line payload prev_hash log = log ++ chained_line payload prev_hash ∷ []

  unfoldable pub append_chained_audit_line : Entry → Log → Log
  unfolding write_line
  append_chained_audit_line payload log = write_line payload (read_last_audit_hash log) log
