-- ===== src/Sessions.antt =====
-- internal/session/session.go. What those who were given a session of the cache do to it there is not
-- modelled but by its saving. The disk is a table from paths to the lines of a file, each the JSON value
-- that it holds; writing succeeds. A time is in seconds, as the files have it. Metadata is text.
pub mod Paths
pub mod Laws
mod Tests
use kaf_claw.Base.{
  ℤ, pos, negsuc, ℕ, zero, suc, ◌-◌, leb, Text, lit, text_eq, Table, lookup, insert, delete, length,
  drop, map, Bool, true, false, Option, none, some, List, [], ◌∷◌, ◌++◌, if◌then◌else◌, ◌==◌,
}
use kaf_claw.Sessions.Paths.{session_path}

pub record Message : Type 0 where
  pub role : Text
  pub content : Text
  pub timestamp : ℕ

pub record Session : Type 0 where
  pub key : Text
  pub messages : List Message
  pub created_at : ℕ
  pub updated_at : ℕ
  pub metadata : Table Text

unfoldable pub new_session : ℕ → Text → Session
new_session now key = record {
  key = key;
  messages = [];
  created_at = now;
  updated_at = now;
  metadata = [];
}

unfoldable pub add_message : ℕ → Text → Text → Session → Session
add_message now role content s = record s {
  messages = s.messages ++ record { role = role; content = content; timestamp = now } ∷ [];
  updated_at = now;
}

-- none is a panic: a slice of a negative length.
unfoldable pub get_history : ℤ → Session → Option (List Message)
get_history (ℤ.pos n) s =
    some (if leb (length s.messages) n then s.messages else drop (length s.messages - n) s.messages)
get_history (ℤ.negsuc n) s = none

unfoldable pub clear : ℕ → Session → Session
clear now s = record s { messages = []; updated_at = now }

unfoldable pub get_metadata : Text → Session → Option Text
get_metadata key s = lookup key s.metadata

unfoldable pub set_metadata : ℕ → Text → Text → Session → Session
set_metadata now key value s = record s { metadata = insert key value s.metadata; updated_at = now }

unfoldable pub delete_metadata : ℕ → Text → Session → Session
delete_metadata now key s = record s { metadata = delete key s.metadata; updated_at = now }

-- A line of a file: the metadata, a message, or what is neither.
pub data Line : Type 0 where
  metadata_line : ℕ → ℕ → Table Text → Line
  message_line : Message → Line
  unread_line : Line

pub record SessionManager : Type 0 where
  pub sessions_dir : Text
  pub cache : Table Session
  pub disk : Table (List Line)

-- The lines that `Save` writes.
unfoldable pub saved_lines : Session → List Line
saved_lines s = metadata_line s.created_at s.updated_at s.metadata ∷ map message_line s.messages

-- One turn of the loop of `load`.
unfoldable pub read_line : Line → Session → Session
read_line (metadata_line created updated metadata) s = record s {
  created_at = created;
  updated_at = updated;
  metadata = metadata;
}
read_line (message_line m) s = record s { messages = s.messages ++ m ∷ [] }
read_line unread_line s = s

unfoldable pub read_lines : List Line → Session → Session
unfolding read_line
read_lines [] s = s
read_lines (l ∷ lines) s = read_lines lines (read_line l s)

-- none where there is no file.
unfoldable pub from_file : ℕ → Text → Option (List Line) → Option Session
unfolding read_lines new_session
from_file now key none = none
from_file now key (some lines) = some (read_lines lines (new_session now key))

unfoldable pub load : ℕ → Text → SessionManager → Option Session
unfolding from_file
load now key m = from_file now key (lookup (session_path m.sessions_dir key) m.disk)

abbrev pub loaded_or_new : ℕ → Text → Option Session → Session
loaded_or_new now key none = new_session now key
loaded_or_new now key (some s) = s

unfoldable pub get_or_create : ℕ → Text → SessionManager → Session × SessionManager
get_or_create now key m = elim (lookup key m.cache) [
  | some s ↦ (s, m)
  | none ↦
      let s = loaded_or_new now key (load now key m) in
      (s, record m { cache = insert key s m.cache })
]

unfoldable pub save : Session → SessionManager → SessionManager
unfolding saved_lines
save s m = record m {
  disk = insert (session_path m.sessions_dir s.key) (saved_lines s) m.disk;
  cache = insert s.key s m.cache;
}

-- Whether there was a file.
unfoldable pub delete_session : Text → SessionManager → Bool × SessionManager
delete_session key m =
    let path = session_path m.sessions_dir key in
    let m' = record m { cache = delete key m.cache; disk = delete path m.disk } in
    (elim (lookup path m.disk) [ none ↦ false | some _ ↦ true ], m')
