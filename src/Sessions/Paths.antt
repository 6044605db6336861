-- ===== src/Sessions/Paths.antt =====
-- The file of a session, `sessionPath` of internal/session/session.go, and the key that `List` reads off
-- the name of a file.
pub mod Laws
use kaf_claw.Base.{
  ℕ, zero, suc, Text, lit, is_empty, strip_suffix, map, any, Bool, true, false, Option, none, some,
  List, [], ◌∷◌, ◌++◌, ◌≡◌, refl, arith, ◌||◌, not, ◌&&◌, if◌then◌else◌, ◌==◌,
}

-- `ReplaceAll` of one byte by another.
unfoldable pub replace_byte : ℕ → ℕ → Text → Text
replace_byte from to [] = []
replace_byte from to (c ∷ s) = (if c == from then to else c) ∷ replace_byte from to s

-- `ReplaceAll` of two dots by an underscore, from the left; the flag says that the byte before is a dot
-- that has not been written yet.
unfoldable pub replace_dots : Bool → Text → Text
replace_dots true [] = 46 ∷ []
replace_dots false [] = []
replace_dots true (c ∷ s) =
    let after = replace_dots false s in if c == 46 then 95 ∷ after else 46 ∷ c ∷ after
replace_dots false (c ∷ s) =
    let after = replace_dots false s in
    let held = replace_dots true s in if c == 46 then held else c ∷ after

unfoldable pub safe_key : Text → Text
safe_key key = replace_dots false (replace_byte 92 95 (replace_byte 47 95 (replace_byte 58 95 key)))

-- `filepath.Base` of a text without separators.
abbrev base_name : Text → Text
base_name s = if is_empty s then lit "." else s

unfoldable pub file_name : Text → Text
file_name key = base_name (safe_key key) ++ lit ".jsonl"

unfoldable pub session_path : Text → Text → Text
session_path dir key = dir ++ (47 ∷ file_name key)

-- The key that the listing gives to a file; none for a file that it skips.
unfoldable pub listed_key : Text → Option Text
listed_key name = elim (strip_suffix name (lit ".jsonl")) [
  | none ↦ none
  | some key ↦ some (replace_byte 95 58 key)
]

abbrev pub has_byte : ℕ → Text → Bool
has_byte b = any (λ c. c == b)
