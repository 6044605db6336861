-- ===== src/Tools/Files.antt =====
-- The tools of internal/tools/filesystem.go that write. A path is its elements from the root on, after
-- `expandPath`; none is an empty path, or no work repo. `resolve` is the operating system's: the file that
-- a path names, with symbolic links followed; a file is known by its own path, without any. Reading and
-- writing succeed. Of what a tool answers only the error of a path outside and
-- the like are told from success.
pub mod Laws
use kaf_claw.Base.{
  ℕ, Text, lit, text_eq, is_empty, has_prefix, drop, length, Bool, true, false, not, ◌&&◌, ◌||◌,
  Option, none, some, List, [], ◌∷◌, ◌++◌, if◌then◌else◌,
}

abbrev pub Elements : Type 0
Elements = List Text

abbrev pub dots : Text
dots = lit ".."

abbrev pub pop : Elements → Elements
pop [] = []
pop (e ∷ stack) = stack

-- `filepath.Clean`, with what stands before on a stack, the last element first.
unfoldable pub clean_onto : Elements → Elements → Elements
clean_onto stack [] = stack
clean_onto stack (e ∷ path) =
    let skipped = clean_onto stack path in
    let popped = clean_onto (pop stack) path in
    let pushed = clean_onto (e ∷ stack) path in
    if is_empty e || text_eq e (lit ".") then skipped else if text_eq e dots then popped else pushed

abbrev pub reverse_onto : Elements → Elements → Elements
reverse_onto done [] = done
reverse_onto done (e ∷ path) = reverse_onto (e ∷ done) path

unfoldable pub clean : Elements → Elements
clean path = reverse_onto [] (clean_onto [] path)

abbrev pub ups : Elements → Elements → Elements
ups [] rest = rest
ups (_ ∷ root) rest = dots ∷ ups root rest

-- `filepath.Rel` of clean paths.
unfoldable pub rel : Elements → Elements → Elements
rel [] path = path
rel (r ∷ root) [] = ups (r ∷ root) []
rel (r ∷ root) (e ∷ path) =
    let inside = rel root path in if text_eq r e then inside else ups (r ∷ root) (e ∷ path)

abbrev pub begins_up : Elements → Bool
begins_up [] = false
begins_up (e ∷ _) = text_eq e dots

unfoldable pub is_within : Option Elements → Elements → Bool
is_within none path = true
is_within (some root) path = not (begins_up (rel (clean root) (clean path)))

abbrev pub path_eq : Elements → Elements → Bool
path_eq [] [] = true
path_eq (a ∷ p) (b ∷ q) = text_eq a b && path_eq p q
path_eq _ _ = false

abbrev pub Files : Type 0
Files = List (Elements × Text)

unfoldable pub read : Elements → Files → Option Text
read path [] = none
read path ((p, content) ∷ files) = if path_eq p path then some content else read path files

abbrev pub put : Elements → Text → Files → Files
put path content files = (path, content) ∷ files

-- The files, and whether the tool wrote.
unfoldable pub write_file :
    (Elements → Elements) → Option Elements → Option Elements → Text → Files → Files × Bool
write_file resolve root none content files = (files, false)
write_file resolve root (some path) content files =
    if is_within root path then (put (resolve path) content files, true) else (files, false)

-- `strings.Replace` of the first occurrence; none without one.
unfoldable pub replace_first : Text → Text → Text → Option Text
replace_first old new [] = if is_empty old then some new else none
replace_first old new (c ∷ s) =
    let later = replace_first old new s in
    if has_prefix (c ∷ s) old
    then some (new ++ drop (length old) (c ∷ s))
    else elim later [ none ↦ none | some t ↦ some (c ∷ t) ]

abbrev pub edited : Elements → Option Text → Files → Files × Bool
edited path none files = (files, false)
edited path (some content) files = (put path content files, true)

abbrev pub edit_content : Elements → Text → Text → Option Text → Files → Files × Bool
edit_content path old new none files = (files, false)
edit_content path old new (some content) files = edited path (replace_first old new content) files

unfoldable pub edit_file :
    (Elements → Elements) → Option Elements → Option Elements → Text → Text → Files → Files × Bool
edit_file resolve root none old new files = (files, false)
edit_file resolve root (some path) old new files =
    if not (is_empty old) && is_within root path
    then edit_content (resolve path) old new (read (resolve path) files) files
    else (files, false)
