-- ===== src/Tools/Files/Laws.antt =====
-- That the tools write nothing outside the work repo.
use kaf_claw.Base.{
  Text, lit, text_eq, text_eq_iff, text_eq_refl, is_empty, All, Bool, true, false, not, ◌&&◌, ◌||◌,
  some, [], ◌∷◌, ◌≡◌, refl, arith, Bool-cases, inl, inr,
}
use kaf_claw.Tools.Files.{
  Elements, dots, clean_onto, reverse_onto, clean, rel, is_within, path_eq, Files, read, write_file,
  edit_file, begins_up, pop,
}

-- A path that begins with all the elements of another.
abbrev pub begins_with : Elements → Elements → Bool
begins_with [] path = true
begins_with (r ∷ root) [] = false
begins_with (r ∷ root) (e ∷ path) = text_eq r e && begins_with root path

abbrev NoDots : Elements → Type 0
NoDots = All (λ e. text_eq e dots ≡ false)

pop-NoDots : (stack : Elements) → NoDots stack → NoDots (pop stack)
pop-NoDots [] n = tt
pop-NoDots (e ∷ stack) (n, ns) = ns

clean_onto-NoDots : (stack path : Elements) → NoDots stack → NoDots (clean_onto stack path)
unfolding clean_onto
clean_onto-NoDots stack [] n = n
clean_onto-NoDots stack (e ∷ path) n = elim (Bool-cases (is_empty e || text_eq e (lit "."))) [
  | inl s ↦ rw (s, clean_onto) (clean_onto-NoDots stack path n)
  | inr s ↦ elim (Bool-cases (text_eq e dots)) [
    | inl d ↦ rw (s, d, clean_onto) (clean_onto-NoDots (pop stack) path (pop-NoDots stack n))
    | inr d ↦ rw (s, d, clean_onto) (clean_onto-NoDots (e ∷ stack) path (d, n))
  ]
]

reverse_onto-NoDots :
    (done path : Elements) → NoDots done → NoDots path → NoDots (reverse_onto done path)
reverse_onto-NoDots done [] d n = d
reverse_onto-NoDots done (e ∷ path) d (n, ns) = reverse_onto-NoDots (e ∷ done) path (n, d) ns

clean-NoDots : (path : Elements) → NoDots (clean path)
unfolding clean
clean-NoDots path = reverse_onto-NoDots [] (clean_onto [] path) tt (clean_onto-NoDots [] path tt)

rel-up :
    (root path : Elements) → NoDots path → begins_up (rel root path) ≡ not (begins_with root path)
unfolding rel
rel-up [] [] n = refl
rel-up [] (e ∷ path) (n, ns) = n
rel-up (r ∷ root) [] n = text_eq_refl dots
rel-up (r ∷ root) (e ∷ path) (n, ns) = ground (arith, rel-up root path ns, text_eq_refl dots)

-- A path is within a root exactly when the clean path begins with all the elements of the clean root.
pub is_within-begins :
    (root path : Elements) → is_within (some root) path ≡ begins_with (clean root) (clean path)
unfolding is_within
is_within-begins root path = ground (arith, rel-up (clean root) (clean path) (clean-NoDots path))

outside :
    (root path q : Elements)
    → begins_with root path ≡ true
    → begins_with root q ≡ false
    → path_eq path q ≡ false
outside [] path q b n = ground arith
outside (r ∷ root) [] q b n = ground arith
outside (r ∷ root) (e ∷ path) [] b n = refl
outside (r ∷ root) (e ∷ path) (f ∷ q) b n =
    ground (arith, text_eq_iff r e, text_eq_iff e f, text_eq_iff r f, outside root path q)

-- Where a work repo is set, and no symbolic link is on the path, so that it names its clean path, writing
-- a file changes no file that is not under the work repo, however the path climbs.
pub write_file-outside :
    (resolve : Elements → Elements) (root path q : Elements) (content : Text) (files : Files)
    → resolve path ≡ clean path
    → begins_with (clean root) q ≡ false
    → read q (write_file resolve (some root) (some path) content files).0 ≡ read q files
unfolding write_file read
write_file-outside resolve root path q content files e n =
    ground (arith, is_within-begins root path, outside (clean root) (clean path) q)

-- The same of editing a file.
pub edit_file-outside :
    (resolve : Elements → Elements) (root path q : Elements) (old new : Text) (files : Files)
    → resolve path ≡ clean path
    → begins_with (clean root) q ≡ false
    → read q (edit_file resolve (some root) (some path) old new files).0 ≡ read q files
unfolding edit_file read
edit_file-outside resolve root path q old new files e n =
    ground (arith, is_within-begins root path, outside (clean root) (clean path) q)
