-- ===== src/Tools/Tests.antt =====
-- Runs of the guards of the tools.
use kaf_claw.Base.{
  lit, text_eq, to_lower, lower, has_prefix, true, false, some, none, [], ◌∷◌, ◌++◌, ◌≡◌, refl,
}
use kaf_claw.Tools.Shell.{ExecTool, guard_command, allowed_roots}
use kaf_claw.Tools.Shell.Laws.{guard_command-sibling}
use kaf_claw.Tools.Files.{Elements, Files, clean, clean_onto, rel, is_within, read, write_file}
use kaf_claw.Tools.Files.Laws.{write_file-outside}

tools : Unit {0}
unfolding text_eq to_lower lower has_prefix guard_command allowed_roots clean clean_onto rel
    is_within read write_file
tools = tt

abbrev exec : ExecTool
exec = record {
  restrict_to_workspace = true;
  work_dir = lit "/w";
  work_repo = [];
  deny_regexes = [];
  path_regexes = [];
  allow_regexes = (λ command. has_prefix command (lit "ls")) ∷ [];
  destructive_rm_root = λ command. false;
  strict_allow_list = true;
  abs = λ dir. dir;
}

guard_command-sibling_example : guard_command exec (lit "ls") (lit "/w-secret") ≡ none
unfolding tools
guard_command-sibling_example =
    guard_command-sibling exec (lit "ls") (lit "/w") (lit "/w-secret") (lit "-secret") refl refl
      refl

elsewhere_refused :
    guard_command exec (lit "ls") (lit "/etc")
    ≡ some (lit "Ey, du spinnst wohl? H" ++ (195 ∷ 164 ∷ lit "?"))
unfolding tools
elsewhere_refused = refl

abbrev repo : Elements
repo = lit "w" ∷ lit "repo" ∷ []

abbrev passwords : Elements
passwords = lit "etc" ∷ lit "passwd" ∷ []

abbrev files : Files
files = (passwords, lit "x") ∷ []

-- A path that climbs out of the repo.
abbrev climbing : Elements
climbing = repo ++ lit ".." ∷ lit ".." ∷ passwords

write_file-outside_example :
    read passwords (write_file clean (some repo) (some climbing) (lit "mine") files).0
    ≡ some (lit "x")
unfolding tools
write_file-outside_example =
    write_file-outside clean repo climbing passwords (lit "mine") files refl refl

-- A symbolic link in the repo, to the passwords.
abbrev a_link : Elements
a_link = repo ++ lit "notes" ∷ []

followed :
    read passwords (write_file (λ path. passwords) (some repo) (some a_link) (lit "mine") files).0
    ≡ some (lit "mine")
unfolding tools
followed = refl
