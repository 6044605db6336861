-- ===== src/Tools/Shell/Laws.antt =====
-- What a command that may run is, and where it may run.
use kaf_claw.Base.{
  Text, is_empty, to_lower, has_prefix-append, false, not, ◌&&◌, ◌||◌, none, is_none, ◌++◌, ◌≡◌,
  arith,
}
use kaf_claw.Tools.Shell.{ExecTool, guard_command, matches_any, in_roots, allowed_roots}

-- A command may run exactly when it matches an allowed pattern where those are strict, its text in lower
-- case matches no denied one, and, where the tool is restricted to a directory, it matches no pattern of
-- a traversal and is to run in no directory of its own or in one that begins with the text of an allowed
-- root.
pub guard_command-passes :
    (t : ExecTool) (command dir : Text)
    → is_none (guard_command t command dir) ≡ (
        (not t.strict_allow_list || matches_any t.allow_regexes command)
        && not (t.destructive_rm_root (to_lower command))
        && not (matches_any t.deny_regexes (to_lower command))
        && (not (t.restrict_to_workspace && not (is_empty t.work_dir))
            || (not (matches_any t.path_regexes command)
                && (is_empty dir || in_roots (allowed_roots t) (t.abs dir)))))
unfolding guard_command
guard_command-passes t command dir = ground arith

-- A command that may run in some directory may run in any directory, not empty, whose absolute path is
-- that of the workspace with more text behind it, such as a sibling of the workspace.
pub guard_command-sibling :
    (t : ExecTool) (command dir sibling more : Text)
    → guard_command t command dir ≡ none
    → is_empty (t.abs t.work_dir) ≡ false
    → t.abs sibling ≡ t.abs t.work_dir ++ more
    → guard_command t command sibling ≡ none
unfolding guard_command allowed_roots
guard_command-sibling t command dir sibling more g w e =
    ground (arith, has_prefix-append (t.abs t.work_dir) more)
