-- ===== src/Tools/Shell.antt =====
-- `guardCommand` of internal/tools/shell.go. A pattern is whether it matches a text, which package
-- regexp says; `abs` is `filepath.Abs`, which succeeds. Running the command is left out.
pub mod Laws
use kaf_claw.Base.{
  Text, lit, is_empty, to_lower, has_prefix, any, Bool, true, false, not, ◌&&◌, ◌||◌, Option, none,
  some, List, [], ◌∷◌, ◌++◌, if◌then◌else◌,
}

pub record ExecTool : Type 0 where
  pub restrict_to_workspace : Bool
  pub work_dir : Text
  pub work_repo : Text
  pub deny_regexes : List (Text → Bool)
  pub path_regexes : List (Text → Bool)
  pub allow_regexes : List (Text → Bool)
  pub destructive_rm_root : Text → Bool
  pub strict_allow_list : Bool
  pub abs : Text → Text

abbrev pub matches_any : List (Text → Bool) → Text → Bool
matches_any patterns text = any (λ p. p text) patterns

abbrev pub blocked_attack_message : Text
blocked_attack_message = lit "Ey, du spinnst wohl? H" ++ (195 ∷ 164 ∷ lit "?")

unfoldable pub allowed_roots : ExecTool → List Text
allowed_roots t =
    let work = t.abs t.work_dir in
    (if is_empty work then [] else work ∷ [])
    ++ (if is_empty t.work_repo then [] else t.abs t.work_repo ∷ [])

abbrev pub in_roots : List Text → Text → Bool
in_roots roots dir = any (λ root. has_prefix dir root) roots

-- The error, none when the command may run.
unfoldable pub guard_command : ExecTool → Text → Text → Option Text
guard_command t command working_dir =
    let normalized = to_lower command in
    if t.strict_allow_list && not (matches_any t.allow_regexes command)
    then some blocked_attack_message
    else if t.destructive_rm_root normalized || matches_any t.deny_regexes normalized
    then some blocked_attack_message
    else if t.restrict_to_workspace && not (is_empty t.work_dir)
    then (if matches_any t.path_regexes command
        then some (lit "Error: path traversal not allowed")
        else if not (is_empty working_dir) && not (in_roots (allowed_roots t) (t.abs working_dir))
        then some blocked_attack_message
        else none)
    else none

unfoldable pub default_work_dir : ExecTool → Text
default_work_dir t = if is_empty t.work_repo then t.work_dir else t.work_repo
