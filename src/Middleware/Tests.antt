-- ===== src/Middleware/Tests.antt =====
-- Runs of a chain of middleware.
use kaf_claw.Base.{
  ℕ, Text, lit, text_eq, to_lower, to_upper, lower, upper, contains, has_prefix, join, insert,
  length, true, some, none, Option, [], ◌∷◌, ◌≡◌, if◌then◌else◌, refl,
}
use kaf_claw.Middleware.{
  ChatRequest, ChatResponse, process, run_before, run_after, new_request_meta,
}
use kaf_claw.Middleware.Detectors.{
  NamedRegex, scan, scan_with, find_matches, redact, redact_with, contains_keywords,
}
use kaf_claw.Middleware.Guard.{
  PromptGuard, prompt_guard, guard_request, guard_messages, judge, action_for, match_types,
}
use kaf_claw.Middleware.Guard.Laws.{process-guarded}

chain : Unit {0}
unfolding text_eq to_lower to_upper lower upper contains has_prefix join insert process run_before
    run_after scan scan_with find_matches redact redact_with contains_keywords guard_request
    guard_messages judge action_for match_types
chain = tt

-- Finds a text as a whole.
abbrev finder : Text → Text → NamedRegex
finder name what = record {
  name = name;
  find_all = λ text. if text_eq text what then (0, length text) ∷ [] else [];
  replace_all = λ text by. if text_eq text what then by else text;
}

abbrev guard : PromptGuard
guard = record {
  enabled = true;
  mode = [];
  pii_action = lit "block";
  secrets_action = lit "warn";
  detector = record {
    pii_detectors = finder (lit "email") (lit "a@b.c") ∷ [];
    secret_detectors = finder (lit "api_key") (lit "sk-1") ∷ [];
    custom_detectors = [];
  };
  deny_keywords = lit "Forbidden" ∷ [];
}

abbrev request : Text → ChatRequest
request text = record {
  messages = record { role = lit "user"; content = text } ∷ [];
  model = lit "m";
}

abbrev echo : ℕ → ChatRequest → Option ChatResponse
echo p req = some (record { content = lit "ok"; finish_reason = lit "stop" })

process-guarded_example :
    (process echo
      (record { middlewares = prompt_guard guard ∷ []; provider = 0 })
      (request (lit "it is FORBIDDEN"))
      (new_request_meta [] [])).called
    ≡ none
unfolding chain
process-guarded_example =
    process-guarded echo guard [] 0 (request (lit "it is FORBIDDEN")) (new_request_meta [] []) refl
      refl refl

-- Personal data alone is blocked; with a secret beside it the action of the secrets wins, which warns.
weaker_action_wins :
    (action_for guard (lit "email" ∷ []) ≡ lit "block")
    × (action_for guard (lit "email" ∷ lit "api_key" ∷ []) ≡ lit "warn")
unfolding chain
weaker_action_wins = (refl, refl)
