-- ===== src/Providers/Tests.antt =====
-- Runs of the resolver.
use kaf_claw.Base.{
  lit, text_eq, to_lower, lower, trim_space, trim_left, trim_right, is_space, lookup, strip_suffix,
  true, some, is_none, [], ◌∷◌, ◌≡◌, refl,
}
use kaf_claw.Providers.{
  Config, ProviderConfig, resolve, resolve_with_task_type, resolve_model_string,
  has_per_agent_model, own_model, parse_model_string, cut_slash, build_provider,
  normalize_provider_id, new_openai_provider, resolve_subagent, openai_provider,
}
use kaf_claw.Providers.Laws.{resolve_with_task_type-fails}

resolver : Unit {0}
unfolding text_eq to_lower lower trim_space trim_left trim_right is_space lookup strip_suffix
    resolve resolve_with_task_type resolve_model_string has_per_agent_model own_model
    parse_model_string cut_slash build_provider normalize_provider_id new_openai_provider
    resolve_subagent
resolver = tt

abbrev unset : ProviderConfig
unset = record { api_key = []; api_base = [] }

abbrev config : Config
config = record {
  model_name = lit "claude/opus";
  task_routing = [];
  providers = record {
    anthropic = unset;
    openai = record { api_key = lit "k"; api_base = lit "http://o/" };
    open_router = unset;
    deep_seek = unset;
    groq = unset;
    gemini = unset;
    vllm = unset;
    xai = unset;
    scalytics_copilot = unset;
  };
  agents =
      record {
        id = lit "a";
        has_model = true;
        primary = lit " anthropic/opus";
        fallbacks = [];
        subagents_model = [];
      }
      ∷ [];
  subagents_model = [];
}

resolve_with_task_type-fails_example :
    is_none (resolve_with_task_type config (lit "a") (lit "coding")) ≡ true
unfolding resolver
resolve_with_task_type-fails_example = resolve_with_task_type-fails config (lit "a") (lit "coding")

-- An agent without a model of its own falls back on OpenAI, which is asked for the model by its full name.
fallen_back :
    resolve config (lit "b") ≡ some (openai_provider (lit "k") (lit "http://o") (lit "claude/opus"))
unfolding resolver
fallen_back = refl
