-- ===== src/Providers/Laws.antt =====
-- When no provider is found, and whose key it is given.
use kaf_claw.Base.{Text, is_empty, true, false, not, ◌&&◌, is_none, List, [], ◌∷◌, ◌≡◌, arith}
use kaf_claw.Providers.{
  Config, AgentListEntry, resolve, resolve_with_task_type, resolve_model_string,
  has_per_agent_model, own_model, parse_model_string, build_provider, normalize_provider_id,
}

own_model-set :
    (agent default : Text) (list : List AgentListEntry)
    → has_per_agent_model agent list ≡ true
    → is_empty (own_model agent list default) ≡ false
unfolding own_model has_per_agent_model
own_model-set agent default [] h = ground arith
own_model-set agent default (e ∷ list) h = ground (arith, own_model-set agent default list)

-- Resolving an agent's provider fails exactly when the agent has a model of its own that names a
-- provider that cannot be built; with any other configuration there is one, for each kind of task.
pub resolve_with_task_type-fails :
    (cfg : Config) (agent category : Text)
    → is_none (resolve_with_task_type cfg agent category) ≡ (
        has_per_agent_model agent cfg.agents
        && (let (id, model) = parse_model_string (resolve_model_string cfg agent) in
            not (is_empty id) && is_none (build_provider cfg (normalize_provider_id id cfg) model)))
unfolding resolve_with_task_type resolve resolve_model_string
resolve_with_task_type-fails cfg agent category =
    ground (arith, own_model-set agent cfg.model_name cfg.agents)
