-- ===== src/Providers.antt =====
-- internal/provider/resolver.go, with the constructors of openai.go, codex.go, gemini.go and xai.go.
-- none is an error, whose hint is left out. The cache of rate limits is left out.
pub mod Laws
mod Tests
use kaf_claw.Base.{
  ℕ, Text, lit, text_eq, is_empty, to_lower, trim_space, strip_suffix, Table, lookup, Bool, true,
  false, not, ◌&&◌, ◌||◌, Option, none, some, is_some, List, [], ◌∷◌, ◌++◌, if◌then◌else◌, ◌==◌,
}

pub record ProviderConfig : Type 0 where
  pub api_key : Text
  pub api_base : Text

pub record ProvidersConfig : Type 0 where
  pub anthropic : ProviderConfig
  pub openai : ProviderConfig
  pub open_router : ProviderConfig
  pub deep_seek : ProviderConfig
  pub groq : ProviderConfig
  pub gemini : ProviderConfig
  pub vllm : ProviderConfig
  pub xai : ProviderConfig
  pub scalytics_copilot : ProviderConfig

-- An empty text is a model, or a model of the subagents, that is not set, as is a missing section.
pub record AgentListEntry : Type 0 where
  pub id : Text
  pub has_model : Bool
  pub primary : Text
  pub fallbacks : List Text
  pub subagents_model : Text

-- The list is empty where there is no section of agents.
pub record Config : Type 0 where
  pub model_name : Text
  pub task_routing : Table Text
  pub providers : ProvidersConfig
  pub agents : List AgentListEntry
  pub subagents_model : Text

pub data Provider : Type 0 where
  openai_provider : Text → Text → Text → Provider
  codex_provider : Text → Provider
  gemini_provider : Text → Text → Provider
  gemini_cli_provider : Text → Provider
  xai_provider : Text → Text → Provider

abbrev pub default_to : Text → Text → Text
default_to default s = if is_empty s then default else s

abbrev trim_slash : Text → Text
trim_slash s = elim (strip_suffix s (lit "/")) [ none ↦ s | some t ↦ t ]

unfoldable pub new_openai_provider : Text → Text → Text → Provider
new_openai_provider key base model =
    openai_provider key (trim_slash (default_to (lit "https://api.openai.com/v1") base))
      (default_to (lit "anthropic/claude-sonnet-4-5") model)

abbrev alias : Text → Text
alias lower =
    if text_eq lower (lit "codex")
    then lit "openai-codex"
    else if text_eq lower (lit "anthropic")
    then lit "claude"
    else if text_eq lower (lit "copilot")
    then lit "scalytics-copilot"
    else if text_eq lower (lit "grok")
    then lit "xai"
    else lower

unfoldable pub normalize_provider_id : Text → Config → Text
normalize_provider_id id cfg =
    let lower = to_lower (trim_space id) in
    if text_eq lower (lit "google")
    then (if is_empty cfg.providers.gemini.api_key then lit "gemini-cli" else lit "gemini")
    else alias lower

-- What stands before the first slash and after it; none without one.
unfoldable pub cut_slash : Text → Option (Text × Text)
cut_slash [] = none
cut_slash (c ∷ s) =
    let cut = cut_slash s in
    if c == 47 then some ([], s) else elim cut [ none ↦ none | some p ↦ some (c ∷ p.0, p.1) ]

abbrev model_parts : Text → Option (Text × Text) → Text × Text
model_parts s none = ([], s)
model_parts s (some p) = (to_lower p.0, p.1)

unfoldable pub parse_model_string : Text → Text × Text
parse_model_string s = let t = trim_space s in model_parts t (cut_slash t)

-- A provider that needs a key, and has a base of its own.
abbrev keyed : ProviderConfig → Text → Text → Option Provider
keyed section base model =
    if is_empty section.api_key
    then none
    else some (new_openai_provider section.api_key (default_to base section.api_base) model)

abbrev with_key : ProviderConfig → Provider → Option Provider
with_key section p = if is_empty section.api_key then none else some p

unfoldable pub build_provider : Config → Text → Text → Option Provider
build_provider cfg id model =
    let ps = cfg.providers in
    if text_eq id (lit "claude")
    then keyed ps.anthropic (lit "https://api.anthropic.com/v1") model
    else if text_eq id (lit "openai")
    then keyed ps.openai [] model
    else if text_eq id (lit "openai-codex")
    then some (codex_provider (default_to (lit "gpt-5.3-codex") model))
    else if text_eq id (lit "gemini")
    then with_key ps.gemini
        (gemini_provider ps.gemini.api_key (default_to (lit "gemini-2.0-flash") model))
    else if text_eq id (lit "gemini-cli")
    then some (gemini_cli_provider (default_to (lit "gemini-2.0-flash") model))
    else if text_eq id (lit "xai")
    then with_key ps.xai (xai_provider ps.xai.api_key (default_to (lit "grok-3") model))
    else if text_eq id (lit "scalytics-copilot")
    then (if is_empty ps.scalytics_copilot.api_base
        then none
        else keyed ps.scalytics_copilot [] model)
    else if text_eq id (lit "openrouter")
    then keyed ps.open_router (lit "https://openrouter.ai/api/v1") model
    else if text_eq id (lit "deepseek")
    then keyed ps.deep_seek (lit "https://api.deepseek.com/v1") model
    else if text_eq id (lit "groq")
    then keyed ps.groq (lit "https://api.groq.com/openai/v1") model
    else if text_eq id (lit "vllm")
    then (if is_empty ps.vllm.api_base
        then none
        else some (new_openai_provider ps.vllm.api_key ps.vllm.api_base model))
    else none

abbrev pub is_own : Text → AgentListEntry → Bool
is_own agent e = text_eq e.id agent && e.has_model && not (is_empty e.primary)

unfoldable pub has_per_agent_model : Text → List AgentListEntry → Bool
has_per_agent_model agent [] = false
has_per_agent_model agent (e ∷ list) =
    if is_own agent e then true else has_per_agent_model agent list

unfoldable pub own_model : Text → List AgentListEntry → Text → Text
own_model agent [] default = default
own_model agent (e ∷ list) default =
    if is_own agent e then e.primary else own_model agent list default

unfoldable pub resolve_model_string : Config → Text → Text
resolve_model_string cfg agent = own_model agent cfg.agents cfg.model_name

abbrev pub legacy : Config → Text → Provider
legacy cfg model =
    new_openai_provider cfg.providers.openai.api_key cfg.providers.openai.api_base model

abbrev or_legacy : Config → Bool → Text → Option Provider → Option Provider
or_legacy cfg own model (some p) = some p
or_legacy cfg own model none = if own then none else some (legacy cfg model)

unfoldable pub resolve : Config → Text → Option Provider
resolve cfg agent =
    let model_string = resolve_model_string cfg agent in
    let (id, model) = parse_model_string model_string in
    if is_empty model_string
    then some (legacy cfg cfg.model_name)
    else if is_empty id
    then some (legacy cfg model)
    else or_legacy cfg (has_per_agent_model agent cfg.agents) model_string
        (build_provider cfg (normalize_provider_id id cfg) model)

-- The provider of a model string that names one; none for one that does not, and for an error.
abbrev pub named_provider : Config → Text → Option Provider
named_provider cfg s =
    let (id, model) = parse_model_string s in
    if is_empty id then none else build_provider cfg (normalize_provider_id id cfg) model

abbrev routed : Config → Option Text → Option Provider
routed cfg none = none
routed cfg (some model_string) = named_provider cfg model_string

abbrev or_resolve : Config → Text → Option Provider → Option Provider
or_resolve cfg agent (some p) = some p
or_resolve cfg agent none = resolve cfg agent

unfoldable pub resolve_with_task_type : Config → Text → Text → Option Provider
resolve_with_task_type cfg agent category =
    if has_per_agent_model agent cfg.agents || is_empty category
    then resolve cfg agent
    else or_resolve cfg agent (routed cfg (lookup category cfg.task_routing))

abbrev subagent_model : Text → List AgentListEntry → Text → Text
subagent_model agent [] default = default
subagent_model agent (e ∷ list) default =
    if text_eq e.id agent && not (is_empty e.subagents_model)
    then e.subagents_model
    else subagent_model agent list default

abbrev explicit_provider : Config → Text → Option Provider
explicit_provider cfg s =
    let (id, model) = parse_model_string s in
    if is_empty id
    then some (legacy cfg model)
    else build_provider cfg (normalize_provider_id id cfg) model

unfoldable pub resolve_subagent : Config → Text → Option Provider
resolve_subagent cfg agent =
    let model_string = subagent_model agent cfg.agents cfg.subagents_model in
    if is_empty model_string then resolve cfg agent else explicit_provider cfg model_string

abbrev add_built : Option Provider → List Provider → List Provider
add_built none ps = ps
add_built (some p) ps = p ∷ ps

abbrev build_all : Config → List Text → List Provider
build_all cfg [] = []
build_all cfg (s ∷ list) = add_built (named_provider cfg s) (build_all cfg list)

abbrev fallbacks_of : Text → List AgentListEntry → List Text
fallbacks_of agent [] = []
fallbacks_of agent (e ∷ list) =
    if text_eq e.id agent && e.has_model then e.fallbacks else fallbacks_of agent list

unfoldable pub resolve_fallbacks : Config → Text → List Provider
resolve_fallbacks cfg agent = build_all cfg (fallbacks_of agent cfg.agents)
