-- ===== src/Middleware.antt =====
-- internal/provider/middleware: middleware.go here. A hook takes the request and the context of the
-- chain, which the source changes in place, and gives them back; none is an error. A provider is known
-- by a number; what it answers is a parameter. Costs, which are floating point, are left out.
pub mod Detectors
pub mod Guard
pub mod Sanitizer
mod Tests
use kaf_claw.Base.{
  ℕ, Text, lit, Table, Bool, true, false, Option, none, some, List, [], ◌∷◌, ◌++◌, if◌then◌else◌,
}

pub record ChatMessage : Type 0 where
  pub role : Text
  pub content : Text

pub record ChatRequest : Type 0 where
  pub messages : List ChatMessage
  pub model : Text

pub record ChatResponse : Type 0 where
  pub content : Text
  pub finish_reason : Text

pub record RequestMeta : Type 0 where
  pub provider_id : Text
  pub model_name : Text
  pub sender_id : Text
  pub channel : Text
  pub message_type : Text
  pub tags : Table Text
  pub blocked : Bool
  pub block_reason : Text
  pub provider_override : Option ℕ

abbrev pub new_request_meta : Text → Text → RequestMeta
new_request_meta provider model = record {
  provider_id = provider;
  model_name = model;
  sender_id = [];
  channel = [];
  message_type = [];
  tags = [];
  blocked = false;
  block_reason = [];
  provider_override = none;
}

pub record ChatMiddleware : Type 0 where
  pub name : Text
  pub process_request : ChatRequest → RequestMeta → Option (ChatRequest × RequestMeta)
  pub process_response :
      ChatRequest → ChatResponse → RequestMeta → Option (ChatResponse × RequestMeta)

pub record Chain : Type 0 where
  pub middlewares : List ChatMiddleware
  pub provider : ℕ

abbrev pub use_middleware : List ChatMiddleware → Chain → Chain
use_middleware more c = record c { middlewares = c.middlewares ++ more }

-- How the hooks before the call end.
pub data Before : Type 0 where
  failed : Text → Before
  stopped : ChatResponse → Before
  passed : ChatRequest → RequestMeta → Before

abbrev blocked_response : Text → RequestMeta → ChatResponse
blocked_response name meta = record {
  content = lit "[blocked by " ++ (name ++ (lit "] " ++ meta.block_reason));
  finish_reason = lit "blocked";
}

unfoldable pub run_before : List ChatMiddleware → ChatRequest → RequestMeta → Before
run_before [] req meta = passed req meta
run_before (mw ∷ mws) req meta = elim (mw.process_request req meta) [
  | none ↦ failed mw.name
  | some p ↦
      let rest = run_before mws p.0 p.1 in
      if p.1.blocked then stopped (blocked_response mw.name p.1) else rest
]

-- none is the error of a hook after the call.
unfoldable pub run_after :
    List ChatMiddleware
    → ChatRequest
    → ChatResponse
    → RequestMeta
    → Option (ChatResponse × RequestMeta)
run_after [] req resp meta = some (resp, meta)
run_after (mw ∷ mws) req resp meta = elim (mw.process_response req resp meta) [
  | none ↦ none
  | some p ↦ run_after mws req p.0 p.1
]

-- The response, none for an error, and the call of a provider that was made.
pub record Processed : Type 0 where
  pub response : Option ChatResponse
  pub called : Option (ℕ × ChatRequest)

abbrev pub provider_of : ℕ → Option ℕ → ℕ
provider_of default none = default
provider_of default (some p) = p

abbrev response_of : Option (ChatResponse × RequestMeta) → Option ChatResponse
response_of none = none
response_of (some p) = some p.0

abbrev answered : Chain → ChatRequest → RequestMeta → Option ChatResponse → Option ChatResponse
answered c req meta none = none
answered c req meta (some resp) = response_of (run_after c.middlewares req resp meta)

unfoldable pub process :
    (ℕ → ChatRequest → Option ChatResponse) → Chain → ChatRequest → RequestMeta → Processed
process chat c req meta = elim (run_before c.middlewares req meta) [
  | failed name ↦ record { response = none; called = none }
  | stopped resp ↦ record { response = some resp; called = none }
  | passed req' meta' ↦
      let prov = provider_of c.provider meta'.provider_override in
      record { response = answered c req' meta' (chat prov req'); called = some (prov, req') }
]
