-- ===== src/Middleware/Guard/Laws.antt =====
-- When the guard blocks, and what reaches a provider behind it.
use kaf_claw.Base.{
  ℕ, lit, any, Bool, true, false, Option, none, some, List, [], ◌∷◌, map, ◌≡◌, refl, ap, ◌∙◌, arith,
}
use kaf_claw.Middleware.{
  ChatMessage, ChatRequest, ChatResponse, RequestMeta, ChatMiddleware, process, run_before,
  provider_of,
}
use kaf_claw.Middleware.Guard.{
  PromptGuard, Verdict, denies, blocks, redacts, judge, guard_messages, guard_request, prompt_guard,
  redacted, tagged,
}

-- The verdicts that block the request.
abbrev pub is_stop : Verdict → Bool
is_stop (denies _) = true
is_stop (blocks _) = true
is_stop _ = false

abbrev pub stops : PromptGuard → ChatMessage → Bool
stops g msg = is_stop (judge g msg)

-- A message as the guard lets it through.
abbrev pub let_through : PromptGuard → ChatMessage → ChatMessage
let_through g msg = elim (judge g msg) [ redacts ↦ redacted g msg | _ ↦ msg ]

-- The guard blocks a request exactly when it stops one of its messages.
pub guard_messages-blocked :
    (g : PromptGuard) (msgs : List ChatMessage) (meta : RequestMeta)
    → meta.blocked ≡ false
    → (guard_messages g msgs meta).1.blocked ≡ any (stops g) msgs
unfolding guard_messages
guard_messages-blocked g [] meta e = e
guard_messages-blocked g (msg ∷ msgs) meta e = ground (
  arith,
  guard_messages-blocked g msgs meta e,
  guard_messages-blocked g msgs (tagged (lit "redacted") meta) e,
  guard_messages-blocked g msgs (tagged (lit "detected") meta) e,
)

guard_messages-through :
    (g : PromptGuard) (msgs : List ChatMessage) (meta : RequestMeta)
    → any (stops g) msgs ≡ false
    → (guard_messages g msgs meta).0 ≡ map (let_through g) msgs
unfolding guard_messages
guard_messages-through g [] meta e = refl
guard_messages-through g (msg ∷ msgs) meta e = ground (
  arith,
  guard_messages-through g msgs meta,
  guard_messages-through g msgs (tagged (lit "redacted") meta),
  guard_messages-through g msgs (tagged (lit "detected") meta),
)

guard_messages-keeps_override :
    (g : PromptGuard) (msgs : List ChatMessage) (meta : RequestMeta)
    → (guard_messages g msgs meta).1.provider_override ≡ meta.provider_override
unfolding guard_messages
guard_messages-keeps_override g [] meta = refl
guard_messages-keeps_override g (msg ∷ msgs) meta = ground (
  arith,
  guard_messages-keeps_override g msgs meta,
  guard_messages-keeps_override g msgs (tagged (lit "redacted") meta),
  guard_messages-keeps_override g msgs (tagged (lit "detected") meta),
)

guard_request-on :
    (g : PromptGuard) (req : ChatRequest) (meta : RequestMeta)
    → g.enabled ≡ true
    → let r = guard_messages g req.messages meta in
      guard_request g req meta ≡ (record req { messages = r.0 }, r.1)
unfolding guard_request
guard_request-on g req meta e = rw (e, guard_request) refl

process-stopped :
    (chat : ℕ → ChatRequest → Option ChatResponse) (mw : ChatMiddleware)
    (rest : List ChatMiddleware) (p : ℕ) (req : ChatRequest) (meta : RequestMeta)
    (r : ChatRequest × RequestMeta)
    → mw.process_request req meta ≡ some r
    → r.1.blocked ≡ true
    → (process chat (record { middlewares = mw ∷ rest; provider = p }) req meta).called ≡ none
unfolding process run_before
process-stopped chat mw rest p req meta r e b = rw (process, run_before, e, b) refl

process-passed :
    (chat : ℕ → ChatRequest → Option ChatResponse) (mw : ChatMiddleware) (p : ℕ) (req : ChatRequest)
    (meta : RequestMeta) (r : ChatRequest × RequestMeta)
    → mw.process_request req meta ≡ some r
    → r.1.blocked ≡ false
    → (process chat (record { middlewares = mw ∷ []; provider = p }) req meta).called
      ≡ some (provider_of p r.1.provider_override, r.0)
unfolding process run_before
process-passed chat mw p req meta r e b = rw (process, run_before, e, b) refl

-- In a chain that begins with a guard that is enabled, no provider is called when the guard stops a
-- message of the request, whatever the rest of the chain does.
pub process-guarded :
    (chat : ℕ → ChatRequest → Option ChatResponse) (g : PromptGuard) (rest : List ChatMiddleware)
    (p : ℕ) (req : ChatRequest) (meta : RequestMeta)
    → g.enabled ≡ true
    → meta.blocked ≡ false
    → any (stops g) req.messages ≡ true
    → (process chat (record { middlewares = prompt_guard g ∷ rest; provider = p }) req meta).called
      ≡ none
process-guarded chat g rest p req meta n b s =
    process-stopped chat (prompt_guard g) rest p req meta (guard_request g req meta) refl (
      ap (λ r. r.1.blocked) (guard_request-on g req meta n)
      ∙ guard_messages-blocked g req.messages meta b
      ∙ s)

-- A chain that is only such a guard, for a request of which it stops no message, calls the provider with
-- each message redacted where the guard says so.
pub process-through :
    (chat : ℕ → ChatRequest → Option ChatResponse) (g : PromptGuard) (p : ℕ) (req : ChatRequest)
    (meta : RequestMeta)
    → g.enabled ≡ true
    → meta.blocked ≡ false
    → meta.provider_override ≡ none
    → any (stops g) req.messages ≡ false
    → (process chat (record { middlewares = prompt_guard g ∷ []; provider = p }) req meta).called
      ≡ some (p, record req { messages = map (let_through g) req.messages })
process-through chat g p req meta n b o s =
    let on = guard_request-on g req meta n in
    let through = guard_messages-through g req.messages meta s in
    let override = guard_messages-keeps_override g req.messages meta in
    process-passed chat (prompt_guard g) p req meta (guard_request g req meta) refl
      (ap (λ r. r.1.blocked) on ∙ guard_messages-blocked g req.messages meta b ∙ s)
    ∙ rw (on, override ∙ o, through) refl
