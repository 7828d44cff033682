-- ===== src/Service/EventHandler/Durations.antt =====
-- `_recordMetricsFromContext` of packages/account-lookup-svc/src/handler.ts: which durations are
-- observed for an event that was sent.
use account_lookup_bc.Prelude.{
  String, Option, none, some, List, [], ◌∷◌, ◌++◌, ℕ, zero, suc, ◌+◌, ◌-◌, is_some, leb, ◌==◌, ◌&&◌,
  if◌then◌else◌, ℤ, pos, negsuc, whole, not_a_number, parse_int, ◌≡◌, refl,
}

-- The value of an entry of the baggage; `none` stands for undefined, NaN and 0, which count alike.
unfoldable pub timestamp : Option String → Option ℤ
unfolding parse_int
timestamp none = none
timestamp (some text) = if text == "" then none else elim (parse_int text) [
  | not_a_number ↦ none
  | whole n ↦ elim n [
    | pos m ↦ elim m [ zero ↦ none | suc k ↦ some (pos (suc k)) ]
    | negsuc m ↦ some (negsuc m)
  ]
]

-- `now - ts`
abbrev since : ℕ → ℤ → ℤ
since now (pos ts) = if leb ts now then pos (now - ts) else negsuc (ts - now - 1)
since now (negsuc ts) = pos (now + suc ts)

abbrev observed : String → ℕ → Option ℤ → List (String × ℤ)
observed leg now none = []
observed leg now (some ts) = (leg, since now ts) ∷ []

-- The legs that are observed, with their durations, where `baggage` is that of the context, if it
-- has one, and gives the value of an entry.
unfoldable pub record_metrics_from_context :
    Option (String → Option String) → ℕ → String → List (String × ℤ)
unfolding timestamp
record_metrics_from_context none now msg_name = []
record_metrics_from_context (some baggage) now msg_name =
    let start = timestamp (baggage "tracing-request-start-timestamp") in
    let response = timestamp (baggage "tracing-response-start-timestamp") in
    if msg_name == "PartyInfoRequestedEvt" && is_some start
    then observed "request" now start
    else if msg_name == "PartyQueryResponseEvt" && is_some response
    then observed "response" now response ++ observed "total" now start
    else []

response_run :
    record_metrics_from_context
      (some (λ name. if name == "tracing-request-start-timestamp" then some "100" else some "150"))
      160
      "PartyQueryResponseEvt"
    ≡ ("response", pos 10) ∷ ("total", pos 60) ∷ []
unfolding record_metrics_from_context
response_run = refl
