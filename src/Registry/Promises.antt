-- ===== src/Registry/Promises.antt =====
-- What src/bunkerweb_mcp/tools/registry.py promises of the tools that it offers.
use bunkerweb_mcp.Prelude.{
  String, Bool, true, false, [], ◌∷◌, Option, none, some, ◌≡◌, refl, sym, ◌∙◌, ap, keep, Bool-cases,
  inl, inr, ◌==◌, ℕ, subst, eq_iff,
}
use bunkerweb_mcp.Prelude.Dict.{Dict, lookup}
use bunkerweb_mcp.Json.{Fields}
use bunkerweb_mcp.Errors.{
  Error, bunkerweb_error, tool_validation_error, tool_execution_error, http_status_error,
  request_error, other_error, Result, ok, err, ◌>>◌, err-injective,
}
use bunkerweb_mcp.Redaction.{RedactionPolicy}
use bunkerweb_mcp.Redaction.Calls.{check_call, withheld_error, withheld_text}
use bunkerweb_mcp.Registry.Effects.{effect_for}
use bunkerweb_mcp.Registry.{
  Handler, redact_handler, is_offered, wrapped_tools, init_tools, tool_error, execute, withhold,
  execute_answer, redact_answer,
}

some-injective : {a b : Option ℕ} → some a ≡ some b → a ≡ b
some-injective h = cc

lookup-keep :
    (name : String) (d : Dict Handler) {h : Handler}
    → lookup name (keep (is_offered true) d) ≡ some h
    → (effect_for name).read_only ≡ true
unfolding lookup
lookup-keep name [] e = absurd (cc)
lookup-keep name ((tool, handler) ∷ d) e = elim (Bool-cases (effect_for tool).read_only) [
  | inl ro ↦ elim (Bool-cases (tool == name)) [
    | inl same ↦ subst (λ t. (effect_for t).read_only ≡ true) ((eq_iff tool name).0 same) ro
    | inr other ↦ lookup-keep name d (sym (rw (ro, other) refl) ∙ e)
  ]
  | inr rw_tool ↦ lookup-keep name d (rw rw_tool at e)
]

-- A read-only server offers only tools whose effect is declared read-only, whatever else is
-- configured.
pub read_only_tools :
    (handlers : String → Handler) (with_logs : Bool) (redaction : Option RedactionPolicy)
    (name : String) {h : Handler}
    → lookup name (init_tools handlers with_logs redaction true) ≡ some h
    → (effect_for name).read_only ≡ true
unfolding init_tools
read_only_tools handlers with_logs redaction name e =
    lookup-keep name (wrapped_tools handlers with_logs redaction) e

unfoldable pub is_tool_error : Error → Bool
is_tool_error (tool_validation_error m) = true
is_tool_error (tool_execution_error m) = true
is_tool_error e = false

tool_error_lem : (e : Error) → is_tool_error (tool_error e) ≡ true
unfolding tool_error is_tool_error
tool_error_lem (bunkerweb_error m s) = refl
tool_error_lem (tool_validation_error m) = refl
tool_error_lem (tool_execution_error m) = refl
tool_error_lem (http_status_error c m) = refl
tool_error_lem (request_error m) = refl
tool_error_lem (other_error m) = refl

execute_answer-error :
    (answer : Result Fields) (e : Error) → execute_answer answer ≡ err e → is_tool_error e ≡ true
unfolding execute_answer
execute_answer-error (ok result) e h = absurd (cc)
execute_answer-error (err x) e h =
    subst (λ y. is_tool_error y ≡ true) (err-injective h) (tool_error_lem x)

-- Whatever a handler raises, a call raises nothing but ToolValidationError and ToolExecutionError.
pub execute-error :
    (handler : Handler) (validated : Result Fields) (e : Error)
    → execute handler validated ≡ err e
    → is_tool_error e ≡ true
unfolding execute is_tool_error
execute-error handler (err x) e h = subst (λ x. is_tool_error x ≡ true) (err-injective h) refl
execute-error handler (ok params) e h = execute_answer-error (handler params) e h

-- What a client may learn of an upstream error: its status code, if there is one. `none` stands
-- for the errors that the server words itself.
unfoldable pub upstream_status : Error → Option (Option ℕ)
upstream_status (bunkerweb_error m (some status)) = some (some status)
upstream_status (http_status_error code m) = some (some code)
upstream_status (request_error m) = some none
upstream_status (other_error m) = some none
upstream_status e = none

abbrev answer_of : Option ℕ → Error
answer_of none = tool_execution_error "Unexpected tool execution error"
answer_of (some status) = bunkerweb_error (withheld_text status) (some status)

withhold-upstream_status :
    (e : Error) {status : Option ℕ}
    → upstream_status e ≡ some status
    → withhold e ≡ answer_of status
unfolding withhold withheld_error upstream_status
withhold-upstream_status (bunkerweb_error m none) h = absurd (cc)
withhold-upstream_status (bunkerweb_error m (some s)) h = ap answer_of (some-injective h)
withhold-upstream_status (http_status_error code m) h = ap answer_of (some-injective h)
withhold-upstream_status (request_error m) h = ap answer_of (some-injective h)
withhold-upstream_status (other_error m) h = ap answer_of (some-injective h)
withhold-upstream_status (tool_validation_error m) h = absurd (cc)
withhold-upstream_status (tool_execution_error m) h = absurd (cc)

redact_answer-upstream_status :
    (policy : RedactionPolicy) (name : String) (answer : Result Fields) (e : Error)
    (status : Option ℕ)
    → answer ≡ err e
    → upstream_status e ≡ some status
    → redact_answer policy name answer ≡ err (answer_of status)
unfolding redact_answer
redact_answer-upstream_status policy name answer e status h s =
    rw (h, withhold-upstream_status e s) refl

-- With redaction on, two upstream failures of one call that have the same status code, or both
-- have none, give the client one answer: the text of an upstream error does not reach it.
pub execute-withheld :
    (policy : RedactionPolicy) (name : String) (handler other : Handler) (params : Fields)
    (e f : Error) (status : Option ℕ)
    → handler params ≡ err e
    → other params ≡ err f
    → upstream_status e ≡ some status
    → upstream_status f ≡ some status
    → execute (redact_handler policy name handler) (ok params)
      ≡ execute (redact_handler policy name other) (ok params)
unfolding execute redact_handler
execute-withheld policy name handler other params e f status he hf se sf =
    ap (λ answer. execute_answer (check_call policy name params >> answer))
      (redact_answer-upstream_status policy name (handler params) e status he se
        ∙ sym (redact_answer-upstream_status policy name (other params) f status hf sf))
