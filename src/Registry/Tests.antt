-- ===== src/Registry/Tests.antt =====
-- A small registry on concrete calls, and the theorems at them.
use bunkerweb_mcp.Prelude.{String, true, none, some, ◌≡◌, refl}
use bunkerweb_mcp.Prelude.Dict.{lookup}
use bunkerweb_mcp.Json.{end}
use bunkerweb_mcp.Errors.{bunkerweb_error, http_status_error, ok, err}
use bunkerweb_mcp.Redaction.Pattern.{default_policy}
use bunkerweb_mcp.Registry.Effects.{effect_for}
use bunkerweb_mcp.Registry.{Handler, redact_handler, init_tools, execute, tool_error}
use bunkerweb_mcp.Registry.Promises.{
  is_tool_error, upstream_status, read_only_tools, execute-error, execute-withheld,
}

-- Every handler answers an empty dict.
abbrev handlers : String → Handler
handlers name params = ok end

abbrev refusing : Handler
refusing params = err (bunkerweb_error "db at 10.0.0.5 refused" (some 409))

abbrev leaking : Handler
leaking params = err (http_status_error 409 "password=hunter2")

read_only_tools_example : (effect_for "list_services").read_only ≡ true
unfolding init_tools effect_for lookup
read_only_tools_example = read_only_tools handlers true none "list_services" refl

execute-error_example : is_tool_error (tool_error (http_status_error 409 "password=hunter2")) ≡ true
unfolding execute
execute-error_example =
    execute-error leaking (ok end) (tool_error (http_status_error 409 "password=hunter2")) refl

execute-withheld_example :
    execute (redact_handler default_policy "get_service" refusing) (ok end)
    ≡ execute (redact_handler default_policy "get_service" leaking) (ok end)
unfolding upstream_status
execute-withheld_example =
    execute-withheld default_policy "get_service" refusing leaking end
      (bunkerweb_error "db at 10.0.0.5 refused" (some 409))
      (http_status_error 409 "password=hunter2") (some 409) refl refl refl refl
