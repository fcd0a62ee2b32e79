-- ===== src/ServiceWrites/Receipt.antt =====
-- `build_receipt` and `_receipt` of src/bunkerweb_mcp/tools/service_writes.py.
use bunkerweb_mcp.Prelude.{
  ℕ, ◌+◌, String, Bool, false, not, ◌&&◌, ◌||◌, List, [], ◌∷◌, map, Option, none, some, ◌==◌, ◌<>◌,
  eqb, length, remove_prefix, if◌then◌else◌,
}
use bunkerweb_mcp.Prelude.Decimal.{show}
use bunkerweb_mcp.Prelude.Dict.{Dict, lookup, insert}
use bunkerweb_mcp.Json.{Value, str, obj, bool, Fields, end, field, get}
use bunkerweb_mcp.Errors.{Result, ok, err, ◌>>=◌}
use bunkerweb_mcp.Upstream.{UpstreamVersion, api_can_replace}
use bunkerweb_mcp.Upstream.Facts.{Facts, get_upstream_version}
use bunkerweb_mcp.ServiceWrites.{ServiceUpdateParams, stored_text, service_data}
use bunkerweb_mcp.ServiceWrites.Preflight.{Preflight, variables_of}

abbrev hints : Dict String
hints =
    (
      "owned:scheduler",
      "Set in the scheduler's environment (variables.env on Linux, environment: in Docker); change it there.",
    )
    ∷ ("owned:autoconf", "Set by autoconf labels or Kubernetes annotations; change it there.")
    ∷ ("owned:ui", "Set in the web UI; edit it there.")
    ∷ ("owned:wizard", "Set in the web UI; edit it there.")
    ∷ ("owned:manual", "Managed outside the API.")
    ∷ ("unknown", "Not a per-service setting on this BunkerWeb; check the exact uppercase name.")
    ∷ ("prefixed", "Use the setting name without the service prefix.")
    ∷ ("server_name_in_variables", "Use the server_name parameter to rename a service.")
    ∷ (
      "rename_unsupported",
      "Renaming on this BunkerWeb version would lose the service's custom configs and cache; upgrade to 1.6.15 or later.",
    )
    ∷ ("not_matched", "Sent, but the database does not show the requested value.")
    ∷ ("draft", "The service is a draft; it is not published until is_draft is false.")
    ∷ ("read_failed", "The write was accepted but could not be read back; do not resend it.")
    ∷ []

-- {code: HINTS[code] for code in codes if code in HINTS}
unfoldable pub hints_for : List String → Dict String → Dict String
unfolding lookup insert
hints_for [] found = found
hints_for (code ∷ codes) found =
    hints_for codes (elim (lookup code hints) [ none ↦ found | some text ↦ insert code text found ])

abbrev texts : Dict String → Fields
texts [] = end
texts ((k, v) ∷ d) = field k (str v) (texts d)

-- An empty dict is left out of the receipt.
abbrev with_part : String → Dict String → Fields → Fields
with_part name [] rest = rest
with_part name (e ∷ d) rest = field name (obj (texts (e ∷ d))) rest

unfoldable pub receipt : String → String → Dict String → Fields
unfolding hints_for
receipt summary db issues =
    let codes = map (λ kc. remove_prefix "skipped:" kc.1) issues in
    field "summary" (str summary) (
      field "receipt"
        (obj (
          field "db" (str db)
            (with_part "issues" issues (with_part "hints" (hints_for codes []) end))))
        end)

-- str(_value(entry)) == requested, of a key that is in the service
unfoldable pub shows : Option Value → String → Bool
unfolding stored_text
shows none requested = false
shows (some entry) requested = elim (stored_text entry) [
  | none ↦ false
  | some text ↦ text == requested
]

abbrev owner_text : Option Value → Option String
owner_text (some (str method)) = if method == "" || method == "default" then none else some method
owner_text v = none

abbrev only_if : Bool → Option String → Option String
only_if b o = if b then o else none

-- The owner of an entry that the API cannot replace, where the entry names one.
unfoldable pub keeping_owner : Option UpstreamVersion → Option Value → Option String
unfolding get api_can_replace
keeping_owner version (some (obj entry)) = elim (get "global" entry) [
  | none ↦ none
  | some v ↦ elim v [
    | bool global ↦ elim (owner_text (get "method" entry)) [
      | none ↦ none
      | some method ↦ only_if (not global && not (api_can_replace method version)) (some method)
    ]
    | _ ↦ none
  ]
]
keeping_owner version entry = none

abbrev pub stored_key : String → String
stored_key key = if key == "is_draft" then "IS_DRAFT" else key

-- One round of the loop over the sent fields: the count of matches and the issues.
unfoldable pub compare_field :
    Fields → Option UpstreamVersion → ℕ × Dict String → String × String → ℕ × Dict String
unfolding shows keeping_owner get insert
compare_field service version (matched, issues) (key, requested) =
    let entry = get (stored_key key) service in
    if shows entry requested then (matched + 1, issues) else elim (keeping_owner version entry) [
      | none ↦ (matched, insert key "not_matched" issues)
      | some owner ↦ (matched, insert key ("owned:" <> owner) issues)
    ]

unfoldable pub compare_fields :
    Fields → Option UpstreamVersion → ℕ × Dict String → Dict String → ℕ × Dict String
unfolding compare_field
compare_fields service version counted [] = counted
compare_fields service version counted (f ∷ fields) =
    compare_fields service version (compare_field service version counted f) fields

abbrev pub one_if_some {ℓ} : {A : Type ℓ} → Option A → ℕ
one_if_some none = 0
one_if_some (some a) = 1

-- The variables that were sent, and the draft state as the setting that stores it.
unfoldable pub sent_fields : Preflight → Dict String
unfolding insert
sent_fields sent = elim sent.is_draft [
  | none ↦ sent.variables
  | some draft ↦ insert "is_draft" (if draft then "yes" else "no") sent.variables
]

unfoldable pub requested_total : ServiceUpdateParams → ℕ
requested_total params =
    length (variables_of params) + one_if_some params.server_name + one_if_some params.is_draft

-- What the comparison of the sent fields with the stored service comes to.
pub record Comparison : Type 0 where
  pub matched : ℕ
  pub issues : Dict String
  pub verified : Bool
  pub draft : Bool

unfoldable pub compared :
    ServiceUpdateParams → Preflight → Fields → Option UpstreamVersion → Dict String → Comparison
unfolding compare_fields sent_fields requested_total shows get
compared params sent service version issues =
    let (matched, found) =
      compare_fields service version (one_if_some sent.server_name, issues) (sent_fields sent) in
    record {
      matched = matched;
      issues = found;
      verified = eqb (length sent.skipped) 0 && eqb matched (requested_total params);
      draft = shows (get "IS_DRAFT" service) "yes";
    }

unfoldable pub summary_of : ServiceUpdateParams → Preflight → Comparison → String
unfolding show requested_total
summary_of params sent c =
    let counts = show c.matched <> "/" <> show (requested_total params) <> " MATCH" in
    (if c.verified
      then "DB VERIFIED (" <> counts <> ")."
      else "DB PARTIAL ("
        <> counts
        <> (if eqb (length sent.skipped) 0
            then ""
            else ", " <> show (length sent.skipped) <> " SKIPPED")
        <> ").")
    <> (if c.draft then " DRAFT: NOT PUBLISHED." else "")
    <> " LIVE UNVERIFIED."

-- The service that is read back: the new name of a renamed one.
unfoldable pub receipt_target : ServiceUpdateParams → Preflight → String
receipt_target params sent = elim sent.server_name [ none ↦ params.service | some name ↦ name ]

unfoldable pub skipped_issues : Dict String → Dict String
skipped_issues [] = []
skipped_issues ((key, code) ∷ skipped) = (key, "skipped:" <> code) ∷ skipped_issues skipped

-- `answer` is what BunkerWeb says of the target service; the version comes from the fact cache.
unfoldable pub build_receipt :
    ServiceUpdateParams
    → Preflight
    → Result Value
    → String
    → ℕ
    → Result (Option String)
    → ℕ
    → Facts
    → Fields × Facts
unfolding service_data get_upstream_version compared summary_of skipped_issues receipt insert
build_receipt params sent answer base_url now openapi later facts =
    let issues = skipped_issues sent.skipped in
    elim (answer >>= service_data) [
      | err e ↦ (
        receipt "WRITE ACCEPTED. DB UNVERIFIED. LIVE UNVERIFIED." "unverified"
            (insert "verification" "read_failed" issues),
        facts,
      )
      | ok service ↦
          let (version, facts') = get_upstream_version facts base_url now openapi later in
          let c = compared params sent service version issues in
          (
            receipt (summary_of params sent c) (if c.verified then "verified" else "partial")
                (if c.draft then insert "service" "draft" c.issues else c.issues),
            facts',
          )
    ]
