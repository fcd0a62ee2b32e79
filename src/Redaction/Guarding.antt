-- ===== src/Redaction/Guarding.antt =====
-- Which tool calls `check_call` lets through, and what `redact_result` lets out.
use bunkerweb_mcp.Prelude.{
  String, ◌≡◌, refl, ap, inl, inr, ◌↔◌, true, false, ◌&&◌, List, [], ◌∷◌, ◌++◌, map, some, ◌==◌,
  eq_refl, arith, Bool-cases, keep, All,
}
use bunkerweb_mcp.Json.{Value, str, obj, Fields, end, field, get}
use bunkerweb_mcp.Errors.{ok}
use bunkerweb_mcp.Redaction.{RedactionPolicy, redacted, is_sensitive_key, redact, redact_fields}
use bunkerweb_mcp.Redaction.Pattern.{is_sensitive_cache_file}
use bunkerweb_mcp.Redaction.Cache.{
  SameEntries, text_or_none, redact_cache_entries_noninterference, redact_cache_entries,
}
use bunkerweb_mcp.Redaction.Placeholder.{placeholder_paths}
use bunkerweb_mcp.Redaction.Echo.{redact_echo_found}
use bunkerweb_mcp.Redaction.Calls.{
  settings_write_field, settings_keys, find_sensitive_write, check_call, put, is_set, redact_result,
}

keep-eq-nil_iff :
    (p : RedactionPolicy) (ks : List String)
    → (keep (is_sensitive_key p) ks ≡ []) ↔ All (λ k. is_sensitive_key p k ≡ false) ks
keep-eq-nil_iff p [] = (λ h. tt, λ h. refl)
keep-eq-nil_iff p (k ∷ ks) = elim (Bool-cases (is_sensitive_key p k)) [
  | inl e ↦ rw e (λ h. absurd (cc), λ h. cc)
  | inr e ↦ rw e (λ h. (refl, (keep-eq-nil_iff p ks).0 h), λ h. (keep-eq-nil_iff p ks).1 h.1)
]

map-eq-nil_iff {ℓ κ} :
    {A : Type ℓ} {B : Type κ} (f : A → B) (xs : List A) → (map f xs ≡ []) ↔ (xs ≡ [])
map-eq-nil_iff f [] = (λ h. refl, λ h. refl)
map-eq-nil_iff f (x ∷ xs) = (λ h. absurd (cc), λ h. absurd (cc))

append-eq-nil_iff {ℓ} : {A : Type ℓ} (xs ys : List A) → (xs ++ ys ≡ []) ↔ ((xs ≡ []) × (ys ≡ []))
append-eq-nil_iff [] ys = (λ h. (refl, h), λ h. h.1)
append-eq-nil_iff (x ∷ xs) ys = (λ h. absurd (cc), λ h. absurd (cc h.0))

-- Nothing that a call sends is a secret.
pub record SendsNoSecret (p : RedactionPolicy) (tool_name : String) (params : Fields) : Type 0 where
  pub settings :
      All
        (λ k. is_sensitive_key p k ≡ false)
        (settings_keys (settings_write_field tool_name) params)
  pub no_placeholder : placeholder_paths (obj params) "" ≡ []

find_sensitive_write-eq-nil_iff :
    (p : RedactionPolicy) (tool_name : String) (params : Fields)
    → (find_sensitive_write p tool_name params ≡ []) ↔ SendsNoSecret p tool_name params
unfolding find_sensitive_write
find_sensitive_write-eq-nil_iff p tool_name params = (
  λ h.
      let (a, b) = (append-eq-nil_iff _ _).0 h in
      record { settings = (keep-eq-nil_iff p _).0 a; no_placeholder = (map-eq-nil_iff _ _).0 b },
  λ s. (append-eq-nil_iff _ _).1 (
    (keep-eq-nil_iff p _).1 s.settings,
    (map-eq-nil_iff _ (placeholder_paths (obj params) "")).1 s.no_placeholder,
  ),
)

check_call-cases :
    (p : RedactionPolicy) (tool_name : String) (params : Fields)
    → (check_call p tool_name params ≡ ok tt) ↔ (
        (find_sensitive_write p tool_name params ≡ [])
        × ((tool_name == "get_cache_file"
              && is_sensitive_cache_file p
                  (text_or_none (get "plugin" params))
                  (text_or_none (get "file_name" params)))
            ≡ false))
unfolding check_call
check_call-cases p tool_name params = ground arith

-- `check_call` accepts exactly the calls that write no setting with a sensitive name, hold the
-- placeholder nowhere in their parameters, and do not fetch a sensitive cache file.
pub check_call-SendsNoSecret :
    (p : RedactionPolicy) (tool_name : String) (params : Fields)
    → (check_call p tool_name params ≡ ok tt) ↔ (
        SendsNoSecret p tool_name params
        × ((tool_name == "get_cache_file"
              && is_sensitive_cache_file p
                  (text_or_none (get "plugin" params))
                  (text_or_none (get "file_name" params)))
            ≡ false))
check_call-SendsNoSecret p tool_name params =
    let (to, from) = check_call-cases p tool_name params in
    let (sends, sent) = find_sensitive_write-eq-nil_iff p tool_name params in
    (λ h. (sends (to h).0, (to h).1), λ h. from (sent h.0, h.1))

obj-injective : (fs gs : Fields) → obj fs ≡ obj gs → fs ≡ gs
obj-injective fs gs h = cc

-- Where a call sends back parameters that redaction has gone over, and is accepted, redaction had
-- masked nothing in them: a masked secret never reaches BunkerWeb as a value.
pub check_call-redact_fields :
    (p : RedactionPolicy) (tool_name : String) (params : Fields)
    → check_call p tool_name (redact_fields p params) ≡ ok tt
    → redact_fields p params ≡ params
unfolding redact
check_call-redact_fields p tool_name params h =
    let accepted = ((check_call-SendsNoSecret p tool_name (redact_fields p params)).0 h).0 in
    obj-injective _ _ (redact_echo_found p (obj params) "" accepted.no_placeholder)

get-put : (key : String) (v : Value) (fs : Fields) → get key (put key v fs) ≡ some v
unfolding get put
get-put key v end = ground (arith, eq_refl key)
get-put key v (field k w fs) = ground (arith, get-put key v fs)

-- A text under a key stays as it is where redaction leaves it, and is masked where not.
get-redact_fields :
    (p : RedactionPolicy) (key : String) (fs : Fields)
    → get key fs ≡ some (str redacted)
    → get key (redact_fields p fs) ≡ some (str redacted)
unfolding get redact
get-redact_fields p key end h = absurd (cc)
get-redact_fields p key (field k v fs) h = elim (Bool-cases (k == key)) [
  | inl e ↦
      let same : v ≡ str redacted = ground arith in
      rw (e, same)
        (elim (Bool-cases (is_sensitive_key p k)) [ inl s ↦ rw s refl | inr s ↦ rw s refl ])
  | inr e ↦ rw e (get-redact_fields p key fs (rw e at h))
]

-- Whatever the policy, a truthy API token in the result of `create_api_token` is replaced by the
-- placeholder.
pub redact_result-token :
    (p : RedactionPolicy) (result : Fields)
    → is_set (get "token" result) ≡ true
    → get "token" (redact_result p "create_api_token" result) ≡ some (str redacted)
unfolding redact_result
redact_result-token p result h =
    rw h (get-redact_fields p "token" _ (get-put "token" (str redacted) result))

-- Two results of `list_cache_files` that are the same but for the content of sensitive cache files
-- leave the server as one result.
pub redact_result-cache_noninterference :
    (p : RedactionPolicy) (result result' : Fields)
    → SameEntries p (obj result) (obj result')
    → redact_result p "list_cache_files" result ≡ redact_result p "list_cache_files" result'
unfolding redact_result redact_cache_entries
redact_result-cache_noninterference p result result' h =
    ap (redact_fields p) (obj-injective _ _ (redact_cache_entries_noninterference p _ _ h))
