-- ===== src/Diagnosis/Blindness.antt =====
-- What the diagnosis (src/bunkerweb_mcp/tools/diagnose_handlers.py) shows of the control plane's
-- errors, and how its verdicts come about.
use bunkerweb_mcp.Prelude.{
  ◌≡◌, ◌≢◌, ◌⊎◌, ◌∙◌, subst, refl, sym, ap, String, Bool, true, false, Option, none, some,
  Bool-cases, Option-cases, inl, inr, arith, if◌then◌else◌,
}
use bunkerweb_mcp.Json.{Value, null, bool, int, float, str, arr, obj, Fields, get}
use bunkerweb_mcp.Errors.{
  Error, bunkerweb_error, tool_validation_error, tool_execution_error, http_status_error,
  request_error, other_error, Result, ok, err,
}
use bunkerweb_mcp.Client.Resources.{get_service}
use bunkerweb_mcp.Handlers.{Env}
use bunkerweb_mcp.Handlers.Services.{data_of}
use bunkerweb_mcp.Diagnosis.{
  Answers, is_reachable, instance_counts, multisite_of, is_missing, ServiceReport, service_of,
  service_found, diagnose, draft_of, shown_version, report, answers_of, is_named, handle_diagnose,
}

-- An error of which only whether it is a 404 of the control plane is left.
abbrev pub blank : Error → Error
blank e = if is_missing e then bunkerweb_error "" (some 404) else other_error ""

abbrev pub blind : Result Value → Result Value
blind (ok v) = ok v
blind (err e) = err (blank e)

abbrev pub blind_answers : Answers → Answers
blind_answers a = record {
  pong = blind a.pong;
  instances = blind a.instances;
  version = a.version;
  config = blind a.config;
  service = blind a.service;
}

is_reachable-blind : (r : Result Value) → is_reachable (blind r) ≡ is_reachable r
unfolding is_reachable
is_reachable-blind (ok v) = refl
is_reachable-blind (err e) = refl

instance_counts-blind : (r : Result Value) → instance_counts (blind r) ≡ instance_counts r
unfolding instance_counts
instance_counts-blind (ok v) = refl
instance_counts-blind (err e) = refl

multisite_of-blind : (r : Result Value) → multisite_of (blind r) ≡ multisite_of r
unfolding multisite_of
multisite_of-blind (ok v) = refl
multisite_of-blind (err e) = refl

service_of-blind : (r : Result Value) → service_of (blind r) ≡ service_of r
unfolding service_of is_missing
service_of-blind (ok v) = refl
service_of-blind (err e) = elim (Bool-cases (is_missing e)) [
  | inl h ↦ rw h refl
  | inr h ↦ rw h refl
]

diagnose-blind : (a : Answers) (named : Bool) → diagnose (blind_answers a) named ≡ diagnose a named
unfolding diagnose
diagnose-blind a named = λ i. record {
  reachable = is_reachable-blind a.pong i;
  auth = is_reachable-blind a.instances i;
  version = shown_version a.version;
  multisite = multisite_of-blind a.config i;
  instances = instance_counts-blind a.instances i;
  service = ap (λ s. if named then some s else none) (service_of-blind a.service) i;
}

-- The diagnosis shows nothing of the errors that its requests raise but whether each request failed
-- and, of the service's, whether it was a 404: it is what it would be if every such error were
-- replaced by one without a text, a status of its own or a response.
pub handle_diagnose-blind :
    (e : Env) (netloc : String) (service : Option String)
    → handle_diagnose e netloc service
      ≡ report netloc (diagnose (blind_answers (answers_of e service)) (is_named service))
unfolding handle_diagnose
handle_diagnose-blind e netloc service =
    ap (report netloc) (sym (diagnose-blind (answers_of e service) (is_named service)))

true-false : true ≡ false → ⊥
true-false h = cc

is_missing_lem :
    (e : Error) → is_missing e ≡ true → (m : String) × (e ≡ bunkerweb_error m (some 404))
unfolding is_missing
is_missing_lem (bunkerweb_error m (some status)) h =
    (m, ap (λ n. bunkerweb_error m (some n)) (ground arith))
is_missing_lem (bunkerweb_error m none) h = absurd (cc)
is_missing_lem (tool_validation_error m) h = absurd (cc)
is_missing_lem (tool_execution_error m) h = absurd (cc)
is_missing_lem (http_status_error c m) h = absurd (cc)
is_missing_lem (request_error m) h = absurd (cc)
is_missing_lem (other_error m) h = absurd (cc)

-- The entry of `IS_DRAFT` is a dict, or there is none.
abbrev pub HasDraftEntry : Fields → Type 0
HasDraftEntry settings =
    (get "IS_DRAFT" settings ≡ none)
    ⊎ ((entry : Fields) × (get "IS_DRAFT" settings ≡ some (obj entry)))

-- What the read of a service returned is a dict of settings with such an entry.
abbrev pub IsService : Result Value → Type 0
IsService r = (settings : Fields) × (r ≡ ok (obj settings)) × HasDraftEntry settings

-- The read of a service raised the control plane's 404.
abbrev pub IsAbsent : Result Value → Type 0
IsAbsent r = (m : String) × (r ≡ err (bunkerweb_error m (some 404)))

-- The verdict on a service, and what the read of it returned or raised.
pub data Verdict (r : Result Value) : Option Bool → Type 0 where
  found : IsService r → Verdict r (some true)
  missing : IsAbsent r → Verdict r (some false)
  unknown : ¬ IsService r → ¬ IsAbsent r → Verdict r none

no_ok : {v : Value} {e : Error} → ◌≡◌ {A = Result Value} (ok v) (err e) → ⊥
no_ok h = cc

same_settings : {fs gs : Fields} → ◌≡◌ {A = Result Value} (ok (obj fs)) (ok (obj gs)) → fs ≡ gs
same_settings h = cc

-- `draft_of` has an answer where the entry is a dict or missing.
draft_of-cases :
    (entry : Option Value)
    → ((draft_of entry ≢ none) × ((entry ≡ none) ⊎ ((fs : Fields) × (entry ≡ some (obj fs)))))
      ⊎ ((draft_of entry ≡ none) × ¬ ((entry ≡ none) ⊎ ((fs : Fields) × (entry ≡ some (obj fs)))))
unfolding draft_of
draft_of-cases none = inl (λ h. absurd (cc), inl refl)
draft_of-cases (some (obj fs)) = inl (λ h. absurd (cc), inr (fs, refl))
draft_of-cases (some null) =
    inr (refl, λ h. elim h [ inl e ↦ absurd (cc) | inr (fs, e) ↦ absurd (cc) ])
draft_of-cases (some (bool b)) =
    inr (refl, λ h. elim h [ inl e ↦ absurd (cc) | inr (fs, e) ↦ absurd (cc) ])
draft_of-cases (some (int n)) =
    inr (refl, λ h. elim h [ inl e ↦ absurd (cc) | inr (fs, e) ↦ absurd (cc) ])
draft_of-cases (some (float t)) =
    inr (refl, λ h. elim h [ inl e ↦ absurd (cc) | inr (fs, e) ↦ absurd (cc) ])
draft_of-cases (some (str t)) =
    inr (refl, λ h. elim h [ inl e ↦ absurd (cc) | inr (fs, e) ↦ absurd (cc) ])
draft_of-cases (some (arr vs)) =
    inr (refl, λ h. elim h [ inl e ↦ absurd (cc) | inr (fs, e) ↦ absurd (cc) ])

service_found-Verdict :
    (settings : Fields) → Verdict (ok (obj settings)) (service_found settings).exists
unfolding service_found
service_found-Verdict settings = elim (draft_of-cases (get "IS_DRAFT" settings)) [
  | inl (given, good) ↦ elim (Option-cases (draft_of (get "IS_DRAFT" settings))) [
    | inl h ↦ absurd (given h)
    | inr (draft, h) ↦ rw (service_found, h) (found (settings, refl, good))
  ]
  | inr (h, bad) ↦
      rw (service_found, h)
        (unknown (λ (fs, e, good). bad (subst HasDraftEntry (sym (same_settings e)) good))
          (λ (m, e). no_ok e))
]

-- A value that is no dict says nothing.
no_dict-Verdict : (v : Value) → ((fs : Fields) → ok v ≢ ok (obj fs)) → Verdict (ok v) none
no_dict-Verdict v other = unknown (λ (fs, e, good). other fs e) (λ (m, e). no_ok e)

is_missing-IsAbsent : (e : Error) → is_missing e ≡ false → ¬ IsAbsent (err e)
unfolding is_missing
is_missing-IsAbsent e h (m, same) =
    let both : e ≡ bunkerweb_error m (some 404) = cc in
    absurd (true-false (sym (ap is_missing both) ∙ h))

service_of-Verdict : (r : Result Value) → Verdict r (service_of r).exists
unfolding service_of
service_of-Verdict (ok null) = no_dict-Verdict null (λ fs h. cc)
service_of-Verdict (ok (bool b)) = no_dict-Verdict (bool b) (λ fs h. cc)
service_of-Verdict (ok (int n)) = no_dict-Verdict (int n) (λ fs h. cc)
service_of-Verdict (ok (float s)) = no_dict-Verdict (float s) (λ fs h. cc)
service_of-Verdict (ok (str s)) = no_dict-Verdict (str s) (λ fs h. cc)
service_of-Verdict (ok (arr vs)) = no_dict-Verdict (arr vs) (λ fs h. cc)
service_of-Verdict (ok (obj settings)) = service_found-Verdict settings
service_of-Verdict (err e) = elim (Bool-cases (is_missing e)) [
  | inl h ↦ let (m, same) = is_missing_lem e h in rw (service_of, h) (missing (m, ap err same))
  | inr h ↦
      rw (service_of, h) (unknown (λ (fs, same, good). no_ok (sym same)) (is_missing-IsAbsent e h))
]

-- Where a service is named, the diagnosis calls it existing exactly if the control plane returned
-- a dict of its settings whose `IS_DRAFT`, where there is one, is a dict; missing exactly if the
-- read of the service raised the control plane's 404; and unknown exactly if neither is so. The
-- answers to the other requests have no part in it.
pub diagnose-Verdict :
    (e : Env) (service : String)
    → (r : ServiceReport) × ((diagnose (answers_of e (some service)) true).service ≡ some r)
      × Verdict (data_of (get_service e.client service true true true)) r.exists
unfolding diagnose answers_of
diagnose-Verdict e service =
    let answer = data_of (get_service e.client service true true true) in
    (service_of answer, refl, service_of-Verdict answer)
