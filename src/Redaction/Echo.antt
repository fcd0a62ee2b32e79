-- ===== src/Redaction/Echo.antt =====
-- A redacted value cannot be sent back unnoticed: where no placeholder is found in it, redaction
-- changed nothing.
use bunkerweb_mcp.Prelude.{
  ℕ, suc, String, ◌≡◌, refl, ap, inl, inr, List, [], ◌∷◌, ◌++◌, ◌==◌, arith, Bool-cases, ◌<>◌,
}
use bunkerweb_mcp.Prelude.Decimal.{show}
use bunkerweb_mcp.Json.{
  Value, null, bool, int, float, str, arr, obj, Items, nil, cons, Fields, end, field,
}
use bunkerweb_mcp.Redaction.{
  RedactionPolicy, is_sensitive_key, is_value_field, has_value_field, redact, redact_items,
  redact_fields, mask, mask_items, mask_setting, mask_fields,
}
use bunkerweb_mcp.Redaction.Placeholder.{
  upload_holds_placeholder, entry_paths, placeholder_paths, item_paths, field_paths,
}

pub append-eq-nil : (xs ys : List String) → xs ++ ys ≡ [] → (xs ≡ []) × (ys ≡ [])
append-eq-nil [] ys h = (refl, h)
append-eq-nil (x ∷ xs) ys h = absurd (cc)

-- An entry in which nothing is found holds a value in which nothing is found.
pub entry_clean :
    (k : String) (v : Value) (child : String)
    → entry_paths k v (placeholder_paths v child) child ≡ []
    → placeholder_paths v child ≡ []
unfolding entry_paths placeholder_paths upload_holds_placeholder
entry_clean k (str s) child h = ground arith
entry_clean k v child h = ground arith

mutual
  unfolding redact placeholder_paths

  redact_echo :
      (p : RedactionPolicy) (v : Value) (path : String)
      → placeholder_paths (redact p v) path ≡ []
      → redact p v ≡ v
  redact_echo p (arr xs) path h = ap arr (redact_items_echo p xs 0 path h)
  redact_echo p (obj fs) path h = ap obj (redact_fields_echo p fs path h)
  redact_echo p null path h = refl
  redact_echo p (bool b) path h = refl
  redact_echo p (int n) path h = refl
  redact_echo p (float s) path h = refl
  redact_echo p (str s) path h = refl

  redact_items_echo :
      (p : RedactionPolicy) (vs : Items) (i : ℕ) (path : String)
      → item_paths (redact_items p vs) i path ≡ []
      → redact_items p vs ≡ vs
  redact_items_echo p nil i path h = refl
  redact_items_echo p (cons v vs) i path h =
      let at = path <> "[" <> show i <> "]" in
      let (a, b) =
        append-eq-nil (placeholder_paths (redact p v) at)
          (item_paths (redact_items p vs) (suc i) path) h in
      cc (redact_echo p v at a, redact_items_echo p vs (suc i) path b)

  redact_fields_echo :
      (p : RedactionPolicy) (fs : Fields) (path : String)
      → field_paths (redact_fields p fs) path ≡ []
      → redact_fields p fs ≡ fs
  redact_fields_echo p end path h = refl
  redact_fields_echo p (field k v fs) path h =
      let (a, b) = append-eq-nil _ _ h in
      let c = entry_clean k _ _ a in
      elim (Bool-cases (is_sensitive_key p k)) [
        | inl e ↦ rw e (cc (mask_echo p v _ (rw e at c), redact_fields_echo p fs path b))
        | inr e ↦ rw e (cc (redact_echo p v _ (rw e at c), redact_fields_echo p fs path b))
      ]

  mask_echo :
      (p : RedactionPolicy) (v : Value) (path : String)
      → placeholder_paths (mask p v) path ≡ []
      → mask p v ≡ v
  mask_echo p (arr xs) path h = ap arr (mask_items_echo p xs 0 path h)
  mask_echo p (obj fs) path h = elim (Bool-cases (has_value_field fs)) [
    | inl e ↦ rw e (ap obj (mask_setting_echo p fs path (rw e at h)))
    | inr e ↦ rw e (ap obj (mask_fields_echo p fs path (rw e at h)))
  ]
  mask_echo p null path h = refl
  mask_echo p (bool b) path h = absurd (cc)
  mask_echo p (int n) path h = absurd (cc)
  mask_echo p (float s) path h = absurd (cc)
  mask_echo p (str s) path h = elim (Bool-cases (s == "")) [
    | inl e ↦ rw e refl
    | inr e ↦ let g = rw e at h in absurd (cc)
  ]

  mask_items_echo :
      (p : RedactionPolicy) (vs : Items) (i : ℕ) (path : String)
      → item_paths (mask_items p vs) i path ≡ []
      → mask_items p vs ≡ vs
  mask_items_echo p nil i path h = refl
  mask_items_echo p (cons v vs) i path h =
      let at = path <> "[" <> show i <> "]" in
      let (a, b) =
        append-eq-nil (placeholder_paths (mask p v) at) (item_paths (mask_items p vs) (suc i) path)
          h in
      cc (mask_echo p v at a, mask_items_echo p vs (suc i) path b)

  mask_setting_echo :
      (p : RedactionPolicy) (fs : Fields) (path : String)
      → field_paths (mask_setting p fs) path ≡ []
      → mask_setting p fs ≡ fs
  mask_setting_echo p end path h = refl
  mask_setting_echo p (field k v fs) path h =
      let (a, b) = append-eq-nil _ _ h in
      let c = entry_clean k _ _ a in
      elim (Bool-cases (is_value_field k)) [
        | inl e ↦ rw e (cc (mask_echo p v _ (rw e at c), mask_setting_echo p fs path b))
        | inr e ↦ rw e (cc (redact_echo p v _ (rw e at c), mask_setting_echo p fs path b))
      ]

  mask_fields_echo :
      (p : RedactionPolicy) (fs : Fields) (path : String)
      → field_paths (mask_fields p fs) path ≡ []
      → mask_fields p fs ≡ fs
  mask_fields_echo p end path h = refl
  mask_fields_echo p (field k v fs) path h =
      let (a, b) = append-eq-nil _ _ h in
      let c = entry_clean k _ _ a in cc (mask_echo p v _ c, mask_fields_echo p fs path b)

-- Where the scan for the placeholder finds nothing in a redacted value, redaction masked nothing
-- in it: for every policy, value and path, the redacted value is the value itself.
pub redact_echo_found :
    (p : RedactionPolicy) (v : Value) (path : String)
    → placeholder_paths (redact p v) path ≡ []
    → redact p v ≡ v
redact_echo_found p v path h = redact_echo p v path h
