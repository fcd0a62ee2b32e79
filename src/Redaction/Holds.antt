-- ===== src/Redaction/Holds.antt =====
-- Where the placeholder stands in a value, without the scan `_placeholder_paths` of
-- src/bunkerweb_mcp/redaction.py that looks for it.
use bunkerweb_mcp.Prelude.{
  ℕ, suc, String, ◌≡◌, ◌⊎◌, ◌↔◌, refl, inl, inr, Bool, true, false, List, [], ◌∷◌, ◌==◌, ◌<>◌,
  eq_iff, codes, contains, arith, Bool-cases, if◌then◌else◌,
}
use bunkerweb_mcp.Prelude.Decimal.{show}
use bunkerweb_mcp.Json.{
  Value, null, bool, int, float, str, arr, obj, Items, nil, cons, Fields, end, field,
}
use bunkerweb_mcp.Redaction.{redacted}
use bunkerweb_mcp.Redaction.Placeholder.{
  b64decode_or_empty, bytes_contain, upload_holds_placeholder, child_path, entry_paths,
  placeholder_paths, item_paths, field_paths,
}
use bunkerweb_mcp.Redaction.Echo.{append-eq-nil, entry_clean}

-- The placeholder stands somewhere in a value: within a text, a key, a value of a dict, an item of
-- a list, or the bytes of an upload.
mutual
  pub data Holds : Value → Type 0 where
    in_text : {s : String} → contains redacted s ≡ true → Holds (str s)
    in_list : {vs : Items} → HoldsItem vs → Holds (arr vs)
    in_dict : {fs : Fields} → HoldsField fs → Holds (obj fs)

  pub data HoldsItem : Items → Type 0 where
    in_item : {v : Value} {vs : Items} → Holds v → HoldsItem (cons v vs)
    in_later_item : {v : Value} {vs : Items} → HoldsItem vs → HoldsItem (cons v vs)

  pub data HoldsField : Fields → Type 0 where
    in_key :
        {k : String} {v : Value} {fs : Fields}
        → contains redacted k ≡ true
        → HoldsField (field k v fs)
    in_value : {k : String} {v : Value} {fs : Fields} → Holds v → HoldsField (field k v fs)
    in_upload :
        {k s : String} {fs : Fields}
        → k ≡ "content_base64"
        → bytes_contain (codes redacted) (b64decode_or_empty s) ≡ true
        → HoldsField (field k (str s) fs)
    in_later_field :
        {k : String} {v : Value} {fs : Fields} → HoldsField fs → HoldsField (field k v fs)

-- What an entry in which nothing is found is not.
entry-clean :
    (k : String) (v : Value) (nested : List String) (child : String)
    → entry_paths k v nested child ≡ []
    → contains redacted k ≡ false
unfolding entry_paths
entry-clean k v nested child h = ground arith

entry_upload-clean :
    (k s : String) (nested : List String) (child : String)
    → (k == "content_base64") ≡ true
    → entry_paths k (str s) nested child ≡ []
    → bytes_contain (codes redacted) (b64decode_or_empty s) ≡ false
unfolding entry_paths upload_holds_placeholder
entry_upload-clean k s nested child e h = ground arith

true-false : {b : Bool} → b ≡ true → b ≡ false → ⊥
true-false h g = cc

mutual
  unfolding placeholder_paths

  found-Holds : {v : Value} (path : String) → Holds v → placeholder_paths v path ≡ [] → ⊥
  found-Holds path (in_text e) h = let g = rw e at h in absurd (cc)
  found-Holds path (in_list items) h = found-HoldsItem 0 path items h
  found-Holds path (in_dict fields) h = found-HoldsField path fields h

  found-HoldsItem :
      {vs : Items} (i : ℕ) (path : String) → HoldsItem vs → item_paths vs i path ≡ [] → ⊥
  found-HoldsItem i path (in_item held) h = found-Holds _ held (append-eq-nil _ _ h).0
  found-HoldsItem i path (in_later_item held) h =
      found-HoldsItem (suc i) path held (append-eq-nil _ _ h).1

  found-HoldsField : {fs : Fields} (path : String) → HoldsField fs → field_paths fs path ≡ [] → ⊥
  found-HoldsField path (in_key e) h = true-false e (entry-clean _ _ _ _ (append-eq-nil _ _ h).0)
  found-HoldsField path (in_value held) h =
      found-Holds _ held (entry_clean _ _ _ (append-eq-nil _ _ h).0)
  found-HoldsField path (in_upload {k} e b) h =
      true-false b
        (entry_upload-clean k _ _ _ ((eq_iff k "content_base64").1 e) (append-eq-nil _ _ h).0)
  found-HoldsField path (in_later_field held) h = found-HoldsField path held (append-eq-nil _ _ h).1

-- The same for an upload, which is scanned in its own way.
upload-cases :
    (k s child : String) (fs : Fields)
    → (k == "content_base64") ≡ true
    → ((if upload_holds_placeholder (str s) then child ∷ [] else []) ≡ [])
      ⊎ HoldsField (field k (str s) fs)
unfolding upload_holds_placeholder
upload-cases k s child fs named = elim (Bool-cases (contains redacted s)) [
  | inl e ↦ inr (in_value (in_text e))
  | inr e ↦ elim (Bool-cases (bytes_contain (codes redacted) (b64decode_or_empty s))) [
    | inl b ↦ inr (in_upload ((eq_iff k "content_base64").0 named) b)
    | inr b ↦ rw (e, b) (inl refl)
  ]
]

-- An entry is clean, or the placeholder stands in it.
entry-cases :
    (k : String) (v : Value) (fs : Fields) (nested : List String) (child : String)
    → (nested ≡ []) ⊎ Holds v
    → (entry_paths k v nested child ≡ []) ⊎ HoldsField (field k v fs)
unfolding entry_paths
entry-cases k v fs nested child (inr held) = inr (in_value held)
entry-cases k (str s) fs nested child (inl e) = elim (Bool-cases (contains redacted k)) [
  | inl found ↦ inr (in_key found)
  | inr plain ↦ elim (Bool-cases (k == "content_base64")) [
    | inl named ↦ rw (plain, named) (upload-cases k s child fs named)
    | inr other ↦ rw (plain, other) (inl e)
  ]
]
entry-cases k v fs nested child (inl e) = elim (Bool-cases (contains redacted k)) [
  | inl found ↦ inr (in_key found)
  | inr plain ↦ inl (ground arith)
]

mutual
  unfolding placeholder_paths

  scan-Holds : (v : Value) (path : String) → (placeholder_paths v path ≡ []) ⊎ Holds v
  scan-Holds null path = inl refl
  scan-Holds (bool b) path = inl refl
  scan-Holds (int n) path = inl refl
  scan-Holds (float s) path = inl refl
  scan-Holds (str s) path = elim (Bool-cases (contains redacted s)) [
    | inl e ↦ inr (in_text e)
    | inr e ↦ rw e (inl refl)
  ]
  scan-Holds (arr vs) path = elim (scan-HoldsItem vs 0 path) [
    | inl e ↦ inl e
    | inr held ↦ inr (in_list held)
  ]
  scan-Holds (obj fs) path = elim (scan-HoldsField fs path) [
    | inl e ↦ inl e
    | inr held ↦ inr (in_dict held)
  ]

  scan-HoldsItem : (vs : Items) (i : ℕ) (path : String) → (item_paths vs i path ≡ []) ⊎ HoldsItem vs
  scan-HoldsItem nil i path = inl refl
  scan-HoldsItem (cons v vs) i path = elim (scan-Holds v (path <> "[" <> show i <> "]")) [
    | inr held ↦ inr (in_item held)
    | inl e ↦ elim (scan-HoldsItem vs (suc i) path) [
      | inr held ↦ inr (in_later_item held)
      | inl rest ↦ rw (e, rest) (inl refl)
    ]
  ]

  scan-HoldsField : (fs : Fields) (path : String) → (field_paths fs path ≡ []) ⊎ HoldsField fs
  scan-HoldsField end path = inl refl
  scan-HoldsField (field k v fs) path =
      let child = child_path path k in
      elim (entry-cases k v fs (placeholder_paths v child) child (scan-Holds v child)) [
        | inr held ↦ inr held
        | inl e ↦ elim (scan-HoldsField fs path) [
          | inr held ↦ inr (in_later_field held)
          | inl rest ↦ rw (e, rest) (inl refl)
        ]
      ]

-- The scan finds nothing exactly where the placeholder stands nowhere.
pub placeholder_paths-Holds :
    (v : Value) (path : String) → (placeholder_paths v path ≡ []) ↔ (¬ Holds v)
placeholder_paths-Holds v path = (
  λ h held. found-Holds path held h,
  λ clean. elim (scan-Holds v path) [ inl e ↦ e | inr held ↦ absurd (clean held) ],
)
