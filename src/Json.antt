-- ===== src/Json.antt =====
-- JSON-like Python values: what `response.json()`, `model_dump()` and `json.loads` return.
-- A dict is the list of its entries in insertion order; JSON gives it text keys only. A float is
-- kept as its `repr`, which is all that the program reads of it.
use bunkerweb_mcp.Prelude.{
  ℕ, zero, String, Bool, true, false, not, ◌||◌, List, [], ◌∷◌, Option, none, some, ◌==◌, ◌<>◌, ◌+◌,
  if◌then◌else◌,
}
use bunkerweb_mcp.Prelude.Decimal.{show}

-- Python's `int`; `negsuc n` is -(n + 1).
pub data ℤ : Type 0 where
  pos : ℕ → ℤ
  negsuc : ℕ → ℤ

mutual
  pub data Value : Type 0 where
    null : Value
    bool : Bool → Value
    int : ℤ → Value
    float : String → Value
    str : String → Value
    arr : Items → Value
    obj : Fields → Value

  pub data Fields : Type 0 where
    end : Fields
    field : String → Value → Fields → Fields

  pub data Items : Type 0 where
    nil : Items
    cons : Value → Items → Items

-- d.get(key)
unfoldable pub get : String → Fields → Option Value
get key end = none
get key (field k v fs) = if k == key then some v else get key fs

-- key in d
unfoldable pub has_key : String → Fields → Bool
has_key key end = false
has_key key (field k v fs) = k == key || has_key key fs

-- d.items()
abbrev pub entries : Fields → List (String × Value)
entries end = []
entries (field k v fs) = (k, v) ∷ entries fs

abbrev pub elems : Items → List Value
elems nil = []
elems (cons v vs) = v ∷ elems vs

-- str(n)
unfoldable pub show_int : ℤ → String
unfolding show
show_int (pos n) = show n
show_int (negsuc n) = "-" <> show (n + 1)

-- bool(value)
unfoldable pub truthy : Value → Bool
truthy null = false
truthy (bool b) = b
truthy (int (pos zero)) = false
truthy (int n) = true
truthy (float s) = not (s == "0.0" || s == "-0.0")
truthy (str s) = not (s == "")
truthy (arr nil) = false
truthy (arr (cons v vs)) = true
truthy (obj end) = false
truthy (obj (field k v fs)) = true
