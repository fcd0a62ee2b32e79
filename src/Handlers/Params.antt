-- ===== src/Handlers/Params.antt =====
-- src/bunkerweb_mcp/tools/params.py: the arguments of the tools, which pydantic has filled and
-- checked, and the checks and conversions that are code of the program.
use bunkerweb_mcp.Prelude.{ℕ, String, Bool, List, [], ◌∷◌, Option, none, some, codes, if◌then◌else◌}
use bunkerweb_mcp.Prelude.Dict.{Dict}
use bunkerweb_mcp.Json.{Fields}
use bunkerweb_mcp.Base64.{decode}
use bunkerweb_mcp.Errors.{tool_validation_error, other_error, Result, ok, err, ◌>>=◌}

pub record InstanceTargetParams : Type 0 where
  pub hostname : Option String
  pub all : Bool

-- `_exactly_one_target`: the check that follows pydantic's own; its ValueError makes the call fail.
unfoldable pub exactly_one_target : InstanceTargetParams → Result InstanceTargetParams
exactly_one_target p = elim p.hostname [
  | none ↦
      if p.all then ok p else err (tool_validation_error "give exactly one of hostname or all=true")
  | some host ↦
      if p.all then err (tool_validation_error "give exactly one of hostname or all=true") else ok p
]

-- It inherits the check.
pub record ReloadInstancesParams : Type 0 where
  pub target : InstanceTargetParams
  pub test : Bool

-- The address as its text, which is all that the program passes on.
pub record BanPayload : Type 0 where
  pub ip : String
  pub exp : ℕ
  pub reason : String
  pub service : Option String

pub record UnbanPayload : Type 0 where
  pub ip : String
  pub service : Option String

pub record GetServiceParams : Type 0 where
  pub service : String
  pub full : Bool
  pub methods : Bool
  pub with_drafts : Bool

pub record AuthParams : Type 0 where
  pub username : Option String
  pub password : Option String
  pub payload : Option Fields

pub record InstanceCreateParams : Type 0 where
  pub hostname : String
  pub name : Option String
  pub port : Option ℕ
  pub listen_https : Option Bool
  pub https_port : Option ℕ
  pub server_name : Option String
  pub method : Option String

pub record InstanceUpdateParams : Type 0 where
  pub hostname : String
  pub name : Option String
  pub port : Option ℕ
  pub listen_https : Option Bool
  pub https_port : Option ℕ
  pub server_name : Option String
  pub method : Option String

pub record ServiceCreateParams : Type 0 where
  pub server_name : String
  pub is_draft : Bool
  pub variables : Option (Dict String)

pub record GlobalConfigReadParams : Type 0 where
  pub full : Bool
  pub methods : Bool

pub record ConfigListParams : Type 0 where
  pub service : Option String
  pub type : Option String
  pub with_drafts : Bool
  pub with_data : Bool

pub record ConfigKeyParams : Type 0 where
  pub service : Option String
  pub type : String
  pub name : String

-- `content` is the field `data`, here and below.
pub record ConfigCreateParams : Type 0 where
  pub key : ConfigKeyParams
  pub content : String
  pub is_draft : Bool

pub record ConfigUpdateParams : Type 0 where
  pub key : ConfigKeyParams
  pub new_service : Option String
  pub new_type : Option String
  pub new_name : Option String
  pub content : Option String
  pub is_draft : Option Bool

pub record ConfigUploadFile : Type 0 where
  pub filename : String
  pub content_base64 : String

abbrev pub decoded : String → Option (List ℕ) → Result (String × List ℕ)
decoded filename none = err (other_error "Invalid base64-encoded string")
decoded filename (some content) = ok (filename, content)

-- `to_bytes`: binascii.Error for a text that is no base64
unfoldable pub to_bytes : ConfigUploadFile → Result (String × List ℕ)
unfolding decode
to_bytes file = decoded file.filename (decode (codes file.content_base64))

-- [item.to_bytes() for item in files]
unfoldable pub all_bytes : List ConfigUploadFile → Result (List (String × List ℕ))
unfolding to_bytes
all_bytes [] = ok []
all_bytes (file ∷ files) = do first ← to_bytes file; rest ← all_bytes files; ok (first ∷ rest)

pub record ConfigUploadParams : Type 0 where
  pub config_type : String
  pub service : Option String
  pub files : List ConfigUploadFile
  pub is_draft : Bool

pub record ConfigUploadUpdateParams : Type 0 where
  pub key : ConfigKeyParams
  pub file : ConfigUploadFile
  pub new_service : Option String
  pub new_type : Option String
  pub new_name : Option String
  pub new_is_draft : Option Bool

pub record PluginListParams : Type 0 where
  pub type : String
  pub with_data : Bool

pub record PluginUploadParams : Type 0 where
  pub method : String
  pub files : List ConfigUploadFile

pub record CacheListParams : Type 0 where
  pub service : Option String
  pub plugin : Option String
  pub job_name : Option String
  pub with_data : Bool

pub record CacheFileKeyParams : Type 0 where
  pub service : Option String
  pub plugin : String
  pub job_name : String
  pub file_name : String

pub record CacheFetchParams : Type 0 where
  pub key : CacheFileKeyParams
  pub download : Bool

pub record JobDescriptor : Type 0 where
  pub plugin : String
  pub name : Option String
