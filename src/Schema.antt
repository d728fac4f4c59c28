-- ===== src/Schema.antt =====
-- packages/api/src/db/schema.ts and packages/api/src/types.ts: the rows of the database and the
-- caller's context. An instant (an ISO-8601 text in the source) is its number of milliseconds since
-- the epoch; `null` and absent fields are `none`.
use skrun.Base.{ℕ, String, Bool, true, false, Option, List, [], ◌∷◌}

pub data Visibility : Type 0 where
  private_agent public_agent : Visibility

pub data AgentLlmKeyPolicy : Type 0 where
  open_policy creator_only : AgentLlmKeyPolicy

pub record Agent : Type 0 where
  pub id : String
  pub name : String
  pub namespace : String
  pub description : String
  pub owner_id : String
  pub visibility : Visibility
  pub llm_key_policy : AgentLlmKeyPolicy
  pub created_at : ℕ
  pub updated_at : ℕ

pub record AgentLlmKeyInfo : Type 0 where
  pub provider : String
  pub last4 : String
  pub updated_at : ℕ

pub record AgentLlmKeyRecord : Type 0 where
  pub agent_id : String
  pub provider : String
  pub ciphertext : String
  pub last4 : String
  pub key_version : ℕ

-- `AgentLlmKeyRecord & { updated_at }`, a row of the in-memory table.
pub record AgentLlmKeyRow : Type 0 where
  pub agent_id : String
  pub provider : String
  pub ciphertext : String
  pub last4 : String
  pub key_version : ℕ
  pub updated_at : ℕ

-- `config_snapshot` is an opaque document, held as its text.
pub record AgentVersion : Type 0 where
  pub id : String
  pub agent_id : String
  pub version : String
  pub size : ℕ
  pub bundle_key : String
  pub bundle_sha256 : Option String
  pub config_snapshot : Option String
  pub notes : Option String
  pub pushed_at : ℕ
  pub verified : Bool

pub data UserRole : Type 0 where
  admin user : UserRole

abbrev pub is_admin : UserRole → Bool
is_admin admin = true
is_admin user = false

pub record User : Type 0 where
  pub id : String
  pub github_id : String
  pub username : String
  pub email : String
  pub avatar_url : String
  pub plan : String
  pub role : UserRole
  pub created_at : ℕ
  pub updated_at : ℕ

pub data ApiKeyScopeKind : Type 0 where
  account agents : ApiKeyScopeKind

abbrev pub is_account : ApiKeyScopeKind → Bool
is_account account = true
is_account agents = false

abbrev pub api_key_default_scopes : List String
api_key_default_scopes = "agent:run" ∷ "agent:push" ∷ "agent:verify" ∷ []

pub record ApiKey : Type 0 where
  pub id : String
  pub user_id : String
  pub key_hash : String
  pub key_prefix : String
  pub name : String
  pub scopes : List String
  pub scope_kind : ApiKeyScopeKind
  pub last_used_at : Option ℕ
  pub expires_at : Option ℕ
  pub created_at : ℕ

pub data DeviceCodeStatus : Type 0 where
  pending authorized : DeviceCodeStatus

abbrev pub is_pending : DeviceCodeStatus → Bool
is_pending pending = true
is_pending authorized = false

pub record DeviceCode : Type 0 where
  pub device_code_hash : String
  pub user_code_hash : String
  pub code_challenge : String
  pub status : DeviceCodeStatus
  pub user_id : Option String
  pub current_interval : ℕ
  pub attempt_count : ℕ
  pub created_at : ℕ
  pub expires_at : ℕ
  pub last_polled_at : Option ℕ

pub record Session : Type 0 where
  pub id_hash : String
  pub user_id : String
  pub created_at : ℕ
  pub expires_at : ℕ

pub data RunStatus : Type 0 where
  running completed failed cancelled : RunStatus

-- Documents (`input`, `output`, `phase_timings`, `files`) are held as their text; money is in
-- millionths of a dollar, the precision of the database column.
pub record Run : Type 0 where
  pub id : String
  pub agent_id : Option String
  pub agent_version : String
  pub model : Option String
  pub environment_id : Option String
  pub user_id : Option String
  pub api_key_id : Option String
  pub status : RunStatus
  pub input : Option String
  pub output : Option String
  pub error : Option String
  pub usage_prompt_tokens : ℕ
  pub usage_completion_tokens : ℕ
  pub usage_total_tokens : ℕ
  pub usage_estimated_cost : ℕ
  pub usage_cache_read_tokens : ℕ
  pub usage_cache_write_tokens : ℕ
  pub usage_cache_savings_usd : ℕ
  pub duration_ms : Option ℕ
  pub machine_id : Option String
  pub private_ip : Option String
  pub phase_timings : Option String
  pub files : Option String
  pub created_at : ℕ
  pub completed_at : Option ℕ

pub record Environment : Type 0 where
  pub id : String
  pub name : String
  pub owner_id : String
  pub config : String
  pub created_at : ℕ
  pub updated_at : ℕ

-- The scope context of the API key that authenticated the request.
pub record KeyContext : Type 0 where
  pub id : String
  pub scope_kind : ApiKeyScopeKind
  pub operations : List String
  pub agent_ids : List String

pub record UserContext : Type 0 where
  pub id : String
  pub namespace : String
  pub username : String
  pub email : Option String
  pub avatar_url : Option String
  pub plan : Option String
  pub key : Option KeyContext
  pub role : UserRole
