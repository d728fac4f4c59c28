-- ===== src/Db/ApiKeys.antt =====
-- memory.ts, the users and their API keys.
pub mod Index
use skrun.Base.{
  ℕ, String, Bool, true, false, not, Option, none, some, List, [], ◌∷◌, ◌==◌, string_eq, filter,
  if◌then◌else◌, get_or,
}
use skrun.JsMap
use skrun.JsMap.{JsMap, values}
use skrun.Schema.{User, user, ApiKey, ApiKeyScopeKind, account, api_key_default_scopes, Run}
use skrun.Db.{MemoryDb}

pub record NewUser : Type 0 where
  pub github_id : String
  pub username : String
  pub email : Option String
  pub avatar_url : Option String

unfoldable pub get_user_by_github_id : MemoryDb → String → Option User
get_user_by_github_id db github_id = elim (JsMap.get db.users_by_github_id github_id) [
  | none ↦ none
  | some id ↦ JsMap.get db.users id
]

unfoldable pub get_user_by_id : MemoryDb → String → Option User
get_user_by_id db id = JsMap.get db.users id

unfoldable pub create_user : MemoryDb → NewUser → ℕ → String → MemoryDb × User
create_user db row now uuid =
    let created : User = record {
      id = uuid;
      github_id = row.github_id;
      username = row.username;
      email = get_or row.email "";
      avatar_url = get_or row.avatar_url "";
      plan = "free";
      role = user;
      created_at = now;
      updated_at = now;
    } in
    (
      record db {
        users = JsMap.set db.users uuid created;
        users_by_github_id = JsMap.set db.users_by_github_id row.github_id uuid;
      },
      created,
    )

-- The fields that the caller passes are written.
pub record UserPatch : Type 0 where
  pub email : Option String
  pub avatar_url : Option String
  pub plan : Option String

unfoldable pub update_user : MemoryDb → String → UserPatch → ℕ → MemoryDb × Option User
update_user db id patch now = elim (JsMap.get db.users id) [
  | none ↦ (db, none)
  | some u ↦
      let u' : User = record u {
        email = get_or patch.email u.email;
        avatar_url = get_or patch.avatar_url u.avatar_url;
        plan = get_or patch.plan u.plan;
        updated_at = now;
      } in
      (record db { users = JsMap.set db.users id u' }, some u')
]

pub record NewApiKey : Type 0 where
  pub user_id : String
  pub key_hash : String
  pub key_prefix : String
  pub name : String
  pub scopes : Option (List String)
  pub scope_kind : Option ApiKeyScopeKind
  pub agents : List String
  pub expires_at : Option ℕ

unfoldable pub get_api_key_by_hash : MemoryDb → String → Option ApiKey
get_api_key_by_hash db key_hash = elim (JsMap.get db.api_keys_by_hash key_hash) [
  | none ↦ none
  | some id ↦ JsMap.get db.api_keys id
]

-- An absent list of agents and an empty one are written alike.
abbrev pub grant : JsMap String (List String) → String → List String → JsMap String (List String)
grant m id [] = m
grant m id (a ∷ ids) = JsMap.set m id (a ∷ ids)

abbrev pub api_key_row : NewApiKey → ℕ → String → ApiKey
api_key_row row now uuid = record {
  id = uuid;
  user_id = row.user_id;
  key_hash = row.key_hash;
  key_prefix = row.key_prefix;
  name = row.name;
  scopes = get_or row.scopes api_key_default_scopes;
  scope_kind = get_or row.scope_kind account;
  last_used_at = none;
  expires_at = row.expires_at;
  created_at = now;
}

unfoldable pub create_api_key : MemoryDb → NewApiKey → ℕ → String → MemoryDb × ApiKey
create_api_key db row now uuid = (
  record db {
    api_keys = JsMap.set db.api_keys uuid (api_key_row row now uuid);
    api_keys_by_hash = JsMap.set db.api_keys_by_hash row.key_hash uuid;
    api_key_agents = grant db.api_key_agents uuid row.agents;
  },
  api_key_row row now uuid,
)

abbrev pub is_key : String → Option String → Bool
is_key key_id none = false
is_key key_id (some id) = id == key_id

-- `nullifyApiKeyOnRuns`
unfoldable pub nullify_api_key_on_runs : String → JsMap String Run → JsMap String Run
nullify_api_key_on_runs key_id [] = []
nullify_api_key_on_runs key_id ((id, run) ∷ m) =
    (id, if is_key key_id run.api_key_id then record run { api_key_id = none } else run)
    ∷ nullify_api_key_on_runs key_id m

-- What both deletions do with a key that they found.
unfoldable pub drop_api_key : MemoryDb → String → ApiKey → MemoryDb
drop_api_key db id key = record db {
  api_keys_by_hash = JsMap.delete db.api_keys_by_hash key.key_hash;
  api_keys = JsMap.delete db.api_keys id;
  api_key_agents = JsMap.delete db.api_key_agents id;
  runs = nullify_api_key_on_runs id db.runs;
}

unfoldable pub delete_api_key : MemoryDb → String → MemoryDb × Bool
unfolding drop_api_key
delete_api_key db id = elim (JsMap.get db.api_keys id) [
  | none ↦ (db, false)
  | some key ↦ (drop_api_key db id key, true)
]

unfoldable pub delete_api_key_by_owner : MemoryDb → String → String → MemoryDb × Bool
unfolding drop_api_key
delete_api_key_by_owner db id user_id = elim (JsMap.get db.api_keys id) [
  | none ↦ (db, false)
  | some key ↦ if not (key.user_id == user_id) then (db, false) else (drop_api_key db id key, true)
]

unfoldable pub list_api_keys : MemoryDb → String → List ApiKey
list_api_keys db user_id = filter (λ k. k.user_id == user_id) (values db.api_keys)

unfoldable pub update_api_key_last_used : MemoryDb → String → ℕ → MemoryDb
update_api_key_last_used db id now = elim (JsMap.get db.api_keys id) [
  | none ↦ db
  | some key ↦ record db {
    api_keys = JsMap.set db.api_keys id (record key { last_used_at = some now });
  }
]

unfoldable pub get_api_key_agent_ids : MemoryDb → String → List String
get_api_key_agent_ids db key_id = get_or (JsMap.get db.api_key_agents key_id) []
