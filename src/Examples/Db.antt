-- ===== src/Examples/Db.antt =====
-- The database theorems at small tables.
use skrun.Base.{◌≡◌, refl, false, none, [], ◌∷◌, string_eq, string_discrete}
use skrun.JsMap
use skrun.Schema.{AgentVersion}
use skrun.Db.{MemoryDb}
use skrun.Db.Agents.{NewVersion}
use skrun.Db.ApiKeys.{NewApiKey, api_key_row, create_api_key, get_api_key_by_hash, delete_api_key}
use skrun.Db.ApiKeys.Index.{create_api_key-KeysAgree, delete_api_key_revokes}
use skrun.Examples.{bot, users_db, users_db-KeysAgree}

abbrev first : NewVersion
first = record {
  version = "1.0.0";
  size = 10;
  bundle_key = "b";
  bundle_sha256 = none;
  config_snapshot = none;
  notes = none;
}

abbrev row : AgentVersion
row = record {
  id = "v1";
  agent_id = "a1";
  version = "1.0.0";
  size = 10;
  bundle_key = "b";
  bundle_sha256 = none;
  config_snapshot = none;
  notes = none;
  pushed_at = 5;
  verified = false;
}

-- An agent with a version, and a scoped key that may reach it.
abbrev agent_db : MemoryDb
agent_db = record users_db {
  agents = ("ada/bot", bot) ∷ [];
  versions = ("a1", row ∷ []) ∷ [];
  api_key_agents = ("k2", "a1" ∷ []) ∷ [];
}

abbrev login : NewApiKey
login = record {
  user_id = "u1";
  key_hash = "h1";
  key_prefix = "sk_live_0";
  name = "CLI";
  scopes = none;
  scope_kind = none;
  agents = [];
  expires_at = none;
}

delete_api_key_revokes_example :
    get_api_key_by_hash (delete_api_key (create_api_key users_db login 5 "k1").0 "k1").0 "h1" ≡ none
unfolding JsMap.get create_api_key string_discrete JsMap.set
delete_api_key_revokes_example =
    (delete_api_key_revokes (create_api_key users_db login 5 "k1").0 "k1" (api_key_row login 5 "k1")
      (create_api_key-KeysAgree users_db login 5 "k1" users_db-KeysAgree refl refl) refl "h1").1
