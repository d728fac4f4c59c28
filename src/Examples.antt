-- ===== src/Examples.antt =====
-- Concrete runs: the fixtures below, and in the children the theorems at them.
mod Auth
mod Access
mod Db
mod Cache
mod Capability
mod Llm
mod Pool
mod Registry
mod Routes
mod Bundle
mod RateLimit
mod Secrets
mod Migrations
mod Network
mod Router
use skrun.Base.{ℕ, String, Option, none, some, List, [], ◌∷◌, template}
use skrun.Schema.{
  Agent, private_agent, open_policy, AgentVersion, User, user, admin, KeyContext, agents, account,
  UserContext,
}
use skrun.Db.{MemoryDb, empty}
use skrun.JsMap
use skrun.Db.ApiKeys.Index.{KeysAgree}
use skrun.Auth.{Crypto}

-- Two injective functions in the place of SHA-256.
abbrev pub crypto : Crypto
crypto = record {
  sha256_hex = λ s. template ("hex:" ∷ s ∷ []);
  sha256_base64url = λ s. template ("b64:" ∷ s ∷ []);
}

abbrev pub ada : User
ada = record {
  id = "u1";
  github_id = "42";
  username = "ada";
  email = "";
  avatar_url = "";
  plan = "free";
  role = user;
  created_at = 0;
  updated_at = 0;
}

abbrev pub bot : Agent
bot = record {
  id = "a1";
  name = "bot";
  namespace = "ada";
  description = "";
  owner_id = "u1";
  visibility = private_agent;
  llm_key_policy = open_policy;
  created_at = 0;
  updated_at = 0;
}

abbrev pub users_db : MemoryDb
users_db = record empty { users = ("u1", ada) ∷ [] }

-- Ada's context with a key of the given scope, and without one.
abbrev pub with_key : KeyContext → UserContext
with_key key = record {
  id = "u1";
  namespace = "ada";
  username = "ada";
  email = none;
  avatar_url = none;
  plan = none;
  key = some key;
  role = user;
}

abbrev pub full_key : KeyContext
full_key = record {
  id = "k1";
  scope_kind = account;
  operations = "agent:verify" ∷ "agent:run" ∷ "agent:push" ∷ "agent:run" ∷ [];
  agent_ids = [];
}

abbrev pub grantless_key : KeyContext
grantless_key = record {
  id = "k2";
  scope_kind = agents;
  operations = "agent:run" ∷ [];
  agent_ids = [];
}

pub users_db-KeysAgree : KeysAgree users_db
unfolding JsMap.get
users_db-KeysAgree = record {
  distinct_keys = tt;
  distinct_hashes = tt;
  distinct_grants = tt;
  hashed = λ id key h. cc;
  carried = λ hash id h. cc;
  owned = λ id h. cc;
}
