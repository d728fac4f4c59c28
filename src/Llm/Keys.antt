-- ===== src/Llm/Keys.antt =====
-- router.ts, `resolveProvider`: whose key a call of a provider carries, and to which endpoint. Whether
-- `assertModelBaseUrlAllowed` accepts an endpoint, the environment's opt-in and its key are arguments.
use skrun.Base.{
  String, Bool, true, false, not, Option, none, some, ◌==◌, string_eq, if◌then◌else◌, get_or, ◌≡◌,
  ◌⊎◌, arith,
}
use skrun.JsMap
use skrun.JsMap.{JsMap}

-- An absent `base_url` and an empty one are alike.
abbrev pub truthy : Option String → Option String
truthy none = none
truthy (some s) = if s == "" then none else some s

pub record Server : Type 0 where
  pub base_url_allowed : String → Bool
  pub server_key_with_custom_base_url_allowed : Bool
  pub env_key : String → Option String
  pub registered : String → Bool

-- The provider that is used: a fresh one with a caller's, a creator's or the server's key, at the
-- endpoint when one is declared; or the one that was registered with the server's key at startup.
pub data Provider : Type 0 where
  with_caller_key : (key : String) (base_url : Option String) → Provider
  with_creator_key : (key : String) (base_url : Option String) → Provider
  with_server_key : (key base_url : String) → Provider
  server_provider : Provider

pub data Resolved : Type 0 where
  provider : Provider → Resolved
  base_url_refused : Resolved
  server_key_refused : Resolved
  no_key : Resolved

abbrev pub key_of : JsMap String String → String → Option String
key_of keys name = truthy (JsMap.get keys name)

-- Tiers 3 to 5, when neither the caller nor the creator has a key.
unfoldable pub resolve_server : Server → String → Option String → Resolved
resolve_server s name none = if s.registered name then provider server_provider else no_key
resolve_server s name (some url) =
    if not s.server_key_with_custom_base_url_allowed
    then server_key_refused
    else provider (with_server_key (get_or (s.env_key name) "") url)

unfoldable pub resolve_keys :
    Server → String → JsMap String String → JsMap String String → Option String → Resolved
resolve_keys s name caller_keys creator_keys url = elim (key_of caller_keys name) [
  | some key ↦ provider (with_caller_key key url)
  | none ↦ elim (key_of creator_keys name) [
    | some key ↦ provider (with_creator_key key url)
    | none ↦ resolve_server s name url
  ]
]

abbrev pub is_refused : Server → Option String → Bool
is_refused s none = false
is_refused s (some url) = not (s.base_url_allowed url)

unfoldable pub resolve_provider :
    Server → String → JsMap String String → JsMap String String → Option String → Resolved
resolve_provider s name caller_keys creator_keys base_url =
    let url = truthy base_url in
    if is_refused s url then base_url_refused else resolve_keys s name caller_keys creator_keys url

-- What a provider carries: its endpoint, and whether its key is the server's.
abbrev pub endpoint : Provider → Option String
endpoint (with_caller_key key url) = url
endpoint (with_creator_key key url) = url
endpoint (with_server_key key url) = some url
endpoint server_provider = none

abbrev pub uses_server_key : Provider → Bool
uses_server_key (with_caller_key key url) = false
uses_server_key (with_creator_key key url) = false
uses_server_key (with_server_key key url) = true
uses_server_key server_provider = true

-- A provider that is chosen goes to the declared endpoint, which was accepted, or to its own when none is
-- declared. It carries the server's key only when neither the caller nor the creator has one for it, and
-- to a declared endpoint only on a server that opted in.
pub resolve_provider_lem :
    (s : Server) (name : String) (caller_keys creator_keys : JsMap String String)
    (base_url : Option String) (p : Provider)
    → resolve_provider s name caller_keys creator_keys base_url ≡ provider p
    → (endpoint p ≡ truthy base_url)
      × (is_refused s (truthy base_url) ≡ false)
      × ((uses_server_key p ≡ false)
          ⊎ (key_of caller_keys name ≡ none)
            × (key_of creator_keys name ≡ none)
            × ((truthy base_url ≡ none) ⊎ (s.server_key_with_custom_base_url_allowed ≡ true)))
unfolding resolve_provider resolve_keys resolve_server
resolve_provider_lem s name caller_keys creator_keys base_url p h = ground arith
