-- ===== src/Llm/Endpoint.antt =====
-- router.ts, `assertModelBaseUrlAllowed`: the endpoints that an agent may declare. The URL parser of the
-- platform is a parameter; it gives the protocol and the host name of a valid address.
use skrun.Base.{
  ℕ, ◌≡◌, ◌⊎◌, inl, inr, ◌∙◌, String, Bool, true, false, not, ◌&&◌, Option, none, some, List, ◌==◌,
  ==_iff, string_eq, if◌then◌else◌, arith, Option-cases, Bool-cases, sym,
}
use skrun.JsMap.{JsMap}
use skrun.Network.{is_private_host}
use skrun.Llm.Keys.{
  Server, Provider, provider, endpoint, is_refused, resolve_provider, resolve_provider_lem,
}

pub data UrlError : Type 0 where
  invalid_url : UrlError
  bad_protocol : UrlError
  private_host : UrlError

pub record ParsedUrl : Type 0 where
  pub protocol : String
  pub hostname : List ℕ

abbrev pub check_url : Bool → ParsedUrl → Option UrlError
check_url local_hosts_allowed u =
    if not (u.protocol == "http:") && not (u.protocol == "https:")
    then some bad_protocol
    else if not local_hosts_allowed && is_private_host u.hostname
    then some private_host
    else none

-- The error that is thrown, or `none`.
unfoldable pub assert_model_base_url_allowed :
    (String → Option ParsedUrl) → Bool → String → Option UrlError
assert_model_base_url_allowed parse local_hosts_allowed base_url = elim (parse base_url) [
  | none ↦ some invalid_url
  | some u ↦ check_url local_hosts_allowed u
]

-- The server's test of an endpoint is that the assertion does not throw.
abbrev pub passes : Option UrlError → Bool
passes none = true
passes (some e) = false

abbrev pub with_url_check : (String → Option ParsedUrl) → Bool → Server → Server
with_url_check parse local_hosts_allowed s = record s {
  base_url_allowed = λ url. passes (assert_model_base_url_allowed parse local_hosts_allowed url);
}

check_url-passes :
    (u : ParsedUrl)
    → passes (check_url false u) ≡ true
    → ((u.protocol ≡ "http:") ⊎ (u.protocol ≡ "https:")) × (is_private_host u.hostname ≡ false)
check_url-passes u h = elim (Bool-cases (u.protocol == "http:")) [
  | inl e ↦ (inl ((==_iff u.protocol "http:").0 e), ground (arith, e, h))
  | inr e ↦ (inr (ground (arith, e, h)), ground (arith, e, h))
]

allowed-public :
    (parse : String → Option ParsedUrl) (url : String)
    → passes (assert_model_base_url_allowed parse false url) ≡ true
    → (u : ParsedUrl) × (parse url ≡ some u)
      × ((u.protocol ≡ "http:") ⊎ (u.protocol ≡ "https:"))
      × (is_private_host u.hostname ≡ false)
unfolding assert_model_base_url_allowed
allowed-public parse url h = elim (Option-cases (parse url)) [
  | inl e ↦ cc (rw (assert_model_base_url_allowed, e) at h)
  | inr (u, e) ↦
      let (protocol, public) = check_url-passes u (rw (assert_model_base_url_allowed, e) at h) in
      (u, e, protocol, public)
]

not_refused :
    (s : Server) (url : String) → is_refused s (some url) ≡ false → s.base_url_allowed url ≡ true
not_refused s url h = ground (arith, h)

-- On a server that has not opted in to local endpoints, a provider that is chosen, with whosever key,
-- goes to its own endpoint or to an http address whose host is not private.
pub endpoint_public :
    (parse : String → Option ParsedUrl) (s : Server) (name : String)
    (caller_keys creator_keys : JsMap String String) (base_url : Option String) (p : Provider)
    (url : String)
    → resolve_provider (with_url_check parse false s) name caller_keys creator_keys base_url
      ≡ provider p
    → endpoint p ≡ some url
    → (u : ParsedUrl) × (parse url ≡ some u)
      × ((u.protocol ≡ "http:") ⊎ (u.protocol ≡ "https:"))
      × (is_private_host u.hostname ≡ false)
endpoint_public parse s name caller_keys creator_keys base_url p url resolved there =
    let s' = with_url_check parse false s in
    let (same, accepted, keys) =
      resolve_provider_lem s' name caller_keys creator_keys base_url p resolved in
    allowed-public parse url (not_refused s' url (rw (sym same ∙ there) at accepted))
