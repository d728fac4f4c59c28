-- ===== src/Secrets.antt =====
-- packages/api/src/services/creator-llm-key.ts, the LLM keys that creators attach to their agents, and
-- `buildAad` of services/secrets/key-provider.ts. The cipher of Node is the record `KeyProvider`,
-- `toLowerCase` and the UTF-8 bytes of a text are parameters. A text is cut at code points.
pub mod Aad
pub mod Binding
pub mod RoundTrip
use Prim.Native.String as Text
use Prim.Native.String.{count}
use skrun.Base.{
  zero, suc, ◌-◌, leb, ℕ, ◌/◌, ◌%◌, ◌≡◌, String, Bool, not, Option, none, some, List, [], ◌∷◌, ◌++◌,
  string_eq, contains, ltb, if◌then◌else◌, template, length,
}
use skrun.JsMap
use skrun.JsMap.{JsMap}
use skrun.Schema.{Agent, AgentLlmKeyRecord, AgentLlmKeyInfo}
use skrun.Storage.{Buffer}
use skrun.Network.Codes.{codes}
use skrun.Db.{MemoryDb}
use skrun.Db.LlmKeys.{
  set_agent_llm_key, delete_agent_llm_key, list_agent_llm_keys, get_agent_llm_key_secrets,
}
use skrun.Registry.{Outcome, ok, throw}
use skrun.Routes.Publish.{js_length}

-- Encryption with the nonce that it draws; decryption fails on a wrong text or associated data.
pub record KeyProvider : Type 0 where
  pub is_configured : Bool
  pub encrypt : String → Buffer → Buffer → String
  pub decrypt : String → Buffer → Option String
  pub decrypt-encrypt :
      (plaintext : String) (aad nonce : Buffer)
      → decrypt (encrypt plaintext aad nonce) aad ≡ some plaintext

abbrev pub key_envelope_version : ℕ
key_envelope_version = 1

-- `writeUInt32LE`
unfoldable pub u32_le : ℕ → Buffer
u32_le n = n % 256 ∷ (n / 256) % 256 ∷ (n / 65536) % 256 ∷ (n / 16777216) % 256 ∷ []

abbrev pub prefixed : Buffer → Buffer
prefixed bytes = u32_le (length bytes) ++ bytes

module _ (utf8 : String → Buffer) where
  unfoldable pub build_aad : String → String → ℕ → Buffer
  unfolding u32_le
  build_aad agent_id provider key_version =
      prefixed (utf8 agent_id) ++ prefixed (utf8 provider) ++ u32_le key_version

abbrev pub attachable_providers : List String
attachable_providers = "anthropic" ∷ "openai" ∷ "google" ∷ "mistral" ∷ "groq" ∷ "xai" ∷ []

abbrev pub min_key_length : ℕ
min_key_length = 16

-- `slice(-4)`
unfoldable pub last_four : String → String
last_four Text.[] = ""
last_four (Text.◌∷◌ c s) = let rest = last_four s in if leb 4 (count s) then rest else Text.◌∷◌ c s

-- `padStart`, by so many
abbrev pub pad_start : ℕ → String → String
pad_start zero s = s
pad_start (suc n) s = template ("•" ∷ pad_start n s ∷ [])

unfoldable pub mask_last4 : String → String
unfolding last_four
mask_last4 plaintext = let l = last_four plaintext in pad_start (4 - count l) l

pub record Attached : Type 0 where
  pub provider : String
  pub last4 : String

module _ (utf8 : String → Buffer) (to_lower_case : String → String) (kp : KeyProvider) where
  unfoldable pub attach_creator_key :
      MemoryDb → Agent → String → String → Buffer → ℕ → MemoryDb × Outcome Attached
  attach_creator_key db agent provider plaintext nonce now =
      let normalized = to_lower_case provider in
      if not kp.is_configured
      then (
        db,
        throw (record {
          code = "ENCRYPTION_NOT_CONFIGURED";
          message =
              "This server cannot store creator LLM keys: SKRUN_SECRETS_ENCRYPTION_KEY is not set.";
          status = 500;
        }),
      )
      else if not (contains attachable_providers normalized)
      then (
        db,
        throw (record {
          code = "INVALID_LLM_PROVIDER";
          message = template (
              "Unsupported LLM provider '" ∷ provider
              ∷ "'. Supported: anthropic, google, groq, mistral, openai, xai." ∷ []);
          status = 400;
        }),
      )
      else if ltb (js_length (codes plaintext)) min_key_length
      then (
        db,
        throw (record {
          code = "INVALID_LLM_KEY";
          message = "LLM key looks too short (minimum 16 characters).";
          status = 400;
        }),
      )
      else (
        set_agent_llm_key db agent.id normalized
            (kp.encrypt plaintext (build_aad utf8 agent.id normalized key_envelope_version) nonce)
            (mask_last4 plaintext) key_envelope_version now,
        ok (record { provider = normalized; last4 = mask_last4 plaintext }),
      )

  unfoldable pub remove_creator_key : MemoryDb → Agent → String → MemoryDb
  remove_creator_key db agent provider = delete_agent_llm_key db agent.id (to_lower_case provider)

  unfoldable pub list_creator_keys : MemoryDb → Agent → List AgentLlmKeyInfo
  list_creator_keys db agent = list_agent_llm_keys db agent.id

  abbrev pub decrypt_record : AgentLlmKeyRecord → Option String
  decrypt_record r = kp.decrypt r.ciphertext (build_aad utf8 r.agent_id r.provider r.key_version)

  -- The loop; `none` is the exception of a failed decryption.
  unfoldable pub decrypt_all :
      JsMap String String → List AgentLlmKeyRecord → Option (JsMap String String)
  decrypt_all out [] = some out
  decrypt_all out (r ∷ rs) = elim (decrypt_record r) [
    | none ↦ none
    | some plaintext ↦ decrypt_all (JsMap.set out r.provider plaintext) rs
  ]

  unfoldable pub resolve_creator_keys : MemoryDb → String → Option (JsMap String String)
  unfolding decrypt_all
  resolve_creator_keys db agent_id = decrypt_all [] (get_agent_llm_key_secrets db agent_id)
