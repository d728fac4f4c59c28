-- ===== src/Examples/Secrets.antt =====
-- The theorems on the creators' keys at one agent.

use Prim.Native.Char.{code}
use skrun.Db.{MemoryDb}
use skrun.Schema.{AgentLlmKeyRow}
use skrun.Network.Codes.{same}
use skrun.Network.Allowed.{same_iff}
use skrun.Base.{
  nat_eq, ◌∷◌, ◌≡◌, ◌≢◌, refl, String, some, [], string_eq, string_discrete, inl, inr, arith, true,
  ℕ_discrete, if◌then◌else◌, ℕ, Option, Bool-cases, none, ◌==◌,
}
use skrun.JsMap
use skrun.JsMap.{JsMap}
use skrun.Storage.{Buffer}
use skrun.Network.Codes.{codes}
use skrun.Secrets.{
  KeyProvider, attach_creator_key, resolve_creator_keys, decrypt_all, build_aad,
  key_envelope_version,
}
use skrun.Secrets.Binding.{moved_key_refused}
use skrun.Secrets.RoundTrip.{resolve-attach, attached_row}
use skrun.Db.LlmKeys.{get_agent_llm_key_secrets, rows_of, set_agent_llm_key}
use skrun.Routes.Rights.{MayManage}
use skrun.Routes.LlmKeys.{get_llm_keys, llm_keys_opaque}
use skrun.Examples.{bot, users_db, with_key, grantless_key}
use skrun.Examples.Registry.{two}

abbrev utf8 : String → Buffer
utf8 s = codes s

abbrev lower : String → String
lower s = s

-- A cipher that hides nothing, in the place of AES.
abbrev plain : KeyProvider
plain = record {
  is_configured = true;
  encrypt = λ p aad nonce. p;
  decrypt = λ c aad. some c;
  decrypt-encrypt = λ p aad nonce. refl;
}

abbrev secret_key : String
secret_key = "sk-0123456789abcdef"

resolve-attach_example :
    (keys : JsMap String String) × (resolve_creator_keys utf8 lower plain
        (attach_creator_key utf8 lower plain users_db bot "openai" secret_key [] 5).0
        bot.id
      ≡ some keys)
    × (JsMap.get keys "openai" ≡ some secret_key)
    × ((other : String) → other ≢ "openai" → JsMap.get keys other ≡ JsMap.get [] other)
unfolding attach_creator_key resolve_creator_keys decrypt_all get_agent_llm_key_secrets rows_of
    JsMap.get string_discrete
resolve-attach_example =
    resolve-attach utf8 lower plain users_db bot "openai" secret_key [] 5 [] refl refl

-- What the attachment to the bot is bound to.
abbrev bot_aad : Buffer
bot_aad = build_aad utf8 bot.id "openai" key_envelope_version

-- The rest of a text that starts with the code.
unfoldable rest_after : ℕ → String → Option String
rest_after k String.[] = none
rest_after k (String.◌∷◌ c s) = if code c == k then some s else none

-- A cipher that only marks what it encrypts: a zero for the bot's data, a one for any other.
abbrev mark : Buffer → ℕ
mark aad = if same aad bot_aad then b'0' else b'1'

abbrev sealed : String → Buffer → String
sealed p aad = if same aad bot_aad then String.◌∷◌ "0" p else String.◌∷◌ "1" p

sealed-opens : (p : String) (aad : Buffer) → rest_after (mark aad) (sealed p aad) ≡ some p
unfolding rest_after ℕ_discrete
sealed-opens p aad = elim (Bool-cases (same aad bot_aad)) [ inl y ↦ rw y refl | inr n ↦ rw n refl ]

abbrev marking : KeyProvider
marking = record {
  is_configured = true;
  encrypt = λ p aad nonce. sealed p aad;
  decrypt = λ c aad. rest_after (mark aad) c;
  decrypt-encrypt = λ p aad nonce. sealed-opens p aad;
}

marking-wrong_aad :
    (p : String) (aad' : Buffer) → aad' ≢ bot_aad → rest_after (mark aad') (sealed p bot_aad) ≡ none
unfolding rest_after ℕ_discrete
marking-wrong_aad p aad' ne = elim (Bool-cases (same aad' bot_aad)) [
  | inl y ↦ absurd (ne ((same_iff aad' bot_aad).0 y))
  | inr n ↦ rw (n, (same_iff bot_aad bot_aad).1 refl) refl
]

abbrev stored : MemoryDb
stored = (attach_creator_key utf8 lower marking users_db bot "openai" secret_key [] 5).0

abbrev bot_row : AgentLlmKeyRow
bot_row = attached_row utf8 lower marking bot "openai" secret_key [] 5

-- The bot's envelope in a row of another agent.
abbrev thief_row : AgentLlmKeyRow
thief_row = record bot_row { agent_id = "thief" }

moved_key_refused_example :
    resolve_creator_keys utf8 lower marking
      (record users_db { agent_llm_keys = ("thief", thief_row ∷ []) ∷ [] })
      "thief"
    ≡ none
unfolding attach_creator_key set_agent_llm_key rows_of JsMap.get JsMap.set string_discrete
moved_key_refused_example =
    moved_key_refused utf8 lower marking users_db bot "openai" secret_key [] 5 [] [] bot_row refl
      refl refl (marking-wrong_aad secret_key)
      (record users_db { agent_llm_keys = ("thief", thief_row ∷ []) ∷ [] }) "thief" [] [] thief_row
      refl refl (inl other_agent) (omega arith) (omega arith) (omega arith) (omega arith)
      (omega arith)
  where
    other_agent : utf8 "thief" ≢ utf8 bot.id
    other_agent e = cc e

llm_keys_opaque_example :
    get_llm_keys utf8 lower plain two.db (with_key grantless_key) "ada" "bot"
    ≡ get_llm_keys utf8 lower plain users_db (with_key grantless_key) "ada" "bot"
llm_keys_opaque_example =
    (llm_keys_opaque utf8 lower plain two.db users_db (with_key grantless_key) "ada" "bot" denied).0
  where
    denied : ¬ MayManage (with_key grantless_key) "ada"
    denied (inl e, right) = cc
    denied (inr (key, e, (account_wide, same)), right) = cc
