-- ===== src/Secrets/Binding.antt =====
-- The stored key of one agent and provider is of no use in another's row.
use skrun.Base.{
  ℕ, ◌<◌, ◌≡◌, ◌≢◌, ◌⊎◌, inl, inr, refl, ap, sym, ◌∙◌, String, true, false, none, List, [], ◌∷◌,
  ◌++◌, map, length, All, string_eq, arith, Option-cases, Bool-cases,
}
use mathlib.Core.List.{map-append}
use skrun.JsMap
use skrun.JsMap.{JsMap}
use skrun.Schema.{Agent, AgentLlmKeyRow, AgentLlmKeyRecord}
use skrun.Storage.{Buffer}
use skrun.Db.{MemoryDb}
use skrun.Db.LlmKeys.{is_for, without, rows_of, secret, get_agent_llm_key_secrets}
use skrun.Registry.{ok}
use skrun.Secrets.{
  KeyProvider, build_aad, Attached, attach_creator_key, decrypt_record, decrypt_all,
  resolve_creator_keys, key_envelope_version,
}
use skrun.Secrets.Aad.{build_aad-injective}
use skrun.Secrets.RoundTrip.{attached_row, attached_rows}

abbrev IsOther : String → List AgentLlmKeyRow → Type 0
IsOther provider = All (λ (q : AgentLlmKeyRow). is_for provider q ≡ false)

without-IsOther :
    (provider : String) (rows : List AgentLlmKeyRow) → IsOther provider (without provider rows)
without-IsOther provider [] = tt
without-IsOther provider (q ∷ rows) = elim (Bool-cases (is_for provider q)) [
  | inl t ↦ rw t (without-IsOther provider rows)
  | inr f ↦ rw f (f, without-IsOther provider rows)
]

-- The only row for the provider is the last one.
only_last :
    (provider : String) (others xs ys : List AgentLlmKeyRow) (a q : AgentLlmKeyRow)
    → IsOther provider others
    → is_for provider q ≡ true
    → others ++ a ∷ [] ≡ xs ++ q ∷ ys
    → q ≡ a
only_last provider [] [] ys a q h t e = cc e
only_last provider [] (x ∷ []) ys a q h t e = cc e
only_last provider [] (x ∷ x' ∷ xs) ys a q h t e = cc e
only_last provider (o ∷ others) [] ys a q (f, h) t e =
    let same : o ≡ q = cc e in absurd (cc (f, t, same))
only_last provider (o ∷ others) (x ∷ xs) ys a q (f, h) t e =
    only_last provider others xs ys a q h t (cc e)

module _ (utf8 : String → Buffer) (to_lower_case : String → String) (kp : KeyProvider) where
  -- A row that cannot be decrypted stops the whole resolution.
  decrypt_all-none :
      (out : JsMap String String) (before after : List AgentLlmKeyRecord) (r : AgentLlmKeyRecord)
      → decrypt_record utf8 to_lower_case kp r ≡ none
      → decrypt_all utf8 to_lower_case kp out (before ++ r ∷ after) ≡ none
  unfolding decrypt_all
  decrypt_all-none out [] after r e = rw (decrypt_all, e) refl
  decrypt_all-none out (q ∷ before) after r e =
      elim (Option-cases (decrypt_record utf8 to_lower_case kp q)) [
        | inl n ↦ rw (decrypt_all, n) refl
        | inr (v, d) ↦
            rw (decrypt_all, d) (decrypt_all-none (JsMap.set out q.provider v) before after r e)
      ]

  -- The row does not stand for the agent, the provider and the version of an attachment.
  abbrev pub IsMoved : AgentLlmKeyRow → Agent → String → Type 0
  IsMoved r agent provider =
      (utf8 r.agent_id ≢ utf8 agent.id)
      ⊎ (utf8 r.provider ≢ utf8 (to_lower_case provider))
      ⊎ (r.key_version ≢ key_envelope_version)

  -- The sizes that the four bytes of a length or version hold.
  abbrev pub Fits : String → Type 0
  Fits s = length (utf8 s) < 4294967296

  moved_aad :
      (r : AgentLlmKeyRow) (agent : Agent) (provider : String)
      → IsMoved r agent provider
      → Fits r.agent_id
      → Fits r.provider
      → r.key_version < 4294967296
      → Fits agent.id
      → Fits (to_lower_case provider)
      → build_aad utf8 r.agent_id r.provider r.key_version
        ≢ build_aad utf8 agent.id (to_lower_case provider) key_envelope_version
  moved_aad r agent provider moved ra rp rv aa ap' e =
      let (agents, providers, versions) =
        build_aad-injective utf8 r.agent_id agent.id r.provider (to_lower_case provider)
          r.key_version key_envelope_version ra aa rp ap' rv (omega arith) e in
      elim moved [ inl n ↦ n agents | inr m ↦ elim m [ inl n ↦ n providers | inr n ↦ n versions ] ]

  -- Once a key has been attached, what is stored for it, put into a row of another agent, of
  -- another provider or of another version, makes the resolution of the keys throw for the agent
  -- that holds the row, whatever else has become of the database. The condition on the cipher is
  -- the one that the interface documents, that decryption throws under other associated data than
  -- the key was encrypted with; texts and versions fit into four bytes.
  pub moved_key_refused :
      (db : MemoryDb) (agent : Agent) (provider plaintext : String) (nonce : Buffer) (now : ℕ)
      {a : Attached} (xs ys : List AgentLlmKeyRow) (q : AgentLlmKeyRow)
      → (attach_creator_key utf8 to_lower_case kp db agent provider plaintext nonce now).1 ≡ ok a
      → rows_of
          (attach_creator_key utf8 to_lower_case kp db agent provider plaintext nonce now).0
          agent.id
        ≡ xs ++ q ∷ ys
      → is_for (to_lower_case provider) q ≡ true
      → (wrong_aad : (aad' : Buffer)
          → aad' ≢ build_aad utf8 agent.id (to_lower_case provider) key_envelope_version
          → kp.decrypt
              (kp.encrypt plaintext
                (build_aad utf8 agent.id (to_lower_case provider) key_envelope_version)
                nonce)
              aad'
            ≡ none)
      → (db' : MemoryDb) (agent_id' : String) (before after : List AgentLlmKeyRow)
        (r : AgentLlmKeyRow)
      → rows_of db' agent_id' ≡ before ++ r ∷ after
      → r.ciphertext ≡ q.ciphertext
      → IsMoved r agent provider
      → Fits r.agent_id
      → Fits r.provider
      → r.key_version < 4294967296
      → Fits agent.id
      → Fits (to_lower_case provider)
      → resolve_creator_keys utf8 to_lower_case kp db' agent_id' ≡ none
  unfolding resolve_creator_keys get_agent_llm_key_secrets
  moved_key_refused db agent provider plaintext nonce now xs ys q done there named wrong_aad db'
        agent_id' before after r here stolen moved ra rp rv aa ap' =
      let name = to_lower_case provider in
      let aad = build_aad utf8 agent.id name key_envelope_version in
      let row = attached_row utf8 to_lower_case kp agent name plaintext nonce now in
      let same : q ≡ row =
        only_last name (without name (rows_of db agent.id)) xs ys row q
          (without-IsOther name (rows_of db agent.id)) named
          (sym (attached_rows utf8 to_lower_case kp db agent provider plaintext nonce now done)
            ∙ there) in
      let envelope : r.ciphertext ≡ kp.encrypt plaintext aad nonce =
        stolen ∙ ap (λ (x : AgentLlmKeyRow). x.ciphertext) same in
      let refused : decrypt_record utf8 to_lower_case kp (secret r) ≡ none =
        ap (λ c. kp.decrypt c (build_aad utf8 r.agent_id r.provider r.key_version)) envelope
        ∙ wrong_aad _ (moved_aad r agent provider moved ra rp rv aa ap') in
      rw (here, map-append secret before (r ∷ after))
        (decrypt_all-none [] (map secret before) (map secret after) (secret r) refused)
