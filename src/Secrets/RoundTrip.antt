-- ===== src/Secrets/RoundTrip.antt =====
-- A key that is attached is the one that a run resolves.
use skrun.Base.{
  ℕ, ◌≡◌, ◌≢◌, refl, ap, sym, ◌∙◌, inl, inr, String, Option, some, List, [], ◌∷◌, ◌++◌, ==_iff,
  string_eq, arith, Option-cases, Bool-cases, map,
}
use skrun.JsMap
use skrun.JsMap.{JsMap}
use skrun.JsMap.Laws.{get-set, get-set_self}
use skrun.Schema.{Agent, AgentLlmKeyRow}
use skrun.Storage.{Buffer}
use skrun.Db.{MemoryDb}
use skrun.Db.LlmKeys.{
  is_for, without, rows_of, secret, set_agent_llm_key, get_agent_llm_key_secrets,
}
use skrun.Registry.{ok}
use skrun.Secrets.{
  KeyProvider, build_aad, Attached, attach_creator_key, decrypt_record, decrypt_all,
  resolve_creator_keys, key_envelope_version, mask_last4,
}

module _ (utf8 : String → Buffer) (to_lower_case : String → String) (kp : KeyProvider) where
  abbrev decrypted : JsMap String String → List AgentLlmKeyRow → Option (JsMap String String)
  decrypted out rows = decrypt_all utf8 to_lower_case kp out (map secret rows)

  -- Two maps with the same texts under all other names.
  abbrev SameBut : String → JsMap String String → JsMap String String → Type 0
  SameBut name m n = (p : String) → p ≢ name → JsMap.get m p ≡ JsMap.get n p

  SameBut-set :
      (name p v : String) (m n : JsMap String String)
      → SameBut name m n
      → SameBut name (JsMap.set m p v) (JsMap.set n p v)
  SameBut-set name p v m n h q ne = ground (arith, get-set m p q v, get-set n p q v, h q ne)

  SameBut-left :
      (name v : String) (m n : JsMap String String)
      → SameBut name m n
      → SameBut name (JsMap.set m name v) n
  SameBut-left name v m n h q ne = ground (arith, get-set m name q v, h q ne, ne)

  -- Leaving one provider's rows out changes nothing under the other names.
  without-decrypted :
      (provider : String) (rows : List AgentLlmKeyRow) (out out' m : JsMap String String)
      → SameBut provider out out'
      → decrypted out rows ≡ some m
      → (m' : JsMap String String) × (decrypted out' (without provider rows) ≡ some m')
        × SameBut provider m m'
  unfolding decrypt_all
  without-decrypted provider [] out out' m same done =
      let here : out ≡ m = cc done in
      (out', refl, λ p ne. ap (λ (n : JsMap String String). JsMap.get n p) (sym here) ∙ same p ne)
  without-decrypted provider (r ∷ rows) out out' m same done =
      elim (Option-cases (decrypt_record utf8 to_lower_case kp (secret r))) [
        | inl e ↦ absurd (cc (rw (decrypt_all, e) at done))
        | inr (v, e) ↦
            let done' : decrypted (JsMap.set out r.provider v) rows ≡ some m =
              rw (decrypt_all, e) at done in
            elim (Bool-cases (is_for provider r)) [
              | inl t ↦
                  let named : r.provider ≡ provider = (==_iff r.provider provider).0 t in
                  rw t (
                    without-decrypted provider rows (JsMap.set out r.provider v) out' m
                      (rw named (SameBut-left provider v out out' same)) done')
              | inr f ↦
                  rw (f, decrypt_all, e)
                    (without-decrypted provider rows (JsMap.set out r.provider v)
                      (JsMap.set out' r.provider v) m
                      (SameBut-set provider r.provider v out out' same) done')
            ]
      ]

  decrypted_snoc :
      (rows : List AgentLlmKeyRow) (r : AgentLlmKeyRow) (out m : JsMap String String) (v : String)
      → decrypted out rows ≡ some m
      → decrypt_record utf8 to_lower_case kp (secret r) ≡ some v
      → decrypted out (rows ++ r ∷ []) ≡ some (JsMap.set m r.provider v)
  unfolding decrypt_all
  decrypted_snoc [] r out m v done one = ground (arith, done, one)
  decrypted_snoc (q ∷ rows) r out m v done one =
      elim (Option-cases (decrypt_record utf8 to_lower_case kp (secret q))) [
        | inl e ↦ absurd (cc (rw (decrypt_all, e) at done))
        | inr (w, e) ↦
            rw (decrypt_all, e)
              (decrypted_snoc rows r (JsMap.set out q.provider w) m v (rw (decrypt_all, e) at done)
                one)
      ]

  -- The row that an attachment writes.
  abbrev pub attached_row : Agent → String → String → Buffer → ℕ → AgentLlmKeyRow
  attached_row agent provider plaintext nonce now = record {
    agent_id = agent.id;
    provider = provider;
    ciphertext = kp.encrypt plaintext (build_aad utf8 agent.id provider key_envelope_version) nonce;
    last4 = mask_last4 plaintext;
    key_version = key_envelope_version;
    updated_at = now;
  }

  pub attached_rows :
      (db : MemoryDb) (agent : Agent) (provider plaintext : String) (nonce : Buffer) (now : ℕ)
      {a : Attached}
      → (attach_creator_key utf8 to_lower_case kp db agent provider plaintext nonce now).1 ≡ ok a
      → rows_of
          (attach_creator_key utf8 to_lower_case kp db agent provider plaintext nonce now).0
          agent.id
        ≡ without (to_lower_case provider) (rows_of db agent.id)
          ++ attached_row agent (to_lower_case provider) plaintext nonce now ∷ []
  unfolding attach_creator_key set_agent_llm_key rows_of
  attached_rows db agent provider plaintext nonce now done =
      let rows =
        without (to_lower_case provider) (rows_of db agent.id)
        ++ attached_row agent (to_lower_case provider) plaintext nonce now ∷ [] in
      ground (arith, done, get-set_self db.agent_llm_keys agent.id rows)

  -- An attached key is the one that the agent's runs resolve for its provider, from then on and in the
  -- place of an older one; the keys of the agent's other providers stay. The condition is that the keys
  -- that were there could be decrypted.
  pub resolve-attach :
      (db : MemoryDb) (agent : Agent) (provider plaintext : String) (nonce : Buffer) (now : ℕ)
      (old : JsMap String String) {a : Attached}
      → (attach_creator_key utf8 to_lower_case kp db agent provider plaintext nonce now).1 ≡ ok a
      → resolve_creator_keys utf8 to_lower_case kp db agent.id ≡ some old
      → (keys : JsMap String String) × (resolve_creator_keys utf8 to_lower_case kp
            (attach_creator_key utf8 to_lower_case kp db agent provider plaintext nonce now).0
            agent.id
          ≡ some keys)
        × (JsMap.get keys (to_lower_case provider) ≡ some plaintext)
        × ((other : String)
            → other ≢ to_lower_case provider
            → JsMap.get keys other ≡ JsMap.get old other)
  unfolding resolve_creator_keys get_agent_llm_key_secrets
  resolve-attach db agent provider plaintext nonce now old done before =
      let name = to_lower_case provider in
      let row = attached_row agent name plaintext nonce now in
      let (kept, resolved, same) =
        without-decrypted name (rows_of db agent.id) [] [] old (λ p ne. refl) before in
      let opened =
        kp.decrypt-encrypt plaintext (build_aad utf8 agent.id name key_envelope_version) nonce in
      (
        JsMap.set kept name plaintext,
        rw (attached_rows db agent provider plaintext nonce now done) (
            decrypted_snoc (without name (rows_of db agent.id)) row [] kept plaintext resolved
              opened),
        get-set_self kept name plaintext,
        λ other ne. ground (arith, get-set kept name other plaintext, same other ne, ne),
      )
