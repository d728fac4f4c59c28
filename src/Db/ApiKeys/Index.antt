-- ===== src/Db/ApiKeys/Index.antt =====
-- The two tables of API keys agree: a hash leads to exactly the key that carries it.
use skrun.Base.{
  ℕ, String, true, none, some, List, [], ◌∷◌, ◌==◌, string_eq, string_discrete, ◌≡◌, ◌≢◌, refl,
  arith, inl, inr, Option-cases, if◌then◌else◌, All,
}
use skrun.JsMap
use skrun.JsMap.{JsMap, Distinct, has}
use skrun.JsMap.Laws.{
  get-set, get-set_self, get-set_ne, get-delete, get-delete_self, set-Distinct, delete-Distinct,
}
use skrun.Schema.{ApiKey, Run}
use skrun.Db.{MemoryDb}
use skrun.Db.ApiKeys.{
  NewApiKey, api_key_row, get_api_key_by_hash, create_api_key, drop_api_key, delete_api_key,
  get_api_key_agent_ids, nullify_api_key_on_runs, grant,
}

pub record KeysAgree (db : MemoryDb) : Type 0 where
  pub distinct_keys : Distinct db.api_keys
  pub distinct_hashes : Distinct db.api_keys_by_hash
  pub distinct_grants : Distinct db.api_key_agents
  -- Every key is found by its hash, and stands under its own identifier.
  pub hashed :
      (id : String) (key : ApiKey)
      → JsMap.get db.api_keys id ≡ some key
      → (key.id ≡ id) × (JsMap.get db.api_keys_by_hash key.key_hash ≡ some id)
  -- Every hash leads to a key that carries it.
  pub carried :
      (hash id : String)
      → JsMap.get db.api_keys_by_hash hash ≡ some id
      → (key : ApiKey) × (JsMap.get db.api_keys id ≡ some key) × (key.key_hash ≡ hash)
  -- Grants belong to keys that exist.
  pub owned : (id : String) → has db.api_key_agents id ≡ true → has db.api_keys id ≡ true

grant-Distinct :
    (m : JsMap String (List String)) (id : String) (ids : List String)
    → Distinct m
    → Distinct (grant m id ids)
grant-Distinct m id [] d = d
grant-Distinct m id (a ∷ ids) d = set-Distinct m id (a ∷ ids) d

get-grant :
    (m : JsMap String (List String)) (id other : String) (ids : List String)
    → id ≢ other
    → JsMap.get (grant m id ids) other ≡ JsMap.get m other
get-grant m id other [] h = refl
get-grant m id other (a ∷ ids) h = get-set_ne m id other (a ∷ ids) h

-- A key that is created under a new identifier and a new hash keeps the tables in agreement.
pub create_api_key-KeysAgree :
    (db : MemoryDb) (row : NewApiKey) (now : ℕ) (uuid : String)
    → KeysAgree db
    → JsMap.get db.api_keys uuid ≡ none
    → JsMap.get db.api_keys_by_hash row.key_hash ≡ none
    → KeysAgree (create_api_key db row now uuid).0
unfolding create_api_key
create_api_key-KeysAgree db row now uuid v new_id new_hash = record {
  distinct_keys = set-Distinct db.api_keys uuid _ v.distinct_keys;
  distinct_hashes = set-Distinct db.api_keys_by_hash row.key_hash uuid v.distinct_hashes;
  distinct_grants = grant-Distinct db.api_key_agents uuid row.agents v.distinct_grants;
  hashed = λ id key h. ground (
    arith,
    get-set db.api_keys uuid id created,
    get-set db.api_keys_by_hash row.key_hash key.key_hash uuid,
    v.hashed id key,
  );
  carried = λ hash id h. elim (string_discrete row.key_hash hash) [
    | yes same ↦ (
      created,
      ground (
        arith,
        get-set db.api_keys_by_hash row.key_hash hash uuid,
        get-set db.api_keys uuid id created,
      ),
      same,
    )
    | no other ↦
        let (key, found, carries) =
          v.carried hash id (ground (arith, get-set db.api_keys_by_hash row.key_hash hash uuid)) in
        (key, ground (arith, get-set db.api_keys uuid id created), carries)
  ];
  owned = λ id h. ground (
    arith,
    get-set db.api_keys uuid id created,
    v.owned id,
    get-grant db.api_key_agents uuid id row.agents,
  );
}
  where
    created : ApiKey
    created = api_key_row row now uuid

-- A revoked key keeps the tables in agreement.
pub drop_api_key-KeysAgree :
    (db : MemoryDb) (id : String) (key : ApiKey)
    → KeysAgree db
    → JsMap.get db.api_keys id ≡ some key
    → KeysAgree (drop_api_key db id key)
unfolding drop_api_key
drop_api_key-KeysAgree db id key v e = record {
  distinct_keys = delete-Distinct db.api_keys id v.distinct_keys;
  distinct_hashes = delete-Distinct db.api_keys_by_hash key.key_hash v.distinct_hashes;
  distinct_grants = delete-Distinct db.api_key_agents id v.distinct_grants;
  hashed = λ id' key' h. ground (
    arith,
    get-delete db.api_keys id id' v.distinct_keys,
    get-delete db.api_keys_by_hash key.key_hash key'.key_hash v.distinct_hashes,
    v.hashed id' key',
    v.hashed id key,
  );
  carried = λ hash id' h.
      let kept : JsMap.get db.api_keys_by_hash hash ≡ some id' =
        ground (arith, get-delete db.api_keys_by_hash key.key_hash hash v.distinct_hashes) in
      let (key', found, carries) = v.carried hash id' kept in
      (
        key',
        ground (
          arith,
          get-delete db.api_keys id id' v.distinct_keys,
          get-delete db.api_keys_by_hash key.key_hash hash v.distinct_hashes,
        ),
        carries,
      );
  owned = λ id' h. ground (
    arith,
    get-delete db.api_keys id id' v.distinct_keys,
    get-delete db.api_key_agents id id' v.distinct_grants,
    v.owned id',
  );
}

-- No run was started by the key.
abbrev pub NoRunNames : String → JsMap String Run → Type 0
NoRunNames key_id = All (λ (e : String × Run). e.1.api_key_id ≢ some key_id)

nullify-NoRunNames :
    (key_id : String) (runs : JsMap String Run)
    → NoRunNames key_id (nullify_api_key_on_runs key_id runs)
unfolding nullify_api_key_on_runs
nullify-NoRunNames key_id [] = tt
nullify-NoRunNames key_id ((id, run) ∷ m) = (ground arith, nullify-NoRunNames key_id m)

delete_api_key_found :
    (db : MemoryDb) (id : String) (key : ApiKey)
    → JsMap.get db.api_keys id ≡ some key
    → delete_api_key db id ≡ (drop_api_key db id key, true)
unfolding delete_api_key
delete_api_key_found db id key e = rw (e, delete_api_key) refl

-- In agreeing tables, `deleteApiKey` of a key that is there revokes it at once: its hash finds no key,
-- it has no grants, and no run names it. Every other hash still finds what it found.
pub delete_api_key_revokes :
    (db : MemoryDb) (id : String) (key : ApiKey)
    → KeysAgree db
    → JsMap.get db.api_keys id ≡ some key
    → (other : String)
    → let db' = (delete_api_key db id).0 in
      KeysAgree db'
      × (get_api_key_by_hash db' other
          ≡ (if key.key_hash == other then none else get_api_key_by_hash db other))
      × (get_api_key_agent_ids db' id ≡ [])
      × NoRunNames id db'.runs
unfolding drop_api_key get_api_key_by_hash get_api_key_agent_ids
delete_api_key_revokes db id key v e other = rw (delete_api_key_found db id key e) (
  drop_api_key-KeysAgree db id key v e,
  dropped,
  rw (get-delete_self db.api_key_agents id v.distinct_grants) refl,
  nullify-NoRunNames id db.runs,
)
  where
    dropped :
        get_api_key_by_hash (drop_api_key db id key) other
        ≡ (if key.key_hash == other then none else get_api_key_by_hash db other)
    dropped = elim (Option-cases (JsMap.get db.api_keys_by_hash other)) [
      | inl missing ↦
          ground (arith, get-delete db.api_keys_by_hash key.key_hash other v.distinct_hashes)
      | inr (id', here) ↦
          let (key', found, carries) = v.carried other id' here in
          ground (
            arith,
            get-delete db.api_keys_by_hash key.key_hash other v.distinct_hashes,
            get-delete db.api_keys id id' v.distinct_keys,
          )
    ]

-- A new key is found by its hash.
pub get-create_api_key :
    (db : MemoryDb) (row : NewApiKey) (now : ℕ) (uuid : String)
    → get_api_key_by_hash (create_api_key db row now uuid).0 row.key_hash
      ≡ some (api_key_row row now uuid)
unfolding create_api_key get_api_key_by_hash
get-create_api_key db row now uuid =
    rw (get_api_key_by_hash, get-set_self db.api_keys_by_hash row.key_hash uuid)
      (get-set_self db.api_keys uuid (api_key_row row now uuid))
