-- ===== src/Registry/Numbers.antt =====
-- Every version of an agent has its own number, whatever the registry is asked to do.
use skrun.Base.{
  ◌+◌, ◌≤◌, ◌≡◌, refl, String, Bool, false, not, none, List, [], ◌∷◌, ◌++◌, ◌==◌, string_eq, arith,
  Option-cases, inl, inr, ==_iff, filter, find, leb, Bool-cases, length, get_or, subst, sym, Option,
  some,
}
use skrun.JsMap
use skrun.JsMap.{JsMap}
use skrun.JsMap.Values.{AllValues, get-AllValues, set-AllValues, delete-AllValues}
use skrun.Schema.{Agent, AgentVersion}
use skrun.Db.{MemoryDb}
use skrun.Db.Agents
use skrun.Db.Agents.{
  get_agent, agent_key, is_version, mark, get_versions, get_version_by_number, create_agent,
  create_version,
}
use skrun.Registry.Service.{Digest, RegistryService}
use skrun.Registry.Push.{PushRequest, push, get_or_create, new_version}
use skrun.Registry.Remove
use skrun.Registry.Remove.{drop_bundles, drop_bundle, delete_target, delete_version_of}

-- No two of the versions have the same number.
abbrev pub Numbered : List AgentVersion → Type 0
Numbered [] = Unit
Numbered (v ∷ vs) = (find (is_version v.version) vs ≡ none) × Numbered vs

abbrev pub AllNumbered : MemoryDb → Type 0
AllNumbered db = AllValues Numbered db.versions

find-filter-none :
    (p q : AgentVersion → Bool) (vs : List AgentVersion)
    → find p vs ≡ none
    → find p (filter q vs) ≡ none
find-filter-none p q [] h = refl
find-filter-none p q (v ∷ vs) h = ground (arith, find-filter-none p q vs)

filter-Numbered :
    (p : AgentVersion → Bool) (vs : List AgentVersion) → Numbered vs → Numbered (filter p vs)
filter-Numbered p [] h = tt
filter-Numbered p (v ∷ vs) (h, hs) =
    ground (arith, filter-Numbered p vs hs, find-filter-none (is_version v.version) p vs h)

find-mark-none :
    (n m : String) (verified : Bool) (vs : List AgentVersion)
    → find (is_version m) vs ≡ none
    → find (is_version m) (mark n verified vs) ≡ none
find-mark-none n m verified [] h = refl
find-mark-none n m verified (v ∷ vs) h = ground (arith, find-mark-none n m verified vs)

mark-Numbered :
    (n : String) (verified : Bool) (vs : List AgentVersion)
    → Numbered vs
    → Numbered (mark n verified vs)
mark-Numbered n verified [] h = tt
mark-Numbered n verified (v ∷ vs) (h, hs) =
    ground (arith, mark-Numbered n verified vs hs, find-mark-none n v.version verified vs h)

find-append-none :
    (m : String) (vs : List AgentVersion) (v : AgentVersion)
    → find (is_version m) vs ≡ none
    → (v.version == m) ≡ false
    → find (is_version m) (vs ++ v ∷ []) ≡ none
find-append-none m [] v h e = rw e refl
find-append-none m (w ∷ vs) v h e = ground (arith, find-append-none m vs v)

append-Numbered :
    (vs : List AgentVersion) (v : AgentVersion)
    → Numbered vs
    → find (is_version v.version) vs ≡ none
    → Numbered (vs ++ v ∷ [])
append-Numbered [] v h new = (refl, tt)
append-Numbered (w ∷ vs) v (h, hs) new =
    ground (arith, append-Numbered vs v hs, find-append-none w.version vs v h)

filter_absent :
    (n : String) (vs : List AgentVersion)
    → find (is_version n) vs ≡ none
    → filter (λ v. not (is_version n v)) vs ≡ vs
filter_absent n [] h = refl
filter_absent n (v ∷ vs) h = ground (arith, filter_absent n vs)

-- Removing a number removes one row at most.
pub length-filter_number :
    (n : String) (vs : List AgentVersion)
    → Numbered vs
    → length vs ≤ length (filter (λ v. not (is_version n v)) vs) + 1
length-filter_number n [] h = omega arith
length-filter_number n (v ∷ vs) (h, hs) =
    ground (arith, length-filter_number n vs hs, filter_absent n vs, ==_iff v.version n)

pub rows-Numbered :
    (db : MemoryDb) (id : String) → AllNumbered db → Numbered (get_or (JsMap.get db.versions id) [])
rows-Numbered db id h = elim (Option-cases (JsMap.get db.versions id)) [
  | inl e ↦ rw e tt
  | inr (vs, e) ↦ rw e (get-AllValues Numbered db.versions id vs h e)
]

create_version-AllNumbered :
    (db : MemoryDb) (d : Digest) (id : String) (r : PushRequest)
    → AllNumbered db
    → get_version_by_number db id r.version ≡ none
    → AllNumbered (create_version db id (new_version d r) r.now r.version_uuid).0
unfolding create_version get_version_by_number
create_version-AllNumbered db d id r h absent =
    set-AllValues Numbered db.versions id _ h
      (append-Numbered (get_or (JsMap.get db.versions id) []) _ (rows-Numbered db id h) absent)

get_or_create-AllNumbered :
    (db : MemoryDb) (r : PushRequest) → AllNumbered db → AllNumbered (get_or_create db r).0
unfolding get_or_create create_agent
get_or_create-AllNumbered db r h = elim (Option-cases (get_agent db r.namespace r.name)) [
  | inl e ↦ rw (get_or_create, e) (set-AllValues Numbered db.versions r.agent_uuid [] h tt)
  | inr (a, e) ↦ rw (get_or_create, e) h
]

push-AllNumbered :
    (d : Digest) (s : RegistryService) (r : PushRequest)
    → AllNumbered s.db
    → AllNumbered (push d s r).0.db
unfolding push
push-AllNumbered d s r h =
    let (db, agent) = get_or_create s.db r in
    elim (Option-cases (get_version_by_number db agent.id r.version)) [
      | inl e ↦
          rw (push, e)
            (create_version-AllNumbered db d agent.id r (get_or_create-AllNumbered s.db r h) e)
      | inr (v, e) ↦ rw (push, e) (get_or_create-AllNumbered s.db r h)
    ]

pub drop_bundles-db :
    (namespace name : String) (s : RegistryService) (vs : List AgentVersion)
    → (drop_bundles namespace name s vs).db ≡ s.db
unfolding drop_bundles
drop_bundles-db namespace name s [] = refl
drop_bundles-db namespace name s (v ∷ vs) =
    drop_bundles-db namespace name (drop_bundle namespace name s v) vs

db_delete_agent-AllNumbered :
    (db : MemoryDb) (namespace name : String)
    → AllNumbered db
    → AllNumbered (Agents.delete_agent db namespace name).0
unfolding Agents.delete_agent
db_delete_agent-AllNumbered db namespace name h =
    elim (Option-cases (JsMap.get db.agents (agent_key namespace name))) [
      | inl e ↦ rw (Agents.delete_agent, e) h
      | inr (a, e) ↦ rw (Agents.delete_agent, e) (delete-AllValues Numbered db.versions a.id h)
    ]

delete_agent-AllNumbered :
    (s : RegistryService) (namespace name : String)
    → AllNumbered s.db
    → AllNumbered (Remove.delete_agent s namespace name).0.db
unfolding Remove.delete_agent
delete_agent-AllNumbered s namespace name h = elim (Option-cases (get_agent s.db namespace name)) [
  | inl e ↦ rw (Remove.delete_agent, e) h
  | inr (a, e) ↦
      rw (Remove.delete_agent, e)
        (subst (λ (db : MemoryDb). AllNumbered (Agents.delete_agent db namespace name).0)
          (sym (drop_bundles-db namespace name s (get_versions s.db a.id)))
          (db_delete_agent-AllNumbered s.db namespace name h))
]

db_delete_version-AllNumbered :
    (db : MemoryDb) (id version : String)
    → AllNumbered db
    → AllNumbered (Agents.delete_version db id version)
unfolding Agents.delete_version
db_delete_version-AllNumbered db id version h = elim (Option-cases (JsMap.get db.versions id)) [
  | inl e ↦ rw (Agents.delete_version, e) h
  | inr (vs, e) ↦
      rw (Agents.delete_version, e)
        (set-AllValues Numbered db.versions id _ h
          (filter-Numbered _ vs (get-AllValues Numbered db.versions id vs h e)))
]

delete_target-AllNumbered :
    (s : RegistryService) (namespace name version : String) (a : Agent) (o : Option AgentVersion)
    → AllNumbered s.db
    → AllNumbered (delete_target s namespace name version a o).0.db
unfolding delete_target
delete_target-AllNumbered s namespace name version a none h = h
delete_target-AllNumbered s namespace name version a (some v) h =
    db_delete_version-AllNumbered s.db a.id version h

delete_version_of-AllNumbered :
    (s : RegistryService) (namespace name version : String) (o : Option Agent)
    → AllNumbered s.db
    → AllNumbered (delete_version_of s namespace name version o).0.db
unfolding delete_version_of
delete_version_of-AllNumbered s namespace name version none h = h
delete_version_of-AllNumbered s namespace name version (some a) h =
    elim (Bool-cases (leb (length (get_versions s.db a.id)) 1)) [
      | inl e ↦ rw e h
      | inr e ↦ rw e (delete_target-AllNumbered s namespace name version a _ h)
    ]

delete_version-AllNumbered :
    (s : RegistryService) (namespace name version : String)
    → AllNumbered s.db
    → AllNumbered (Remove.delete_version s namespace name version).0.db
unfolding Remove.delete_version
delete_version-AllNumbered s namespace name version h =
    delete_version_of-AllNumbered s namespace name version (get_agent s.db namespace name) h

db_set_verified-AllNumbered :
    (db : MemoryDb) (namespace name version : String) (verified : Bool)
    → AllNumbered db
    → AllNumbered (Agents.set_version_verified db namespace name version verified).0
unfolding Agents.set_version_verified
db_set_verified-AllNumbered db namespace name version verified h =
    elim (Option-cases (get_agent db namespace name)) [
      | inl e ↦ rw (Agents.set_version_verified, e) h
      | inr (a, e) ↦ elim (Option-cases (JsMap.get db.versions a.id)) [
        | inl k ↦ rw (Agents.set_version_verified, e, k) h
        | inr (vs, k) ↦ elim (Option-cases (find (is_version version) vs)) [
          | inl l ↦ rw (Agents.set_version_verified, e, k, l) h
          | inr (v, l) ↦
              rw (Agents.set_version_verified, e, k, l)
                (set-AllValues Numbered db.versions a.id _ h (
                  mark-Numbered version verified vs
                    (get-AllValues Numbered db.versions a.id vs h k)))
        ]
      ]
    ]

set_version_verified-AllNumbered :
    (s : RegistryService) (namespace name version : String) (verified : Bool)
    → AllNumbered s.db
    → AllNumbered (Remove.set_version_verified s namespace name version verified).0.db
unfolding Remove.set_version_verified
set_version_verified-AllNumbered s namespace name version verified h =
    grind (arith, db_set_verified-AllNumbered)

-- A call of the registry that writes.
pub data RegistryCall : Type 0 where
  push_call : PushRequest → RegistryCall
  delete_agent_call : (namespace name : String) → RegistryCall
  delete_version_call : (namespace name version : String) → RegistryCall
  set_verified_call : (namespace name version : String) → Bool → RegistryCall

abbrev pub serve_call : Digest → RegistryService → RegistryCall → RegistryService
serve_call d s (push_call r) = (push d s r).0
serve_call d s (delete_agent_call ns n) = (Remove.delete_agent s ns n).0
serve_call d s (delete_version_call ns n v) = (Remove.delete_version s ns n v).0
serve_call d s (set_verified_call ns n v flag) = (Remove.set_version_verified s ns n v flag).0

abbrev pub serve_calls : Digest → RegistryService → List RegistryCall → RegistryService
serve_calls d s [] = s
serve_calls d s (c ∷ cs) = serve_calls d (serve_call d s c) cs

serve_call-AllNumbered :
    (d : Digest) (s : RegistryService) (c : RegistryCall)
    → AllNumbered s.db
    → AllNumbered (serve_call d s c).db
serve_call-AllNumbered d s (push_call r) h = push-AllNumbered d s r h
serve_call-AllNumbered d s (delete_agent_call ns n) h = delete_agent-AllNumbered s ns n h
serve_call-AllNumbered d s (delete_version_call ns n v) h = delete_version-AllNumbered s ns n v h
serve_call-AllNumbered d s (set_verified_call ns n v flag) h =
    set_version_verified-AllNumbered s ns n v flag h

-- From tables in which no agent has two versions of one number, such tables are left by whatever calls
-- of push, deleteAgent, deleteVersion and setVersionVerified, in whatever order.
pub serve_calls-AllNumbered :
    (d : Digest) (s : RegistryService) (cs : List RegistryCall)
    → AllNumbered s.db
    → AllNumbered (serve_calls d s cs).db
serve_calls-AllNumbered d s [] h = h
serve_calls-AllNumbered d s (c ∷ cs) h =
    serve_calls-AllNumbered d (serve_call d s c) cs (serve_call-AllNumbered d s c h)
