-- ===== src/Db/Agents/Lookup.antt =====
-- What a version lookup answers after a write to an agent's versions.
use skrun.Base.{
  ℕ, String, Bool, false, not, ◌&&◌, none, some, List, [], ◌∷◌, ◌++◌, ◌==◌, string_eq, filter, find,
  get_last?, if◌then◌else◌, get_or, ◌≡◌, refl, arith, Option-cases, inl, inr,
}
use mathlib.Core.Option
use skrun.JsMap
use skrun.JsMap.{JsMap, Distinct}
use skrun.JsMap.Laws.{get-set, get-set_self}
use skrun.Schema.{Agent, AgentVersion}
use skrun.Db.{MemoryDb}
use skrun.Db.Agents.{
  get_agent, get_latest_version, get_version_by_number, is_version, mark, NewVersion,
  create_version, delete_version, set_version_verified,
}

find-mark :
    (version other : String) (verified : Bool) (vs : List AgentVersion)
    → find (is_version other) (mark version verified vs) ≡ (
        if version == other
        then Option.map {A = AgentVersion}
            (λ v. record v { verified = verified })
            (find (is_version other) vs)
        else find (is_version other) vs)
find-mark version other verified [] = ground arith
find-mark version other verified (v ∷ vs) = ground (arith, find-mark version other verified vs)

find-append :
    (p : AgentVersion → Bool) (vs : List AgentVersion) (v : AgentVersion)
    → find p (vs ++ v ∷ [])
      ≡ elim (find p vs) [ none ↦ if p v then some v else none | some w ↦ some w ]
find-append p [] v = refl
find-append p (w ∷ vs) v = ground (arith, find-append p vs v)

get_last?-append : (vs : List AgentVersion) (v : AgentVersion) → get_last? (vs ++ v ∷ []) ≡ some v
get_last?-append [] v = refl
get_last?-append (w ∷ []) v = refl
get_last?-append (w ∷ u ∷ vs) v = get_last?-append (u ∷ vs) v

find-filter :
    (version other : String) (vs : List AgentVersion)
    → find (is_version other) (filter (λ v. not (is_version version v)) vs)
      ≡ (if version == other then none else find (is_version other) vs)
find-filter version other [] = ground arith
find-filter version other (v ∷ vs) = ground (arith, find-filter version other vs)

-- After `createVersion` of a number that the agent did not have, the new row is the agent's latest
-- version and the answer for its number; every other number and every other agent answers as before,
-- and nothing of the new row is verified.
pub create_version_lem :
    (db : MemoryDb) (agent_id : String) (row : NewVersion) (now : ℕ) (uuid : String)
    → get_version_by_number db agent_id row.version ≡ none
    → (other_agent other : String)
    → let r = create_version db agent_id row now uuid in
      (get_latest_version r.0 agent_id ≡ some r.1)
      × (r.1.verified ≡ false)
      × (get_version_by_number r.0 other_agent other ≡ (
          if agent_id == other_agent && row.version == other
          then some r.1
          else get_version_by_number db other_agent other))
unfolding create_version get_version_by_number get_latest_version
create_version_lem db agent_id row now uuid absent other_agent other = (
  ground (
    arith,
    get-set_self db.versions agent_id (before ++ created ∷ []),
    get_last?-append before created,
  ),
  refl,
  ground (
    arith,
    get-set db.versions agent_id other_agent (before ++ created ∷ []),
    find-append (is_version other) before created,
  ),
)
  where
    before : List AgentVersion
    before = get_or (JsMap.get db.versions agent_id) []

    created : AgentVersion
    created = (create_version db agent_id row now uuid).1

-- After `deleteVersion` the number has no row, and every other number and agent answers as before.
pub delete_version_lem :
    (db : MemoryDb) (agent_id version other_agent other : String)
    → get_version_by_number (delete_version db agent_id version) other_agent other ≡ (
        if agent_id == other_agent && version == other
        then none
        else get_version_by_number db other_agent other)
unfolding delete_version get_version_by_number
delete_version_lem db agent_id version other_agent other =
    elim (Option-cases (JsMap.get db.versions agent_id)) [
      | inl e ↦ rw (e, delete_version) (ground arith)
      | inr (vs, e) ↦
          rw (e, delete_version)
            (ground (
              arith,
              get-set db.versions agent_id other_agent
                  (filter (λ v. not (is_version version v)) vs),
              find-filter version other vs,
            ))
    ]

-- `setVersionVerified` answers with the row exactly when the agent has the version, and then sets the
-- flag of that one row: every other number and agent answers as before, and the number of rows stays.
pub set_version_verified_lem :
    (db : MemoryDb) (namespace name version : String) (verified : Bool) (agent : Agent)
    (row : AgentVersion)
    → get_agent db namespace name ≡ some agent
    → get_version_by_number db agent.id version ≡ some row
    → (other_agent other : String)
    → let r = set_version_verified db namespace name version verified in
      (r.1 ≡ some (record row { verified = verified }))
      × (get_version_by_number r.0 other_agent other ≡ (
          if agent.id == other_agent && version == other
          then r.1
          else get_version_by_number db other_agent other))
unfolding set_version_verified get_version_by_number get_agent
set_version_verified_lem db namespace name version verified agent row here found other_agent other =
    elim (Option-cases (JsMap.get db.versions agent.id)) [
      | inl e ↦ cc (rw (e, get_version_by_number) at found)
      | inr (vs, e) ↦
          let found' : find (is_version version) vs ≡ some row =
            rw (e, get_version_by_number) at found in
          rw (here, set_version_verified, e, found')
            (
              refl,
              ground (
                arith,
                get-set db.versions agent.id other_agent (mark version verified vs),
                find-mark version other verified vs,
              ),
            )
    ]
