-- ===== src/Db/Runs.antt =====
-- memory.ts, the runs and the environments.
pub mod Listing
use skrun.Base.{
  ℕ, String, Bool, true, false, Option, none, some, List, [], ◌∷◌, ◌==◌, string_eq, nat_eq, leb,
  filter, if◌then◌else◌, get_or, take,
}
use skrun.JsMap
use skrun.JsMap.{JsMap, values}
use skrun.Schema.{Run, RunStatus, running, completed, failed, cancelled, Environment}
use skrun.Db.{MemoryDb}

pub record NewRun : Type 0 where
  pub id : String
  pub agent_id : Option String
  pub agent_version : String
  pub model : Option String
  pub environment_id : Option String
  pub user_id : Option String
  pub api_key_id : Option String
  pub status : RunStatus
  pub input : Option String
  pub created_at : Option ℕ

unfoldable pub create_run : MemoryDb → NewRun → ℕ → MemoryDb × Run
create_run db row now =
    let run : Run = record {
      id = row.id;
      agent_id = row.agent_id;
      agent_version = row.agent_version;
      model = row.model;
      environment_id = row.environment_id;
      user_id = row.user_id;
      api_key_id = row.api_key_id;
      status = row.status;
      input = row.input;
      output = none;
      error = none;
      usage_prompt_tokens = 0;
      usage_completion_tokens = 0;
      usage_total_tokens = 0;
      usage_estimated_cost = 0;
      usage_cache_read_tokens = 0;
      usage_cache_write_tokens = 0;
      usage_cache_savings_usd = 0;
      duration_ms = none;
      machine_id = none;
      private_ip = none;
      phase_timings = none;
      files = none;
      created_at = get_or row.created_at now;
      completed_at = none;
    } in
    (record db { runs = JsMap.set db.runs row.id run }, run)

-- The fields that the caller passes; one that may be null is passed with its value or `none`.
pub record RunPatch : Type 0 where
  pub status : Option RunStatus
  pub output : Option (Option String)
  pub error : Option (Option String)
  pub usage_prompt_tokens : Option ℕ
  pub usage_completion_tokens : Option ℕ
  pub usage_total_tokens : Option ℕ
  pub usage_estimated_cost : Option ℕ
  pub usage_cache_read_tokens : Option ℕ
  pub usage_cache_write_tokens : Option ℕ
  pub usage_cache_savings_usd : Option ℕ
  pub duration_ms : Option (Option ℕ)
  pub files : Option (Option String)
  pub completed_at : Option (Option ℕ)
  pub machine_id : Option (Option String)
  pub private_ip : Option (Option String)
  pub phase_timings : Option (Option String)

abbrev pub patch_run : Run → RunPatch → Run
patch_run run p = record run {
  status = get_or p.status run.status;
  output = get_or p.output run.output;
  error = get_or p.error run.error;
  usage_prompt_tokens = get_or p.usage_prompt_tokens run.usage_prompt_tokens;
  usage_completion_tokens = get_or p.usage_completion_tokens run.usage_completion_tokens;
  usage_total_tokens = get_or p.usage_total_tokens run.usage_total_tokens;
  usage_estimated_cost = get_or p.usage_estimated_cost run.usage_estimated_cost;
  usage_cache_read_tokens = get_or p.usage_cache_read_tokens run.usage_cache_read_tokens;
  usage_cache_write_tokens = get_or p.usage_cache_write_tokens run.usage_cache_write_tokens;
  usage_cache_savings_usd = get_or p.usage_cache_savings_usd run.usage_cache_savings_usd;
  duration_ms = get_or p.duration_ms run.duration_ms;
  files = get_or p.files run.files;
  completed_at = get_or p.completed_at run.completed_at;
  machine_id = get_or p.machine_id run.machine_id;
  private_ip = get_or p.private_ip run.private_ip;
  phase_timings = get_or p.phase_timings run.phase_timings;
}

unfoldable pub update_run : MemoryDb → String → RunPatch → MemoryDb × Option Run
update_run db id p = elim (JsMap.get db.runs id) [
  | none ↦ (db, none)
  | some run ↦ (record db { runs = JsMap.set db.runs id (patch_run run p) }, some (patch_run run p))
]

unfoldable pub get_run : MemoryDb → String → Option Run
get_run db id = JsMap.get db.runs id

abbrev pub status_code : RunStatus → ℕ
status_code running = 0
status_code completed = 1
status_code failed = 2
status_code cancelled = 3

pub record RunFilters : Type 0 where
  pub agent_id : Option String
  pub user_id : Option String
  pub status : Option RunStatus
  pub limit : Option ℕ

-- `if (filters?.field) results = results.filter(...)`, where an empty text is no filter.
abbrev pub is_named : String → Option String → Bool
is_named v none = false
is_named v (some w) = w == v

abbrev pub by_name : Option String → (Run → Option String) → Run → Bool
by_name none field run = true
by_name (some v) field run = if v == "" then true else is_named v (field run)

abbrev pub by_status : Option RunStatus → Run → Bool
by_status none run = true
by_status (some st) run = status_code run.status == status_code st

-- `sort` with the newest first, which keeps runs of one instant in their order.
unfoldable pub insert_run : Run → List Run → List Run
insert_run r [] = r ∷ []
insert_run r (s ∷ l) = if leb s.created_at r.created_at then r ∷ s ∷ l else s ∷ insert_run r l

unfoldable pub newest_first : List Run → List Run
newest_first [] = []
newest_first (r ∷ l) = insert_run r (newest_first l)

abbrev pub limited : Option ℕ → List Run → List Run
limited none l = l
limited (some n) l = if n == 0 then l else take n l

unfoldable pub list_runs : MemoryDb → RunFilters → List Run
list_runs db f =
    let by_agent = filter (by_name f.agent_id (λ r. r.agent_id)) (values db.runs) in
    let by_user = filter (by_name f.user_id (λ r. r.user_id)) by_agent in
    limited f.limit (newest_first (filter (by_status f.status) by_user))

unfoldable pub get_environment : MemoryDb → String → Option Environment
get_environment db id = JsMap.get db.environments id

unfoldable pub create_environment :
    MemoryDb → String → String → String → ℕ → String → MemoryDb × Environment
create_environment db name owner_id config now uuid =
    let env : Environment = record {
      id = uuid;
      name = name;
      owner_id = owner_id;
      config = config;
      created_at = now;
      updated_at = now;
    } in
    (record db { environments = JsMap.set db.environments uuid env }, env)

unfoldable pub list_environments : MemoryDb → String → List Environment
list_environments db owner_id = filter (λ e. e.owner_id == owner_id) (values db.environments)
