-- ===== src/Routes/RoundTrip.antt =====
-- A bundle that is pushed through the routes, and pulled through them by the same caller.
use skrun.Base.{
  ◌≡◌, inl, inr, refl, ap, sym, ◌∙◌, ℕ, String, false, Option, none, some, [], ◌∷◌, arith,
  Option-cases, template, get_or, string_eq,
}
use mathlib.Core.Option
use skrun.JsMap
use skrun.JsMap.{JsMap}
use skrun.Schema.{Agent, UserContext}
use skrun.Db.{MemoryDb}
use skrun.Db.Agents.{get_agent, touch_agent, agent_key, create_agent, create_version}
use skrun.Access.KeyScope.{is_delegated_key, assert_not_delegated_or_throw}
use skrun.Access.Visibility.{MaySee, assert_agent_visible_or_throw, visible_iff}
use skrun.Registry.{Outcome, ok, throw}
use skrun.Registry.Service.{Digest, RegistryService, AgentMetadata}
use skrun.Registry.Push.{PushRequest, push, pull, get_or_create, Pulled}
use skrun.Registry.RoundTrip.{pull-push}
use skrun.Registry.Pushed.{push_wrote, push-HasPushed, get_or_create_lem}
use skrun.Routes.{reply, dispatch, validate_agent_params}
use skrun.Routes.Read.{PullReply, get_pull, as_download}
use skrun.Routes.Publish.{PushInput, push_request, admit_push, post_push}
use skrun.Routes.Rights.{Outcome-cases}

abbrev owner_at : JsMap String Agent → String → Option String
owner_at m key = Option.map (λ (a : Agent). a.owner_id) (JsMap.get m key)

owner_at-touch :
    (agent_id : String) (now : ℕ) (m : JsMap String Agent) (key : String)
    → owner_at (touch_agent agent_id now m) key ≡ owner_at m key
unfolding touch_agent JsMap.get
owner_at-touch agent_id now [] key = refl
owner_at-touch agent_id now ((j, a) ∷ m) key = ground (arith, owner_at-touch agent_id now m key)

-- The agent of a push is the caller's to see: it is new, or was so already.
created_MaySee :
    (db : MemoryDb) (r : PushRequest) (user : UserContext)
    → r.user_id ≡ user.id
    → ((a : Agent) → get_agent db r.namespace r.name ≡ some a → MaySee a user)
    → MaySee (get_or_create db r).1 user
unfolding get_or_create create_agent
created_MaySee db r user own old = elim (Option-cases (get_agent db r.namespace r.name)) [
  | inl e ↦ inl (rw (get_or_create, e) own)
  | inr (a, e) ↦ rw (get_or_create, e) (old a e)
]

owner_kept :
    (d : Digest) (s : RegistryService) (r : PushRequest) (a : Agent) {m : AgentMetadata}
    → (push d s r).1 ≡ ok m
    → get_agent (push d s r).0.db r.namespace r.name ≡ some a
    → a.owner_id ≡ (get_or_create s.db r).1.owner_id
unfolding get_agent create_version
owner_kept d s r a done here =
    let db = (get_or_create s.db r).0 in
    let agent = (get_or_create s.db r).1 in
    let key = agent_key r.namespace r.name in
    let there : JsMap.get (touch_agent agent.id r.now db.agents) key ≡ some a =
      ap (λ (s' : RegistryService). JsMap.get s'.db.agents key) (sym (push_wrote d s r done).1)
      ∙ here in
    let was : JsMap.get db.agents key ≡ some agent = get_or_create_lem s.db r in
    let same = owner_at-touch agent.id r.now db.agents key in cc (rw (there, was) at same)

pushed_MaySee :
    (d : Digest) (s : RegistryService) (r : PushRequest) (a : Agent) (user : UserContext)
    {m : AgentMetadata}
    → (push d s r).1 ≡ ok m
    → get_agent (push d s r).0.db r.namespace r.name ≡ some a
    → r.user_id ≡ user.id
    → ((a : Agent) → get_agent s.db r.namespace r.name ≡ some a → MaySee a user)
    → MaySee a user
pushed_MaySee d s r a user done here own old = elim (created_MaySee s.db r user own old) [
  | inl e ↦ inl (owner_kept d s r a done here ∙ e)
  | inr e ↦ inr e
]

pull-preloaded :
    (d : Digest) (s : RegistryService) (namespace name : String) (version : Option String)
    (a : Agent)
    → get_agent s.db namespace name ≡ some a
    → pull d s namespace name version (some a) ≡ pull d s namespace name version none
unfolding pull
pull-preloaded d s namespace name version a here = rw (pull, here) refl

-- What the route answers is what the service gives, for a caller whom no gate stops.
get_pull_served :
    (d : Digest) (s : RegistryService) (user : UserContext) (namespace name : String)
    (version : Option String) (a : Agent) {p : Pulled}
    → validate_agent_params namespace name ≡ ok tt
    → get_agent s.db namespace name ≡ some a
    → MaySee a user
    → is_delegated_key user ≡ false
    → pull d s namespace name version none ≡ ok p
    → get_pull d s user namespace name version ≡ reply (as_download name p)
unfolding get_pull assert_not_delegated_or_throw
get_pull_served d s user namespace name version a valid here seen free got =
    let visible : assert_agent_visible_or_throw (some a) user namespace name ≡ ok a =
      (visible_iff (some a) user namespace name a).1 (refl, seen) in
    let got' = pull-preloaded d s namespace name version a here ∙ got in
    rw (get_pull, valid, here, visible, free, got') refl

dispatch-reply : {A : Type 0} (m : Outcome A) {a : A} → dispatch m ≡ reply a → m ≡ ok a
dispatch-reply (ok a) h = cc h
dispatch-reply (throw e) h = cc h

module _ (decode : String → Option String) (d : Digest) (s : RegistryService) (user : UserContext)
    (namespace name : String) (i : PushInput) where
  -- A push that is answered with metadata has passed the gates and the service.
  pushed :
      {m : AgentMetadata}
      → (post_push decode d s user namespace name i).1 ≡ reply m
      → (notes : Option String) × (validate_agent_params namespace name ≡ ok tt)
        × ((push d s (push_request user namespace name i notes)).1 ≡ ok m)
        × ((post_push decode d s user namespace name i).0
            ≡ (push d s (push_request user namespace name i notes)).0)
  unfolding post_push admit_push
  pushed answered = elim (Outcome-cases (admit_push decode s user namespace name i)) [
    | inr (e, h) ↦ cc (rw (post_push, h) at answered)
    | inl (notes, h) ↦ (
      notes,
      ground (arith, h),
      dispatch-reply _ (rw (post_push, h) at answered),
      rw (post_push, h) refl,
    )
  ]

  -- What a caller pushes and then pulls, of that number or of the latest one, is the bundle, under the
  -- number's name: the gates of the second request let pass whom those of the first one did, if the
  -- caller's key is not restricted to some agents and an agent that was there was the caller's to see.
  pub get_pull-post_push :
      {m : AgentMetadata}
      → (post_push decode d s user namespace name i).1 ≡ reply m
      → is_delegated_key user ≡ false
      → ((a : Agent) → get_agent s.db namespace name ≡ some a → MaySee a user)
      → let number = get_or i.version "" in
        let download : PullReply = record {
          content_type = "application/octet-stream";
          content_disposition =
              template ("attachment; filename=\"" ∷ name ∷ "-" ∷ number ∷ ".agent\"" ∷ []);
          agent_version = number;
          bytes = i.bundle;
        } in
        let s' = (post_push decode d s user namespace name i).0 in
        (get_pull d s' user namespace name (some number) ≡ reply download)
        × (get_pull d s' user namespace name none ≡ reply download)
  get_pull-post_push answered free old =
      let (notes, valid, done, after) = pushed answered in
      let r = push_request user namespace name i notes in
      let (a, (there, found, latest)) = push-HasPushed d s r done in
      let seen = pushed_MaySee d s r a user done there refl old in
      let (one, last) = pull-push d s r done in
      let s' = (push d s r).0 in
      rw after (
        get_pull_served d s' user namespace name (some r.version) a valid there seen free one,
        get_pull_served d s' user namespace name none a valid there seen free last,
      )
