-- ===== src/Access/Master.antt =====
-- `isMasterCredential` compares sets, not lists: what it decides, and what a master credential may do.
use text.Mathlib.TextEquality.{eq_iff}
use skrun.Base.{
  ℕ, ◌+◌, String, Bool, true, false, ◌&&◌, ◌||◌, none, some, List, [], ◌∷◌, ◌++◌, ◌==◌, string_eq,
  nat_eq, contains, all, length, ◌≡◌, ◌≢◌, ◌⊎◌, ◌↔◌, inl, inr, refl, arith, Option-cases,
}
use skrun.Schema.{Agent, KeyContext, UserContext, account}
use skrun.Registry.{ok}
use skrun.Access.KeyScope.{
  set_add, set_of, key_is_master, is_master_credential, full_operation_set, key_allows_operation,
  key_can_access_agent, is_delegated_key, assert_key_scope_or_throw, assert_key_can_push_or_throw,
  assert_master_credential_or_throw, assert_key_can_read_agent_or_throw,
  assert_not_delegated_or_throw,
}

abbrev Once : List String → Type 0
Once [] = Unit
Once (x ∷ xs) = (contains xs x ≡ false) × Once xs

contains-append :
    (xs ys : List String) (x : String) → contains (xs ++ ys) x ≡ (contains xs x || contains ys x)
contains-append [] ys x = refl
contains-append (y ∷ xs) ys x = ground (arith, contains-append xs ys x)

contains-set_of :
    (seen l : List String) (x : String)
    → contains (set_of seen l) x ≡ (contains seen x || contains l x)
unfolding set_of
contains-set_of seen [] x = ground arith
contains-set_of seen (s ∷ l) x =
    ground (arith, contains-set_of (set_add seen s) l x, contains-append seen (s ∷ []) x)

Once-append :
    (xs : List String) (x : String) → contains xs x ≡ false → Once xs → Once (xs ++ x ∷ [])
Once-append [] x h o = (refl, tt)
Once-append (y ∷ xs) x h (new, o) = ground (arith, contains-append xs (x ∷ []) y, Once-append xs x)

set_of-Once : (seen l : List String) → Once seen → Once (set_of seen l)
unfolding set_of
set_of-Once seen [] o = o
set_of-Once seen (s ∷ l) o = set_of-Once (set_add seen s) l (ground (arith, Once-append seen s))

abbrev indicator : Bool → ℕ
indicator true = 1
indicator false = 0

-- A list without repetition that holds only `a`, `b` and `c` is as long as the number of these that
-- it holds.
length-Once :
    (a b c : String) (xs : List String)
    → a ≢ b
    → a ≢ c
    → b ≢ c
    → Once xs
    → all (contains (a ∷ b ∷ c ∷ [])) xs ≡ true
    → length xs ≡ indicator (contains xs a) + indicator (contains xs b) + indicator (contains xs c)
length-Once a b c [] p q r o h = omega arith
length-Once a b c (x ∷ xs) p q r (new, o) h = ground (arith, length-Once a b c xs p q r o)

contains_of_all :
    (ys xs : List String) (x : String)
    → all (contains ys) xs ≡ true
    → contains xs x ≡ true
    → contains ys x ≡ true
contains_of_all ys [] x h m = cc
contains_of_all ys (y ∷ xs) x h m = ground (arith, contains_of_all ys xs x)

all_of_contains :
    (p : String → Bool) (xs : List String)
    → ((x : String) → contains xs x ≡ true → p x ≡ true)
    → all p xs ≡ true
all_of_contains p [] h = refl
all_of_contains p (y ∷ xs) h = ground (arith, h y, all_of_contains p xs (λ x m. h x (ground arith)))

run≢push : ◌≢◌ {A = String} "agent:run" "agent:push"
run≢push = ground (arith, eq_iff "agent:run" "agent:push")

run≢verify : ◌≢◌ {A = String} "agent:run" "agent:verify"
run≢verify = ground (arith, eq_iff "agent:run" "agent:verify")

push≢verify : ◌≢◌ {A = String} "agent:push" "agent:verify"
push≢verify = ground (arith, eq_iff "agent:push" "agent:verify")

-- The test on the list without repetition.
abbrev IsFull : List String → Type 0
IsFull ops =
    (length ops == length full_operation_set && all (contains full_operation_set) ops) ≡ true

IsFull-contains :
    (ops : List String)
    → Once ops
    → IsFull ops
    → (op : String) → contains ops op ≡ contains full_operation_set op
IsFull-contains ops o h op = ground (
  arith,
  length-Once "agent:run" "agent:push" "agent:verify" ops run≢push run≢verify push≢verify o,
  contains_of_all full_operation_set ops op,
)

IsFull-of_contains :
    (ops : List String)
    → Once ops
    → ((op : String) → contains ops op ≡ contains full_operation_set op)
    → IsFull ops
IsFull-of_contains ops o h = ground (
  arith,
  length-Once "agent:run" "agent:push" "agent:verify" ops run≢push run≢verify push≢verify o,
  all_of_contains (contains full_operation_set) ops (λ x m. rw (← h x) m),
  h "agent:run",
  h "agent:push",
  h "agent:verify",
)

-- An account-wide key with exactly the operations of the full set, in any order and number.
abbrev pub IsFullKey : KeyContext → Type 0
IsFullKey key =
    (key.scope_kind ≡ account)
    × ((op : String) → contains key.operations op ≡ contains full_operation_set op)

key_is_master_iff : (key : KeyContext) → (key_is_master (some key) ≡ true) ↔ IsFullKey key
key_is_master_iff key = (
  λ h. (ground arith, λ op. rw (← deduplicated op) (IsFull-contains ops once (ground arith) op)),
  λ h. ground (arith, IsFull-of_contains ops once (λ op. rw (deduplicated op) (h.1 op)), h.0),
)
  where
    ops : List String
    ops = set_of [] key.operations

    once : Once ops
    once = set_of-Once [] key.operations tt

    deduplicated : (op : String) → contains ops op ≡ contains key.operations op
    deduplicated op = contains-set_of [] key.operations op

-- `isMasterCredential` accepts exactly a credential with no key, or an account-wide key whose
-- operations are, as a set, those of the full set: order and repetition do not matter, and a list
-- that repeats one operation and lacks another is refused.
pub master_iff :
    (user : UserContext)
    → (is_master_credential user ≡ true)
      ↔ ((user.key ≡ none) ⊎ ((key : KeyContext) × (user.key ≡ some key) × IsFullKey key))
unfolding is_master_credential
master_iff user = (to, from)
  where
    to :
        is_master_credential user ≡ true
        → (user.key ≡ none) ⊎ ((key : KeyContext) × (user.key ≡ some key) × IsFullKey key)
    to h = elim (Option-cases user.key) [
      | inl e ↦ inl e
      | inr (key, e) ↦ inr (key, e, (key_is_master_iff key).0 (rw (e, is_master_credential) at h))
    ]

    from :
        (user.key ≡ none) ⊎ ((key : KeyContext) × (user.key ≡ some key) × IsFullKey key)
        → is_master_credential user ≡ true
    from (inl e) = rw (e, is_master_credential)
    from (inr (key, e, full)) = rw (e, is_master_credential) ((key_is_master_iff key).1 full)

-- A master credential passes every gate, for every agent and every operation of the full set.
pub master_passes :
    (user : UserContext) (agent : Agent) (op : String)
    → is_master_credential user ≡ true
    → contains full_operation_set op ≡ true
    → (assert_key_scope_or_throw user agent op ≡ ok tt)
      × (assert_key_can_push_or_throw user none ≡ ok tt)
      × (assert_key_can_push_or_throw user (some agent) ≡ ok tt)
      × (assert_master_credential_or_throw user ≡ ok tt)
      × (assert_key_can_read_agent_or_throw user agent ≡ ok tt)
      × (assert_not_delegated_or_throw user ≡ ok tt)
unfolding assert_key_scope_or_throw assert_key_can_push_or_throw assert_master_credential_or_throw
    assert_key_can_read_agent_or_throw assert_not_delegated_or_throw key_can_access_agent
    is_delegated_key key_allows_operation
master_passes user agent op h m = elim ((master_iff user).0 h) [
  | inl e ↦ ground arith
  | inr (key, e, (k, same)) ↦ ground (arith, same op, same "agent:push")
]
