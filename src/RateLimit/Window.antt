-- ===== src/RateLimit/Window.antt =====
-- What the limiter admits inside a window.
use skrun.Base.{
  ℕ, suc, ◌+◌, ◌-◌, ◌≤◌, min, String, ◌≡◌, ◌≢◌, refl, sym, subst, ◌∙◌, some, List, [], ◌∷◌, ◌==◌,
  string_eq, string_discrete, ltb, leb, if◌then◌else◌, length, inl, inr, Bool-cases, arith,
}
use skrun.JsMap
use skrun.JsMap.{JsMap, Distinct, reject}
use skrun.JsMap.Laws.{get-set_self, get-set_ne, set-Distinct, get-reject, reject-Distinct}
use skrun.RateLimit.{MemoryRateLimiter, Entry, current, cleanup, check}

pub record Hit : Type 0 where
  pub key : String
  pub at : ℕ

-- The checks of a list of hits, one after the other.
unfoldable pub check_all : MemoryRateLimiter → List Hit → MemoryRateLimiter
check_all l [] = l
check_all l (h ∷ hs) = check_all (check l h.key h.at).0 hs

-- How many hits of the key succeed, and how many there are.
unfoldable pub admitted : MemoryRateLimiter → String → List Hit → ℕ
admitted l key [] = 0
admitted l key (h ∷ hs) =
    let (l', result) = check l h.key h.at in
    let rest = admitted l' key hs in
    if h.key == key then (if result.success then suc rest else rest) else rest

abbrev pub occurrences : String → List Hit → ℕ
occurrences key [] = 0
occurrences key (h ∷ hs) = let rest = occurrences key hs in if h.key == key then suc rest else rest

-- Every hit comes before the window is over.
abbrev pub Within : ℕ → List Hit → Type 0
Within reset [] = Unit
Within reset (h ∷ hs) = (h.at ≤ reset) × Within reset hs

cleanup-Distinct :
    (hits : JsMap String Entry) (now : ℕ) → Distinct hits → Distinct (cleanup hits now)
unfolding cleanup
cleanup-Distinct hits now d =
    ground (arith, reject-Distinct (λ (v : Entry). ltb v.reset_at now) hits d)

-- An entry whose window is not over survives the sweep.
get-cleanup :
    (hits : JsMap String Entry) (now : ℕ) (key : String) (entry : Entry)
    → Distinct hits
    → JsMap.get hits key ≡ some entry
    → now ≤ entry.reset_at
    → JsMap.get (cleanup hits now) key ≡ some entry
unfolding cleanup
get-cleanup hits now key entry d e le = elim (Bool-cases (ltb 10000 (length hits))) [
  | inl t ↦ rw (t, get-reject (λ (v : Entry). ltb v.reset_at now) hits key d, e) (ground arith)
  | inr t ↦ rw t e
]

current_alive :
    (l : MemoryRateLimiter) (key : String) (now : ℕ) (entry : Entry)
    → JsMap.get l.hits key ≡ some entry
    → now ≤ entry.reset_at
    → current l key now ≡ entry
unfolding current
current_alive l key now entry e le = rw (current, e) (ground arith)

module _ (l : MemoryRateLimiter) (h : Hit) (d : Distinct l.hits) where
  check-Distinct : Distinct (check l h.key h.at).0.hits
  unfolding check
  check-Distinct = cleanup-Distinct _ h.at (set-Distinct l.hits h.key _ d)

  module _ (entry : Entry) (le : h.at ≤ entry.reset_at) where
    -- A hit adds one to the entry of its key and leaves the others.
    check-get_self :
        JsMap.get l.hits h.key ≡ some entry
        → JsMap.get (check l h.key h.at).0.hits h.key
          ≡ some (record entry { count = entry.count + 1 })
    unfolding check
    check-get_self e =
        rw (check, current_alive l h.key h.at entry e le)
          (get-cleanup _ h.at h.key _ (set-Distinct l.hits h.key _ d) (get-set_self l.hits h.key _)
            le)

    check-get_ne :
        (key : String)
        → h.key ≢ key
        → JsMap.get l.hits key ≡ some entry
        → JsMap.get (check l h.key h.at).0.hits key ≡ some entry
    unfolding check
    check-get_ne key ne e =
        get-cleanup _ h.at key _ (set-Distinct l.hits h.key _ d)
          (get-set_ne l.hits h.key key _ ne ∙ e) le

    check-success :
        JsMap.get l.hits h.key ≡ some entry
        → (check l h.key h.at).1.success ≡ leb (entry.count + 1) l.max
    unfolding check
    check-success e = rw (check, current_alive l h.key h.at entry e le) (ground arith)

check-max : (l : MemoryRateLimiter) (h : Hit) → (check l h.key h.at).0.max ≡ l.max
unfolding check
check-max l h = refl

-- From a table of distinct keys, and for hits of any keys before the key's window is over, the hits of
-- the key that succeed are as many as its entry leaves of the maximum, or all of them when they are
-- fewer: the hits of other keys take none away, and no sweep gives any back.
pub admitted_lem :
    (hs : List Hit) (l : MemoryRateLimiter) (key : String) (entry : Entry)
    → Distinct l.hits
    → JsMap.get l.hits key ≡ some entry
    → Within entry.reset_at hs
    → admitted l key hs ≡ min (l.max - entry.count) (occurrences key hs)
unfolding admitted
admitted_lem [] l key entry d e w = omega arith
admitted_lem (h ∷ hs) l key entry d e (le, w) =
    let l' = (check l h.key h.at).0 in
    let d' = check-Distinct l h d in
    elim (string_discrete h.key key) [
      | yes p ↦
          let here = subst (λ k. JsMap.get l.hits k ≡ some entry) (sym p) e in
          let there =
            subst (λ k. JsMap.get l'.hits k ≡ some (record entry { count = entry.count + 1 })) p
              (check-get_self l h d entry le here) in
          ground (
            arith,
            admitted_lem hs l' key (record entry { count = entry.count + 1 }) d' there w,
            check-success l h d entry le here,
            check-max l h,
            p,
          )
      | no ne ↦ ground (
        arith,
        admitted_lem hs l' key entry d' (check-get_ne l h d entry le key ne e) w,
        check-max l h,
        ne,
      )
    ]
