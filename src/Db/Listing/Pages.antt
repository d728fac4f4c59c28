-- ===== src/Db/Listing/Pages.antt =====
-- The pages of `listAgents`, put one after another.
use mathlib.Core.List.{map-append, append-nil, append_assoc}
use native.Mathlib.Nat.{add-zero, zero-add, zero-mul}
use skrun.Base.{
  ℕ, zero, suc, ◌+◌, ◌*◌, ◌≤◌, ◌≡◌, refl, sym, ap, ◌∙◌, String, Option, none, some, ◌≢◌, ◌==◌,
  string_eq, Bool-cases, inl, inr, All, All-filter, List, [], ◌++◌, map, drop, take-drop, drop-drop,
  drop_all, length, arith,
}
use skrun.JsMap.{values}
use skrun.Db.{MemoryDb}
use skrun.Db.Listing.{list_agents, ListedAgent, page_of, owned_by, with_counts, agent_counts}
use skrun.Db.Listing.Totals.{listed, map-listed}
use skrun.Schema.{Agent}

-- The pages from `page` on, `n` of them, one after another.
abbrev pub pages_from {ℓ} : {A : Type ℓ} → (ℕ → List A) → ℕ → ℕ → List A
pages_from f page zero = []
pages_from f page (suc n) = f page ++ pages_from f (suc page) n

next_page : (page limit : ℕ) → page * limit + limit ≡ (suc page) * limit
next_page page limit = grind arith

pages_from-page_of {ℓ} :
    {A : Type ℓ} (limit : ℕ) (l : List A) (page n : ℕ)
    → pages_from (λ p. page_of p limit l) (suc page) n ++ drop ((page + n) * limit) l
      ≡ drop (page * limit) l
pages_from-page_of limit l page zero = rw add-zero
pages_from-page_of limit l page (suc n) =
    let rest = pages_from-page_of limit l (suc page) n in
    let there : suc page + n ≡ page + suc n = omega arith in
    rw append_assoc (
      rw (← there) (
        rw rest (
          rw (← next_page page limit)
            (rw (← drop-drop (page * limit) limit l) (take-drop limit (drop (page * limit) l))))))

pages_from-map {ℓ κ} :
    {A : Type ℓ} {B : Type κ} (f : A → B) (g : ℕ → List A) (page n : ℕ)
    → pages_from (λ p. map f (g p)) page n ≡ map f (pages_from g page n)
pages_from-map f g page zero = refl
pages_from-map f g page (suc n) = rw (pages_from-map f g (suc page) n, map-append)

pub owned_by-All :
    (P : Agent → Type 0) (user_id : Option String) (l : List Agent)
    → All P l
    → All P (owned_by user_id l)
owned_by-All P none l h = h
owned_by-All P (some u) l h = elim (Bool-cases (u == "")) [
  | inl e ↦ rw e h
  | inr e ↦ rw e (All-filter P (λ a. a.owner_id == u) l h)
]

-- In a database whose agents have identifiers, reading the pages 1 to `n` lists every agent that the
-- caller may list exactly once, in the order of the table, with the number, the tokens and the cost of
-- its runs, when the `n` pages have room for them all; and each page says how many there are.
pub list_agents_pages :
    (db : MemoryDb) (limit n : ℕ) (user_id : Option String)
    → All (λ (a : Agent). a.id ≢ "") (values db.agents)
    → length (owned_by user_id (values db.agents)) ≤ n * limit
    → (pages_from (λ p. (list_agents db p limit user_id).0) 1 n
        ≡ map (listed (values db.runs)) (owned_by user_id (values db.agents)))
      × ((page : ℕ)
          → (list_agents db page limit user_id).1 ≡ length (owned_by user_id (values db.agents)))
unfolding list_agents
list_agents_pages db limit n user_id named room = (
  pages_from-map with_totals (λ p. page_of p limit mine) 1 n
      ∙ ap (map with_totals) all_pages
      ∙ map-listed (values db.runs) mine (owned_by-All _ user_id (values db.agents) named),
  λ page. refl,
)
  where
    mine : List Agent
    mine = owned_by user_id (values db.agents)

    with_totals : Agent → ListedAgent
    with_totals = with_counts (agent_counts [] (values db.runs))

    all_pages : pages_from (λ p. page_of p limit mine) 1 n ≡ mine
    all_pages =
        sym (append-nil _)
        ∙ ap (λ (l : List Agent). pages_from (λ p. page_of p limit mine) 1 n ++ l)
            (sym (drop_all ((0 + n) * limit) mine (rw zero-add room)))
        ∙ pages_from-page_of limit mine 0 n
        ∙ rw zero-mul
