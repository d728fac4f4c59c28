-- ===== src/Network/Allowed.antt =====
-- The allow-list of hosts, against what its patterns mean.
use skrun.Base.{
  ℕ_discrete, ℕ, ◌<◌, ◌≡◌, ◌↔◌, ◌⊎◌, refl, sym, ap, Bool, true, false, ◌&&◌, List, [], ◌∷◌, ◌++◌,
  ◌==◌, ==_iff, nat_eq, if◌then◌else◌, ltb, length, length-append, any, arith, Bool-cases, inl, inr,
}
use skrun.Network.Codes.{same, lower, ends_with}
use skrun.Network.{match_lower, match_host, is_private_host, is_host_allowed}

pub same_iff : (p s : List ℕ) → (same p s ≡ true) ↔ (p ≡ s)
unfolding same
same_iff [] [] = (λ h. refl, λ h. refl)
same_iff [] (d ∷ s) = (λ h. cc, λ h. cc)
same_iff (c ∷ p) [] = (λ h. cc, λ h. cc)
same_iff (c ∷ p) (d ∷ s) = ground (arith, same_iff p s)

ends_with-split :
    (suffix s : List ℕ) → ends_with suffix s ≡ true → (pre : List ℕ) × (s ≡ pre ++ suffix)
unfolding ends_with
ends_with-split suffix [] h = ([], sym ((same_iff suffix []).0 h))
ends_with-split suffix (d ∷ s) h = elim (Bool-cases (same suffix (d ∷ s))) [
  | inl e ↦ ([], sym ((same_iff suffix (d ∷ s)).0 e))
  | inr e ↦
      let (pre, split) = ends_with-split suffix s (rw (ends_with, e) at h) in
      (d ∷ pre, ap (λ (l : List ℕ). d ∷ l) split)
]

ends_with_self : (suffix : List ℕ) → ends_with suffix suffix ≡ true
unfolding ends_with
ends_with_self [] = (same_iff [] []).1 refl
ends_with_self (c ∷ s) = rw (ends_with, (same_iff (c ∷ s) (c ∷ s)).1 refl) refl

ends_with-append : (suffix pre : List ℕ) → ends_with suffix (pre ++ suffix) ≡ true
unfolding ends_with
ends_with-append suffix [] = ends_with_self suffix
ends_with-append suffix (d ∷ pre) = ground (arith, ends_with-append suffix pre)

-- What a pattern means for a host, both in lower case: the star is every host, `*.d` is every name with
-- something before `.d`, and any other pattern is itself.
abbrev pub Meets : List ℕ → List ℕ → Type 0
Meets h p =
    (p ≡ b'*' ∷ [])
    ⊎ (p ≡ h)
    ⊎ (x : ℕ) × (pre : List ℕ) × (domain : List ℕ) × (p ≡ b'*' ∷ b'.' ∷ domain)
      × (h ≡ x ∷ (pre ++ b'.' ∷ domain))

longer_split :
    (pre suffix h : List ℕ)
    → h ≡ pre ++ suffix
    → length suffix < length h
    → (x : ℕ) × (xs : List ℕ) × (h ≡ x ∷ (xs ++ suffix))
longer_split [] suffix h e lt = absurd (omega (arith, ap length e))
longer_split (x ∷ pre) suffix h e lt = (x, pre, e)

match_lower-Meets : (h p : List ℕ) → match_lower h p ≡ true → Meets h p
unfolding match_lower
match_lower-Meets h [] m = inr (inl (sym ((same_iff h []).0 m)))
match_lower-Meets h (c ∷ []) m = elim (Bool-cases (c == b'*')) [
  | inl e ↦ inl (ap (λ (x : ℕ). x ∷ []) ((==_iff c b'*').0 e))
  | inr e ↦ inr (inl (sym ((same_iff h (c ∷ [])).0 (rw (match_lower, e) at m))))
]
match_lower-Meets h (c ∷ d ∷ p) m = elim (Bool-cases (c == b'*' && d == b'.')) [
  | inl e ↦
      let m' : (ends_with (d ∷ p) h && ltb (length (d ∷ p)) (length h)) ≡ true =
        rw (match_lower, e) at m in
      let (pre, split) = ends_with-split (d ∷ p) h (ground (arith, m')) in
      let (x, xs, split') = longer_split pre (d ∷ p) h split (ground (arith, m')) in
      let star : c ≡ b'*' = ground (arith, e) in
      let dot : d ≡ b'.' = ground (arith, e) in
      inr (inr (x, xs, p, cc (star, dot), cc (split', dot)))
  | inr e ↦ inr (inl (sym ((same_iff h (c ∷ d ∷ p)).0 (rw (match_lower, e) at m))))
]

same_self : (s : List ℕ) → same s s ≡ true
same_self s = (same_iff s s).1 refl

match_lower_self : (h : List ℕ) → match_lower h h ≡ true
unfolding match_lower
match_lower_self [] = same_self []
match_lower_self (c ∷ []) = ground (arith, same_self (c ∷ []))
match_lower_self (c ∷ d ∷ h) = elim (Bool-cases (c == b'*' && d == b'.')) [
  | inl e ↦ rw (match_lower, e) (ground (arith, ends_with-append (d ∷ h) (c ∷ [])))
  | inr e ↦ rw (match_lower, e) (same_self (c ∷ d ∷ h))
]

match_lower_subdomain :
    (x : ℕ) (pre domain : List ℕ)
    → match_lower (x ∷ (pre ++ b'.' ∷ domain)) (b'*' ∷ b'.' ∷ domain) ≡ true
unfolding match_lower ℕ_discrete
match_lower_subdomain x pre domain =
    ground (arith, ends_with-append (b'.' ∷ domain) (x ∷ pre), length-append pre (b'.' ∷ domain))

Meets-match_lower : (h p : List ℕ) → Meets h p → match_lower h p ≡ true
unfolding match_lower ℕ_discrete
Meets-match_lower h p (inl e) = rw e refl
Meets-match_lower h p (inr (inl e)) = rw e (match_lower_self h)
Meets-match_lower h p (inr (inr (x, pre, domain, e, k))) =
    rw (e, k) (match_lower_subdomain x pre domain)

-- Some pattern of the list is met.
abbrev pub AnyMet : List ℕ → List (List ℕ) → Type 0
AnyMet h [] = ⊥
AnyMet h (p ∷ ps) = Meets (lower h) (lower p) ⊎ AnyMet h ps

any-AnyMet :
    (h : List ℕ) (ps : List (List ℕ))
    → (any (λ pattern. match_host h pattern) ps ≡ true) ↔ AnyMet h ps
unfolding match_host
any-AnyMet h [] = (λ e. cc, λ e. absurd e)
any-AnyMet h (p ∷ ps) = (
  λ e. elim (Bool-cases (match_lower (lower h) (lower p))) [
    | inl m ↦ inl (match_lower-Meets (lower h) (lower p) m)
    | inr m ↦ inr ((any-AnyMet h ps).0 (rw m at e))
  ],
  λ met. elim met [
    | inl m ↦ rw (Meets-match_lower (lower h) (lower p) m) refl
    | inr m ↦ ground (arith, (any-AnyMet h ps).1 m)
  ],
)

-- The guards, whatever the test of private hosts says.
guarded_iff :
    (b : Bool) (h : List ℕ) (ps : List (List ℕ))
    → ((if b
          then false
          else if length ps == 0
          then false
          else any (λ pattern. match_host h pattern) ps)
        ≡ true)
      ↔ ((b ≡ false) × AnyMet h ps)
guarded_iff true h ps = (λ e. cc, λ (e, met). cc)
guarded_iff false h [] = (λ e. absurd (ground (arith, e)), λ (e, met). absurd met)
guarded_iff false h (p ∷ ps) = (
  λ e. (refl, (any-AnyMet h (p ∷ ps)).0 (ground (arith, e))),
  λ (e, met). ground (arith, (any-AnyMet h (p ∷ ps)).1 met),
)

-- A host is allowed exactly when it is not private and meets a pattern of the list, in lower case: the star
-- stands for every host, `*.d` for the names that end in `.d` with something before it, and any other
-- pattern for itself. So an empty list allows nothing, and no list allows a private host.
pub is_host_allowed_iff :
    (hostname : List ℕ) (allowed_hosts : List (List ℕ))
    → (is_host_allowed hostname allowed_hosts ≡ true)
      ↔ ((is_private_host hostname ≡ false) × AnyMet hostname allowed_hosts)
unfolding is_host_allowed
is_host_allowed_iff h ps = guarded_iff (is_private_host h) h ps
