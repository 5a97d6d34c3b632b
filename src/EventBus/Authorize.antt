-- ===== src/EventBus/Authorize.antt =====
-- What a subscription that was let through can see.
use weaveplatform_agent_core.Base.{
  ℕ, true, Option, none, some, List, [], ◌∷◌, all, eq_bytes, eq_of_eq_bytes, has_prefix, ◌≡◌, ◌≢◌,
  refl, sym, subst, ◌⊎◌, inl, inr, arith, Bool-cases, All,
}
use weaveplatform_agent_core.EventBus.{
  Bytes, Bus, cut_star, covers, matches, topic_allowed, subscribe, subscribe_checked,
}

-- The glob's prefix does not itself end in a star.
abbrev pub IsPlain : Bytes → Type 0
IsPlain a = (pre : Bytes) → cut_star a ≡ some pre → cut_star pre ≡ none

-- The star at the end, or the star of the tail.
star-cons :
    (c : ℕ) (q g : Bytes)
    → cut_star (c ∷ q) ≡ some g
    → ((q ≡ []) × (c ≡ 42)) ⊎ ((h : Bytes) × (cut_star q ≡ some h) × (g ≡ c ∷ h))
unfolding cut_star
star-cons c q g e = go (cut_star q) refl
  where
    go :
        (o : Option Bytes)
        → cut_star q ≡ o
        → ((q ≡ []) × (c ≡ 42)) ⊎ ((h : Bytes) × (cut_star q ≡ some h) × (g ≡ c ∷ h))
    go none o = inl (ground arith)
    go (some h) o = inr (h, o, ground arith)

plain-tail :
    (d : ℕ) (pre : Bytes) → cut_star (d ∷ pre) ≡ none → (cut_star pre ≡ none) × (pre ≡ [] → d ≢ 42)
unfolding cut_star
plain-tail d pre n = ground arith

-- A prefix that a glob has, and that does not end in a star, is a prefix of all that the glob matches.
prefix_of_glob :
    (q pre t g : Bytes)
    → cut_star q ≡ some g
    → has_prefix q pre ≡ true
    → cut_star pre ≡ none
    → has_prefix t g ≡ true
    → has_prefix t pre ≡ true
unfolding has_prefix
prefix_of_glob q [] t g e h n k = refl
prefix_of_glob [] (d ∷ pre) t g e h n k = ground arith
prefix_of_glob (c ∷ q) (d ∷ pre) t g e h n k = elim (star-cons c q g e) [
  | inl (nil, star) ↦ absurd (
      (plain-tail d pre n).1
        (nil_prefix pre (subst (λ x. has_prefix x pre ≡ true) nil (ground arith))) (ground arith))
  | inr (g', e', same) ↦
      longer t g' (subst (λ x. has_prefix t x ≡ true) same k)
        (λ t' k'. prefix_of_glob q pre t' g' e' (ground arith) (plain-tail d pre n).0 k')
]
  where
    nil_prefix : (pre : Bytes) → has_prefix [] pre ≡ true → pre ≡ []
    nil_prefix [] h = refl
    nil_prefix (_ ∷ _) h = ground arith

    longer :
        (t f : Bytes)
        → has_prefix t (c ∷ f) ≡ true
        → ((t' : Bytes) → has_prefix t' f ≡ true → has_prefix t' pre ≡ true)
        → has_prefix t (d ∷ pre) ≡ true
    longer [] f p rest = ground arith
    longer (x ∷ t') f p rest = ground (arith, rest t' (ground arith))

covers_cases :
    (a t : Bytes)
    → covers a t ≡ true
    → (a ≡ t) ⊎ ((pre : Bytes) × (cut_star a ≡ some pre) × (has_prefix t pre ≡ true))
unfolding covers
covers_cases a t h = go (cut_star a) refl
  where
    go :
        (o : Option Bytes)
        → cut_star a ≡ o
        → (a ≡ t) ⊎ ((pre : Bytes) × (cut_star a ≡ some pre) × (has_prefix t pre ≡ true))
    go none e = inl (eq_of_eq_bytes a t (ground arith))
    go (some pre) e = elim (Bool-cases (eq_bytes a t)) [
      | inl same ↦ inl (eq_of_eq_bytes a t same)
      | inr other ↦ inr (pre, e, ground arith)
    ]

covers_glob :
    (a t pre : Bytes) → cut_star a ≡ some pre → has_prefix t pre ≡ true → covers a t ≡ true
unfolding covers
covers_glob a t pre e h = ground arith

-- One declared entry and one request that it covers: it covers all that the request matches.
covers_trans :
    (a r t : Bytes) → IsPlain a → covers a r ≡ true → covers r t ≡ true → covers a t ≡ true
covers_trans a r t plain allowed seen = elim (covers_cases a r allowed) [
  | inl same ↦ subst (λ x. covers x t ≡ true) (sym same) seen
  | inr (pre, c, h) ↦ covers_glob a t pre c (elim (covers_cases r t seen) [
    | inl same ↦ subst (λ x. has_prefix x pre ≡ true) same h
    | inr (g, e, k) ↦ prefix_of_glob r pre t g e h (plain pre c) k
  ])
]

any_trans :
    (allow : List Bytes) (r t : Bytes)
    → All IsPlain allow
    → topic_allowed r allow ≡ true
    → covers r t ≡ true
    → matches allow t ≡ true
unfolding topic_allowed matches
any_trans [] r t plain allowed seen = allowed
any_trans (a ∷ more) r t plain allowed seen = elim (Bool-cases (covers a r)) [
  | inl this ↦ ground (arith, covers_trans a r t plain.0 this seen)
  | inr other ↦ ground (arith, any_trans more r t plain.1 (ground arith) seen)
]

all_trans :
    (allow topics : List Bytes) (t : Bytes)
    → All IsPlain allow
    → all (λ r. topic_allowed r allow) topics ≡ true
    → matches topics t ≡ true
    → matches allow t ≡ true
unfolding matches
all_trans allow [] t plain allowed seen = absurd (ground arith)
all_trans allow (r ∷ rs) t plain allowed seen = elim (Bool-cases (covers r t)) [
  | inl this ↦ any_trans allow r t plain (ground arith) this
  | inr other ↦ all_trans allow rs t plain (ground arith) (ground arith)
]

-- A subscription that is let through sees no more than was declared: whatever topic its patterns match
-- is matched by the declared list too, provided that no declared glob ends in two stars.
pub subscribe_checked_covered :
    (b b' : Bus) (allow topics : List Bytes) (id : ℕ) (t : Bytes)
    → All IsPlain allow
    → subscribe_checked b allow id topics ≡ some b'
    → matches topics t ≡ true
    → (b' ≡ subscribe b id topics) × (matches allow t ≡ true)
unfolding subscribe_checked
subscribe_checked_covered b b' allow topics id t plain h seen =
    (ground arith, all_trans allow topics t plain (ground arith) seen)
