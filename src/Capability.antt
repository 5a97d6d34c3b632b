-- ===== src/Capability.antt =====
-- internal/capability: the probed inventory and the gate on it (internal/capability/probe.go).
use weaveplatform_agent_core.Base.{
  String, none, some, List, [], ◌∷◌, Dict, lookup, ◌≡◌, ◌≢◌, refl, arith, Option-cases, inl, inr,
}

-- name → attributes
abbrev pub CapabilitySet : Type 0
CapabilitySet = Dict (Dict String)

-- `Set.Has`: the names that are missing, in the order asked.
unfoldable pub has : CapabilitySet → List String → List String
has set [] = []
has set (n ∷ names) =
    let rest = has set names in elim (lookup n set) [ some _ ↦ rest | none ↦ n ∷ rest ]

-- Every named capability is in the set.
abbrev pub Covers : CapabilitySet → List String → Type 0
Covers set [] = Unit
Covers set (n ∷ names) = (lookup n set ≢ none) × Covers set names

pub has-Covers : (set : CapabilitySet) (names : List String) → has set names ≡ [] → Covers set names
unfolding has
has-Covers set [] h = tt
has-Covers set (n ∷ names) h = elim (Option-cases (lookup n set)) [
  | inl absent ↦ ground arith
  | inr (_, present) ↦ (ground arith, has-Covers set names (ground arith))
]

pub Covers-has : (set : CapabilitySet) (names : List String) → Covers set names → has set names ≡ []
unfolding has
Covers-has set [] h = refl
Covers-has set (n ∷ names) h = ground (arith, Covers-has set names h.1)
