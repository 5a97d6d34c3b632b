-- ===== src/Policy.antt =====
-- internal/policy/policy.go: the policy document that core holds, and the watchers that it wakes.
-- A watcher's channel holds at most one wake-up, so a watcher is modelled by whether one is pending.
-- Go's maps are iterated in no fixed order; only the log shows it. Fetching and the JSON of the cache
-- are outside: `apply` says which document is to be cached, and `load` takes the one that was read.
pub mod Delivery
mod Tests
use weaveplatform_agent_core.Base.{
  ℕ, String, Bool, true, false, not, ◌||◌, ◌&&◌, Option, none, some, List, [], ◌∷◌, ◌++◌, map, Dict,
  lookup, insert, ◌==◌, ◌===◌, eq_bytes, if◌then◌else◌,
}

abbrev pub Bytes : Type 0
Bytes = List ℕ

pub record Document : Type 0 where
  pub revision : ℕ
  pub modules : Dict Bytes

pub record Watcher : Type 0 where
  pub id : ℕ
  pub pending : Bool

pub record Manager : Type 0 where
  pub revision : ℕ
  pub docs : Dict Bytes
  pub watchers : Dict (List Watcher)

-- m[id] of a map of byte slices: a missing key reads as the empty slice.
unfoldable pub text_at : String → Dict Bytes → Bytes
text_at id m = elim (lookup id m) [ none ↦ [] | some b ↦ b ]

-- The first loop of `apply`: the new payloads, and the ids that changed.
unfoldable pub merge : Dict Bytes → Dict Bytes → Dict Bytes × List String
unfolding text_at
merge [] docs = (docs, [])
merge ((id, raw) ∷ ms) docs =
    let changed = merge ms (insert id raw docs) in
    let rest = merge ms docs in
    if not (eq_bytes (text_at id docs) raw) then (changed.0, id ∷ changed.1) else rest

-- The second loop: the payloads that the document no longer has are deleted.
unfoldable pub drop_unseen : Dict Bytes → Dict Bytes → Dict Bytes × List String
drop_unseen seen [] = ([], [])
drop_unseen seen ((id, raw) ∷ docs) =
    let (kept, gone) = drop_unseen seen docs in
    elim (lookup id seen) [ some _ ↦ ((id, raw) ∷ kept, gone) | none ↦ (kept, id ∷ gone) ]

unfoldable pub among : String → List String → Bool
among id [] = false
among id (j ∷ js) = (j === id) || among id js

abbrev pub ring : Watcher → Watcher
ring w = record w { pending = true }

-- A wake-up for every watcher of a changed module; a pending one is not doubled.
unfoldable pub wake : List String → Dict (List Watcher) → Dict (List Watcher)
unfolding among
wake changed [] = []
wake changed ((id, ws) ∷ rest) =
    (id, if among id changed then map ring ws else ws) ∷ wake changed rest

-- `apply`, with the document that is to be cached: `cache` says that this is asked for and that the
-- manager has a cache.
unfoldable pub apply : Manager → Document → Bool → Manager × Option Document
unfolding merge drop_unseen wake
apply m doc cache =
    if doc.revision == m.revision
    then (m, none)
    else let (merged, changed) = merge doc.modules m.docs in
      let (kept, gone) = drop_unseen doc.modules merged in
      (
        record {
          revision = doc.revision;
          docs = kept;
          watchers = wake (changed ++ gone) m.watchers;
        },
        if cache then some doc else none,
      )

-- `Load`, with what the cache gives: `none` for no document, an error, or one that does not decode.
unfoldable pub load : Manager → Option Document → Manager
load m none = m
load m (some doc) = (apply m doc false).0

-- `Get`
unfoldable pub get : Manager → String → ℕ × Bytes
unfolding text_at
get m id = (m.revision, text_at id m.docs)

-- `Watch`: the watcher `w` is registered.
unfoldable pub watch : Manager → String → ℕ → Manager
watch m id w = record m {
  watchers =
      insert id
        ((elim (lookup id m.watchers) [ none ↦ [] | some ws ↦ ws ])
          ++ (record { id = w; pending = false } ∷ []))
        m.watchers;
}

-- The end of a watch: the first entry of the watcher goes.
unfoldable pub without : ℕ → List Watcher → List Watcher
without w [] = []
without w (v ∷ vs) = let rest = without w vs in if v.id == w then vs else v ∷ rest

unfoldable pub unwatch : Manager → String → ℕ → Manager
unfolding without
unwatch m id w = elim (lookup id m.watchers) [
  | none ↦ m
  | some ws ↦ record m { watchers = insert id (without w ws) m.watchers }
]
