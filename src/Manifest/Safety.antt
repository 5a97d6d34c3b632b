-- ===== src/Manifest/Safety.antt =====
-- Ids and versions as names of directories.
use weaveplatform_agent_core.Base.{
  ℕ, String, Bool, true, false, not, ◌&&◌, none, some, List, [], ◌∷◌, ◌==◌, ◌===◌, all, codes, ◌≡◌,
  ◌≢◌, refl, ap, arith, eq_iff, Bool-cases, inl, inr,
}
use weaveplatform_agent_core.Manifest.{
  Manifest, ChannelManifest, ChannelModule, validate, check_channel, check_modules, module_of,
}
use weaveplatform_agent_core.Manifest.Pattern.{
  id_matches, version_matches, is_digit, id_byte, tag_byte, tag_matches, digits_then, number_then,
  dot_then,
}

-- No separator of either kind and no NUL.
abbrev pub path_byte : ℕ → Bool
path_byte c = not (c == b'/') && (not (c == 92) && not (c == 0))

-- A text that names one entry of a directory, and neither the directory nor its parent.
abbrev pub IsComponent : List ℕ → Type 0
IsComponent [] = ⊥
IsComponent (c ∷ s) = (c ≢ b'.') × (all path_byte (c ∷ s) ≡ true)

abbrev pub dotless : ℕ → Bool
dotless c = not (c == b'.')

pub all_mono :
    (p q : ℕ → Bool)
    → ((c : ℕ) → p c ≡ true → q c ≡ true)
    → (s : List ℕ) → all p s ≡ true
    → all q s ≡ true
all_mono p q imp [] h = refl
all_mono p q imp (c ∷ s) h = ground (arith, imp c, all_mono p q imp s)

id_path : (c : ℕ) → id_byte c ≡ true → path_byte c ≡ true
id_path c h = ground arith

id_dotless : (c : ℕ) → id_byte c ≡ true → dotless c ≡ true
id_dotless c h = ground arith

tag_path : (c : ℕ) → tag_byte c ≡ true → path_byte c ≡ true
tag_path c h = ground arith

pub id_matches-IsComponent : (s : List ℕ) → id_matches s ≡ true → IsComponent s
unfolding id_matches
id_matches-IsComponent [] h = cc
id_matches-IsComponent (c ∷ s) h = ground (arith, all_mono id_byte path_byte id_path s)

pub id_matches-dotless : (s : List ℕ) → id_matches s ≡ true → all dotless s ≡ true
unfolding id_matches
id_matches-dotless [] h = cc
id_matches-dotless (c ∷ s) h = ground (arith, all_mono id_byte dotless id_dotless s)

-- The bytes of the version pattern, one combinator at a time.
Safe : (List ℕ → Bool) → Type 0
Safe next = (s : List ℕ) → next s ≡ true → all path_byte s ≡ true

tag-Safe : Safe tag_matches
unfolding Safe tag_matches
tag-Safe [] h = refl
tag-Safe (c ∷ []) h = cc
tag-Safe (c ∷ d ∷ s) h = ground (arith, all_mono tag_byte path_byte tag_path s, tag_path d)

digits-Safe : (next : List ℕ → Bool) → Safe next → Safe (digits_then next)
unfolding Safe digits_then
digits-Safe next k [] h = refl
digits-Safe next k (c ∷ s) h = ground (arith, digits-Safe next k s, k (c ∷ s))

number-Safe : (next : List ℕ → Bool) → Safe next → Safe (number_then next)
unfolding Safe number_then
number-Safe next k [] h = refl
number-Safe next k (c ∷ s) h = ground (arith, digits-Safe next k s)

dot-Safe : (next : List ℕ → Bool) → Safe next → Safe (dot_then next)
unfolding Safe dot_then
dot-Safe next k [] h = refl
dot-Safe next k (c ∷ s) h = ground (arith, k s)

version-Safe : Safe version_matches
unfolding version_matches
version-Safe = number-Safe _ (dot-Safe _ (number-Safe _ (dot-Safe _ (number-Safe _ tag-Safe))))

version_starts : (c : ℕ) (s : List ℕ) → version_matches (c ∷ s) ≡ true → is_digit c ≡ true
unfolding version_matches
version_starts c s h = ground arith

pub version_matches-IsComponent : (s : List ℕ) → version_matches s ≡ true → IsComponent s
unfolding Safe
version_matches-IsComponent [] h = unfold version_matches in cc
version_matches-IsComponent (c ∷ s) h =
    (ground (arith, version_starts c s h), version-Safe (c ∷ s) h)

pub valid_fields :
    (m : Manifest)
    → validate m ≡ none
    → (id_matches (codes m.id) ≡ true) × (version_matches (codes m.version) ≡ true)
unfolding validate
valid_fields m h = ground arith

-- A manifest that `validate` accepts has an id and a version that are each one path component, so
-- that `staging/<id>/<version>` and `modules/<id>/versions/<version>` stay inside their roots.
pub validate-IsComponent :
    (m : Manifest) → validate m ≡ none → IsComponent (codes m.id) × IsComponent (codes m.version)
validate-IsComponent m h =
    let f = valid_fields m h in
    (id_matches-IsComponent (codes m.id) f.0, version_matches-IsComponent (codes m.version) f.1)

-- No id that `validate` accepts is the control module or the name of one of core's dotted store
-- namespaces: a text that holds a dot is the id of no valid manifest.
pub validate_id_outside_core :
    (m : Manifest) (s : String)
    → validate m ≡ none
    → all dotless (codes s) ≡ false
    → (m.id ≢ s) × (m.id ≢ "hvchannel")
validate_id_outside_core m s h dotted = (
  λ e. cc (ap (λ t. all dotless (codes t)) e, id_matches-dotless (codes m.id) (valid_fields m h).0),
  λ e. unfold validate in ground (arith, eq_iff m.id "hvchannel"),
)

abbrev IsPlaced : ChannelModule → Type 0
IsPlaced m = IsComponent (codes m.id) × IsComponent (codes m.version)

check_modules-IsPlaced :
    (ms : List ChannelModule) (id : String) {m : ChannelModule}
    → check_modules ms ≡ none
    → module_of id ms ≡ some m
    → IsPlaced m
unfolding check_modules module_of
check_modules-IsPlaced [] id h e = cc
check_modules-IsPlaced (x ∷ ms) id {m} h e = elim (Bool-cases (x.id === id)) [
  | inl same ↦
      ground
        (arith, id_matches-IsComponent (codes x.id), version_matches-IsComponent (codes x.version))
  | inr other ↦ check_modules-IsPlaced ms id {m = m} (ground arith) (ground arith)
]

-- Every entry that a lookup finds in a channel manifest that passes its checks has an id and a
-- version that are each one path component.
pub check_channel-IsComponent :
    (c : ChannelManifest) (id : String) {m : ChannelModule}
    → check_channel c ≡ none
    → module_of id c.modules ≡ some m
    → IsComponent (codes m.id) × IsComponent (codes m.version)
unfolding check_channel
check_channel-IsComponent c id {m} h e =
    check_modules-IsPlaced c.modules id {m = m} (ground arith) e
