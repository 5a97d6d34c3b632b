-- ===== src/Policy/Delivery.antt =====
-- The loops of `apply` in internal/policy/policy.go, at one module.
use weaveplatform_agent_core.Base.{
  String, Bool, true, false, not, ◌||◌, Option, none, some, List, [], ◌∷◌, ◌++◌, map, Dict, lookup,
  insert, lookup-insert, ◌==◌, ◌===◌, eq_bytes, eq_bytes_iff, if◌then◌else◌, if-false, ◌≡◌, ◌≢◌,
  refl, sym, ap, ◌∙◌, subst, arith, eq_iff, Bool-cases, inl, inr,
}
use weaveplatform_agent_core.Policy.{
  Bytes, Document, Watcher, Manager, text_at, merge, drop_unseen, among, ring, wake, apply,
}

-- A map: no key occurs twice, and no payload is empty.
abbrev pub IsMap : Dict Bytes → Type 0
IsMap [] = Unit
IsMap ((k, b) ∷ m) = (lookup k m ≡ none) × (b ≢ []) × IsMap m

-- No stored payload is empty, as no JSON text is.
pub record IsFilled (docs : Dict Bytes) : Type 0 where
  pub at : (j : String) (b : Bytes) → lookup j docs ≡ some b → b ≢ []

abbrev pub same_payload : Option Bytes → Option Bytes → Bool
same_payload none none = true
same_payload none (some b) = false
same_payload (some a) none = false
same_payload (some a) (some b) = eq_bytes a b

held :
    (id : String) (raw : Bytes) (docs : Dict Bytes)
    → raw ≢ []
    → eq_bytes (text_at id docs) raw ≡ true
    → lookup id docs ≡ some raw
unfolding text_at
held id raw docs full same = go (lookup id docs) refl
  where
    go : (o : Option Bytes) → lookup id docs ≡ o → lookup id docs ≡ some raw
    go none e = absurd (full (sym ((eq_bytes_iff [] raw).0 (ground arith))))
    go (some b) e = e ∙ ap some ((eq_bytes_iff b raw).0 (ground arith))

insert-IsFilled :
    (id : String) (raw : Bytes) (docs : Dict Bytes)
    → raw ≢ []
    → IsFilled docs
    → IsFilled (insert id raw docs)
insert-IsFilled id raw docs full f = record {
  at = λ j b e. elim (Bool-cases (id === j)) [
    | inl same ↦ λ x. full (ground (arith, lookup-insert id j raw docs))
    | inr other ↦ f.at j b (ground (arith, lookup-insert id j raw docs))
  ];
}

-- The first loop, at one id: the document's payload wins.
lookup-merge :
    (ms docs : Dict Bytes) (j : String)
    → IsMap ms
    → IsFilled docs
    → lookup j (merge ms docs).0 ≡ (elim (lookup j ms) [ none ↦ lookup j docs | some b ↦ some b ])
unfolding merge lookup
lookup-merge [] docs j u f = refl
lookup-merge ((id, raw) ∷ ms) docs j u f = elim (Bool-cases (eq_bytes (text_at id docs) raw)) [
  | inl same ↦ ground (arith, eq_iff id j, lookup-merge ms docs j u.2 f, held id raw docs u.1 same)
  | inr differs ↦ ground (
    arith,
    eq_iff id j,
    lookup-merge ms (insert id raw docs) j u.2 (insert-IsFilled id raw docs u.1 f),
    lookup-insert id j raw docs,
  )
]

-- A payload that differs from what is read, and is not empty, differs from what is stored.
differs_payload :
    (id : String) (raw : Bytes) (docs : Dict Bytes)
    → eq_bytes (text_at id docs) raw ≡ false
    → same_payload (lookup id docs) (some raw) ≡ false
unfolding text_at
differs_payload id raw docs d = go (lookup id docs) refl
  where
    go : (o : Option Bytes) → lookup id docs ≡ o → same_payload o (some raw) ≡ false
    go none e = refl
    go (some b) e = ground arith

-- And the id is reported exactly if its payload differs.
among-merge :
    (ms docs : Dict Bytes) (j : String)
    → IsMap ms
    → IsFilled docs
    → among j (merge ms docs).1
      ≡ (elim (lookup j ms) [ none ↦ false | some b ↦ not (same_payload (lookup j docs) (some b)) ])
unfolding merge lookup among
among-merge [] docs j u f = refl
among-merge ((id, raw) ∷ ms) docs j u f = elim (Bool-cases (eq_bytes (text_at id docs) raw)) [
  | inl same ↦ ground (
    arith,
    eq_iff id j,
    among-merge ms docs j u.2 f,
    held id raw docs u.1 same,
    eq_bytes_iff raw raw,
  )
  | inr differs ↦ ground (
    arith,
    eq_iff id j,
    among-merge ms (insert id raw docs) j u.2 (insert-IsFilled id raw docs u.1 f),
    lookup-insert id j raw docs,
    differs_payload id raw docs differs,
  )
]

-- The second loop keeps what the document has.
drop_lookup :
    (seen docs : Dict Bytes) (j : String)
    → lookup j (drop_unseen seen docs).0
      ≡ (elim (lookup j seen) [ none ↦ none | some _ ↦ lookup j docs ])
unfolding drop_unseen lookup
drop_lookup seen [] j = ground arith
drop_lookup seen ((id, raw) ∷ docs) j = ground (arith, eq_iff id j, drop_lookup seen docs j)

drop_among :
    (seen docs : Dict Bytes) (j : String)
    → among j (drop_unseen seen docs).1
      ≡ (elim (lookup j seen) [ none ↦ not (same_payload (lookup j docs) none) | some _ ↦ false ])
unfolding drop_unseen lookup among
drop_among seen [] j = ground arith
drop_among seen ((id, raw) ∷ docs) j = ground (arith, eq_iff id j, drop_among seen docs j)

among-append : (j : String) (xs ys : List String) → among j (xs ++ ys) ≡ (among j xs || among j ys)
unfolding among
among-append j [] ys = refl
among-append j (x ∷ xs) ys = ground (arith, among-append j xs ys)

lookup-wake :
    (changed : List String) (m : Dict (List Watcher)) (j : String)
    → lookup j (wake changed m) ≡ (elim (lookup j m) [
      | none ↦ none
      | some ws ↦ some (if among j changed then map ring ws else ws)
    ])
unfolding wake lookup
lookup-wake changed [] j = refl
lookup-wake changed ((id, ws) ∷ m) j = ground (arith, eq_iff id j, lookup-wake changed m j)

-- The watchers of one module, after a change or none.
abbrev pub heard : Bool → Option (List Watcher) → Option (List Watcher)
heard same none = none
heard same (some ws) = some (if same then ws else map ring ws)

all_among :
    (ms docs : Dict Bytes) (j : String)
    → IsMap ms
    → IsFilled docs
    → among j ((merge ms docs).1 ++ (drop_unseen ms (merge ms docs).0).1)
      ≡ not (same_payload (lookup j docs) (lookup j ms))
all_among ms docs j u f =
    among-append j (merge ms docs).1 (drop_unseen ms (merge ms docs).0).1
    ∙ ground (
      arith,
      among-merge ms docs j u f,
      drop_among ms (merge ms docs).0 j,
      lookup-merge ms docs j u f,
    )

-- A document whose revision is new replaces everything that was held. For every module: afterwards its
-- payload is the document's, or absent with it, at the document's revision; and its watchers are all
-- woken if that payload differs from the one held before, and are otherwise left as they were. Payloads
-- are not empty, as no JSON text is.
pub apply_delivers :
    (m : Manager) (doc : Document) (cache : Bool) (j : String)
    → doc.revision ≢ m.revision
    → IsMap doc.modules
    → IsFilled m.docs
    → ((apply m doc cache).0.revision ≡ doc.revision)
      × (lookup j (apply m doc cache).0.docs ≡ lookup j doc.modules)
      × (lookup j (apply m doc cache).0.watchers
          ≡ heard (same_payload (lookup j m.docs) (lookup j doc.modules)) (lookup j m.watchers))
unfolding apply
apply_delivers m doc cache j new u f =
    subst (λ (r : Manager × Option Document). Delivered r.0)
      (sym (if-false {b = doc.revision == m.revision} _ _ (ground arith)))
      (
        refl,
        ground (
          arith,
          drop_lookup doc.modules (merge doc.modules m.docs).0 j,
          lookup-merge doc.modules m.docs j u f,
        ),
        lookup-wake _ m.watchers j ∙ ground (arith, all_among doc.modules m.docs j u f),
      )
  where
    Delivered : Manager → Type 0
    Delivered r =
        (r.revision ≡ doc.revision)
        × (lookup j r.docs ≡ lookup j doc.modules)
        × (lookup j r.watchers
            ≡ heard (same_payload (lookup j m.docs) (lookup j doc.modules)) (lookup j m.watchers))
