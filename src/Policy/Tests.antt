-- ===== src/Policy/Tests.antt =====
-- Documents delivered to concrete managers.
use weaveplatform_agent_core.Base.{
  true, false, [], ◌∷◌, lookup, insert, eq_bytes, ◌≡◌, refl, arith, eq_iff,
}
use weaveplatform_agent_core.Policy.{
  Document, Manager, text_at, merge, drop_unseen, among, wake, apply, get,
}
use weaveplatform_agent_core.Policy.Delivery.{IsFilled, same_payload, heard, apply_delivers}

abbrev manager : Manager
manager = record {
  revision = 4;
  docs = ("a", 1 ∷ []) ∷ ("b", 2 ∷ []) ∷ [];
  watchers =
      ("a", record { id = 0; pending = false } ∷ [])
      ∷ ("b", record { id = 1; pending = false } ∷ [])
      ∷ [];
}

abbrev reset : Document
reset = record { revision = 2; modules = ("b", 3 ∷ []) ∷ [] }

-- A regressed revision is delivered; an equal one is not, whatever it holds.
delivered :
    (get (apply manager reset true).0 "b" ≡ (2, 3 ∷ []))
    × (get (apply manager (record reset { revision = 4 }) true).0 "b" ≡ (4, 2 ∷ []))
unfolding apply merge drop_unseen wake among get text_at lookup insert eq_bytes
delivered = (refl, refl)

manager-IsFilled : IsFilled manager.docs
unfolding lookup
manager-IsFilled = record { at = λ j b e x. ground (arith, eq_iff "a" j, eq_iff "b" j) }

apply_delivers_example :
    ((apply manager reset true).0.revision ≡ 2)
    × (lookup "b" (apply manager reset true).0.docs ≡ lookup "b" reset.modules)
    × (lookup "b" (apply manager reset true).0.watchers
        ≡ heard
            (same_payload (lookup "b" manager.docs) (lookup "b" reset.modules))
            (lookup "b" manager.watchers))
apply_delivers_example =
    apply_delivers manager reset true "b" (λ e. ground arith)
      (unfold lookup in refl, λ e. ground arith, tt) manager-IsFilled
