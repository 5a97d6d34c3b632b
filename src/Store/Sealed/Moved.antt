-- ===== src/Store/Sealed/Moved.antt =====
-- `seal` and `open` of internal/store/store.go, and a ciphertext that is moved in the database file.
use weaveplatform_agent_core.Base.{
  ℕ, Bool, true, not, none, some, [], ◌∷◌, all, drop, if◌then◌else◌, subst, some-injective, ◌==◌,
  eq_bytes_iff, ◌≡◌, refl, sym, ap, ◌∙◌, subst₂, if-true, if-false, Bool-cases, arith, Option-cases,
  inl, inr,
}
use weaveplatform_agent_core.Store.{Bytes}
use weaveplatform_agent_core.Store.Contract.{same_slot}
use weaveplatform_agent_core.Store.Sealed.{Aead, aad, filled, seal, open_sealed}
use weaveplatform_agent_core.Store.Sealed.Laws.{AeadLaws, length-filled, open_sealed-split}

-- No NUL in a module's id.
abbrev pub has_no_nul : Bytes → Bool
has_no_nul m = all (λ c. not (c == 0)) m

-- The first NUL ends the module's id.
pub aad-injective :
    (m m' k k' : Bytes)
    → has_no_nul m ≡ true
    → has_no_nul m' ≡ true
    → aad m k ≡ aad m' k'
    → (m ≡ m') × (k ≡ k')
aad-injective [] [] k k' h h' e = (refl, ap (drop 1) e)
aad-injective [] (y ∷ m') k k' h h' e = ground arith
aad-injective (x ∷ m) [] k k' h h' e = ground arith
aad-injective (x ∷ m) (y ∷ m') k k' h h' e =
    let both = aad-injective m m' k k' (ground arith) (ground arith) (ap (drop 1) e) in
    (ground arith, both.1)

-- What opens under the additional data of a slot.
opens_at :
    (cipher : Aead)
    → AeadLaws cipher
    → (nonce m k v m' k' : Bytes) → has_no_nul m ≡ true
    → has_no_nul m' ≡ true
    → cipher.open_with nonce (cipher.seal_with nonce v (aad m k)) (aad m' k')
      ≡ (if same_slot m k m' k' then some v else none)
opens_at cipher a nonce m k v m' k' h h' = elim (Bool-cases (same_slot m k m' k')) [
  | inl same ↦
      subst₂ (λ x y. cipher.open_with nonce (cipher.seal_with nonce v (aad m k)) (aad x y) ≡ some v)
        ((eq_bytes_iff m m').0 (ground arith)) ((eq_bytes_iff k k').0 (ground arith))
        (a.opens nonce v (aad m k))
      ∙ sym (if-true _ _ same)
  | inr other ↦
      elim (Option-cases
        (cipher.open_with nonce (cipher.seal_with nonce v (aad m k)) (aad m' k'))) [
          | inl e ↦ e ∙ sym (if-false _ _ other)
          | inr (w, e) ↦
              let both = aad-injective m m' k k' h h' (a.binds nonce v (aad m k) (aad m' k') w e) in
              ground (arith, (eq_bytes_iff m m').1 both.0, (eq_bytes_iff k k').1 both.1)
        ]
]

-- Under the AEAD's laws, what `seal` writes for a module and a key opens there, to the value that
-- was sealed, whatever the nonce was; under any other module or key it does not open, where neither
-- module's id has a NUL in it.
pub open_sealed-seal :
    (cipher : Aead)
    → AeadLaws cipher
    → (random : ℕ → ℕ) (m k v m' k' sealed : Bytes) → has_no_nul m ≡ true
    → has_no_nul m' ≡ true
    → seal cipher (some random) m k v ≡ some sealed
    → open_sealed cipher m' k' sealed ≡ (if same_slot m k m' k' then some v else none)
unfolding seal
open_sealed-seal cipher a random m k v m' k' sealed h h' e =
    let nonce = filled cipher.nonce_size random in
    subst (λ s. open_sealed cipher m' k' s ≡ (if same_slot m k m' k' then some v else none))
      (some-injective _ _ e)
      (open_sealed-split cipher nonce _ m' k' (length-filled cipher.nonce_size random)
        ∙ opens_at cipher a nonce m k v m' k' h h')
