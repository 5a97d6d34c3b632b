-- ===== src/Lifecycle/Fetch/Order.antt =====
-- Series of fetches of the channel manifest, and the artifact download.
use weaveplatform_agent_core.Base.{
  ℕ, zero, suc, String, true, false, Option, none, some, List, [], ◌∷◌, ◌++◌, ◌+◌, ◌-◌, ◌≤◌, ◌^◌,
  ltb, ◌==◌, length, take, codes, eq_bytes, eq_of_eq_bytes, All, ◌≡◌, refl, arith, if-both, ap, sym,
  subst, ◌∙◌,
}
use weaveplatform_agent_core.Manifest.{ChannelManifest, expired}
use weaveplatform_agent_core.Verify.{Bytes, Crypto, Bundle, Result, ok, err, verify}
use weaveplatform_agent_core.Lifecycle.Fetch.{
  Fetch, Fetched, got, failed, bundle_of, or_zero, last_sequence, collected, check_sequence, accept,
  fetched, fetch_channel, fetch_all, saved, limit_read, download,
}

-- Each element is at least the one before it, and the first at least `lo`.
abbrev pub Ascends : ℕ → List ℕ → Type 0
Ascends lo [] = Unit
Ascends lo (n ∷ ns) = (lo ≤ n) × Ascends n ns

-- The store answers and takes the write.
abbrev pub StoreWorks : Fetch → Type 0
StoreWorks f = (f.read_fails ≡ false) × (f.put_fails ≡ false)

-- A fetch that is accepted is stored, and is not below what was stored; another one stores nothing.
abbrev Advances : Option ℕ → Fetched × Option ℕ → Type 0
Advances stored (got ch, after) = (or_zero stored ≤ ch.sequence) × (or_zero after ≡ ch.sequence)
Advances stored (failed e, after) = after ≡ stored

check-Advances :
    (f : Fetch) (stored : Option ℕ) (ch : ChannelManifest)
    → StoreWorks f
    → Advances stored (check_sequence f stored ch)
unfolding check_sequence
check-Advances f stored ch works =
    if-both (Advances stored) (ltb ch.sequence (last_sequence f stored)) _ _ (λ _. refl)
      (λ high.
        if-both (Advances stored) (ltb (last_sequence f stored) ch.sequence) _ _
          (λ higher. (ground arith, ground arith)) (λ same. (ground arith, ground arith)))

accept-Advances :
    (f : Fetch) (stored : Option ℕ) (r : Result ChannelManifest)
    → StoreWorks f
    → Advances stored (accept true f stored r)
unfolding accept
accept-Advances f stored (err e) works = refl
accept-Advances f stored (ok ch) works =
    if-both (Advances stored) (expired ch f.now) _ _ (λ _. refl)
      (λ _. check-Advances f stored ch works)

fetch-Advances :
    (c : Crypto) (root : Bytes) (f : Fetch) (stored : Option ℕ)
    → StoreWorks f
    → Advances stored (fetch_channel c root true f stored)
unfolding fetch_channel
fetch-Advances c root f stored works =
    go (bundle_of f.manifest f.manifest_sig f.signing_key f.signing_key_sig)
  where
    go : (b : Option Bundle) → Advances stored (fetched c root true f stored b)
    go none = refl
    go (some b) = accept-Advances f stored (verify c root b) works

All-Ascends :
    (c : Crypto) (root : Bytes) (fs : List Fetch) (stored : Option ℕ) (lo : ℕ)
    → All StoreWorks fs
    → or_zero stored ≡ lo
    → Ascends lo (fetch_all c root fs stored).0
unfolding fetch_all
All-Ascends c root [] stored lo works e = tt
All-Ascends c root (f ∷ fs) stored lo works e =
    go (fetch_channel c root true f stored) (fetch-Advances c root f stored works.0)
      (λ after lo'. All-Ascends c root fs after lo' works.1)
  where
    go :
        (r : Fetched × Option ℕ)
        → Advances stored r
        → ((after : Option ℕ) (lo' : ℕ)
            → or_zero after ≡ lo'
            → Ascends lo' (fetch_all c root fs after).0)
        → Ascends lo (collected r.0 (fetch_all c root fs r.1)).0
    go (got ch, after) adv ih = (omega arith, ih after ch.sequence adv.1)
    go (failed _, after) adv ih = ih after lo (ap or_zero adv ∙ e)

-- While the store works, a channel manifest that is accepted is never older than one accepted
-- before: over any series of fetches, from any servers, the accepted sequences ascend from the one
-- that was stored.
pub fetch_all-Ascends :
    (c : Crypto) (root : Bytes) (fs : List Fetch) (stored : Option ℕ)
    → All StoreWorks fs
    → Ascends (or_zero stored) (fetch_all c root fs stored).0
fetch_all-Ascends c root fs stored works = All-Ascends c root fs stored (or_zero stored) works refl

-- The guard fails open: where the store's read fails, every trusted manifest that has not expired is
-- accepted, however far its sequence lies below the one that is stored.
pub fetch_channel_read_failure :
    (c : Crypto) (root : Bytes) (f : Fetch) (stored : Option ℕ) (b : Bundle) (ch : ChannelManifest)
    → bundle_of f.manifest f.manifest_sig f.signing_key f.signing_key_sig ≡ some b
    → verify c root b ≡ ok ch
    → expired ch f.now ≡ false
    → f.read_fails ≡ true
    → (fetch_channel c root true f stored).0 ≡ got ch
unfolding fetch_channel
fetch_channel_read_failure c root f stored b ch bundle trusted fresh fails =
    rw (bundle, trusted) (through fresh)
  where
    through : expired ch f.now ≡ false → (accept true f stored (ok ch)).0 ≡ got ch
    through e = ground arith

take_short : (n : ℕ) (xs : Bytes) → length (take (suc n) xs) ≡ n → take (suc n) xs ≡ xs
take_short n [] e = refl
take_short zero (x ∷ xs) e = absurd (omega arith)
take_short (suc n) (x ∷ xs) e = ap (λ ys. x ∷ ys) (take_short n xs (omega arith))

limit_read_short :
    (size : ℕ) (body : Bytes) → length (limit_read size body) ≡ size → limit_read size body ≡ body
unfolding limit_read
limit_read_short size body e =
    if-both (λ r. length r ≡ size → r ≡ body) (size == 2 ^ 63 - 1) [] (take (size + 1) body)
      (λ big h. absurd (ground arith))
      (λ _. let n : size + 1 ≡ suc size = omega arith in rw n (take_short size body)) e

download_parts :
    (c : Crypto) (body : Bytes) (size : ℕ) (digest : String) (b : Bytes)
    → download c (some body) size digest ≡ saved b
    → let read = limit_read size body in
      (length read ≡ size)
      × (eq_bytes (codes "sha256:" ++ c.sha256_hex read) (codes digest) ≡ true)
      × (read ≡ b)
unfolding download
download_parts c body size digest b h = unfold limit_read in ground arith

-- A download that is saved is the whole response, unshortened: it has the size and the SHA-256
-- digest that the manifest names.
pub download_saved :
    (c : Crypto) (body : Option Bytes) (size : ℕ) (digest : String) (b : Bytes)
    → download c body size digest ≡ saved b
    → (body ≡ some b) × (length b ≡ size) × (codes "sha256:" ++ c.sha256_hex b ≡ codes digest)
download_saved c none size digest b h = unfold download in absurd (ground arith)
download_saved c (some body) size digest b h =
    let (len, same, out) = download_parts c body size digest b h in
    let whole : body ≡ b = sym (limit_read_short size body len) ∙ out in
    (
      ap some whole,
      subst (λ x. length x ≡ size) out len,
      subst (λ x. codes "sha256:" ++ c.sha256_hex x ≡ codes digest) out (eq_of_eq_bytes _ _ same),
    )
