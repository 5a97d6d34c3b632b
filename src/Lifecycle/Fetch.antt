-- ===== src/Lifecycle/Fetch.antt =====
-- `fetchChannel`, `lastSequence` and `download` of internal/lifecycle/lifecycle.go.
-- HTTP and the sequence's store are outside: each `Fetch` holds their answers. The stored sequence is
-- modelled by its number, `none` where the key is absent or its text is no number.
pub mod Order
mod Tests
use weaveplatform_agent_core.Base.{
  ℕ, String, Bool, true, false, not, Option, none, some, List, [], ◌∷◌, ◌++◌, ◌+◌, ◌-◌, ◌^◌, ltb,
  ◌==◌, if◌then◌else◌, length, take, codes, eq_bytes,
}
use weaveplatform_agent_core.Manifest.{ChannelManifest, expired}
use weaveplatform_agent_core.Verify.{Bytes, Crypto, Bundle, ChainError, Result, ok, err, verify}

-- The four files (`none` where a request fails), the clock, and whether the store fails.
pub record Fetch : Type 0 where
  pub manifest : Option Bytes
  pub manifest_sig : Option Bytes
  pub signing_key : Option Bytes
  pub signing_key_sig : Option Bytes
  pub now : ℕ
  pub read_fails : Bool
  pub put_fails : Bool

pub data FetchError : Type 0 where
  unreachable out_of_date rolled_back : FetchError
  untrusted : ChainError → FetchError

pub data Fetched : Type 0 where
  got : ChannelManifest → Fetched
  failed : FetchError → Fetched

abbrev bundle_of : Option Bytes → Option Bytes → Option Bytes → Option Bytes → Option Bundle
bundle_of (some m) (some ms) (some k) (some ks) =
    some (record { manifest = m; manifest_sig = ms; signing_key = k; signing_key_sig = ks })
bundle_of _ _ _ _ = none

abbrev or_zero : Option ℕ → ℕ
or_zero none = 0
or_zero (some n) = n

-- An error of the store reads as 0.
unfoldable pub last_sequence : Fetch → Option ℕ → ℕ
last_sequence f stored = if f.read_fails then 0 else or_zero stored

-- The check of the sequence, and the write of a higher one; an error of the write is only logged.
unfoldable pub check_sequence : Fetch → Option ℕ → ChannelManifest → Fetched × Option ℕ
unfolding last_sequence
check_sequence f stored ch =
    if ltb ch.sequence (last_sequence f stored)
    then (failed rolled_back, stored)
    else if ltb (last_sequence f stored) ch.sequence
    then (got ch, if f.put_fails then stored else some ch.sequence)
    else (got ch, stored)

-- `has_store`: the manager has a SeqStore.
unfoldable pub accept : Bool → Fetch → Option ℕ → Result ChannelManifest → Fetched × Option ℕ
unfolding check_sequence
accept has_store f stored (err e) = (failed (untrusted e), stored)
accept has_store f stored (ok ch) =
    if expired ch f.now
    then (failed out_of_date, stored)
    else if has_store
    then check_sequence f stored ch
    else (got ch, stored)

abbrev fetched : Crypto → Bytes → Bool → Fetch → Option ℕ → Option Bundle → Fetched × Option ℕ
fetched c root has_store f stored none = (failed unreachable, stored)
fetched c root has_store f stored (some b) = accept has_store f stored (verify c root b)

unfoldable pub fetch_channel : Crypto → Bytes → Bool → Fetch → Option ℕ → Fetched × Option ℕ
unfolding accept
fetch_channel c root has_store f stored =
    fetched c root has_store f stored
      (bundle_of f.manifest f.manifest_sig f.signing_key f.signing_key_sig)

abbrev collected : Fetched → List ℕ × Option ℕ → List ℕ × Option ℕ
collected (got ch) (rest, last) = (ch.sequence ∷ rest, last)
collected (failed _) (rest, last) = (rest, last)

-- A series of fetches, with the sequences of the manifests that they accepted.
unfoldable pub fetch_all : Crypto → Bytes → List Fetch → Option ℕ → List ℕ × Option ℕ
fetch_all c root [] stored = ([], stored)
fetch_all c root (f ∷ fs) stored =
    let (r, stored') = fetch_channel c root true f stored in
    collected r (fetch_all c root fs stored')

pub data DownloadError : Type 0 where
  no_response wrong_size wrong_digest : DownloadError

pub data Downloaded : Type 0 where
  saved : Bytes → Downloaded
  rejected : DownloadError → Downloaded

-- io.LimitReader(body, size+1) for an int64 size that is not negative: at the largest size the sum
-- wraps to a negative limit, and nothing is read.
unfoldable pub limit_read : ℕ → Bytes → Bytes
limit_read size body = if size == 2 ^ 63 - 1 then [] else take (size + 1) body

-- `download` of a manifest's size and digest, for a response body (`none` where the request fails).
unfoldable pub download : Crypto → Option Bytes → ℕ → String → Downloaded
unfolding limit_read
download c none size digest = rejected no_response
download c (some body) size digest =
    let read = limit_read size body in
    if not (length read == size)
    then rejected wrong_size
    else if not (eq_bytes (codes "sha256:" ++ c.sha256_hex read) (codes digest))
    then rejected wrong_digest
    else saved read
