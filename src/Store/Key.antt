-- ===== src/Store/Key.antt =====
-- `loadOrCreateKey` of internal/store/store.go: the master key at dir/store.key. The protector is
-- the operating system's: it is the fields of `Protector`.
use weaveplatform_agent_core.Base.{
  ℕ, String, Bool, not, Option, none, some, length, ◌==◌, if◌then◌else◌, ◌≡◌, refl, sym, ap, subst,
  ◌∙◌, if-false, arith,
}
use weaveplatform_agent_core.Store.{Bytes}
use weaveplatform_agent_core.Store.Sealed.{filled}
use weaveplatform_agent_core.Store.Sealed.Laws.{length-filled}

pub record Protector : Type 0 where
  pub seal_key : Bytes → Option Bytes
  pub unseal_key : Bytes → Option Bytes

-- The key file as os.ReadFile finds it.
pub data KeyFile : Type 0 where
  missing : KeyFile
  holds : Bytes → KeyFile
  unreadable : String → KeyFile

-- Which of the steps that write the new key succeed: rand.Read with its bytes, then CreateTemp,
-- Write, Chmod, Close and Rename.
pub record Steps : Type 0 where
  pub random : Option (ℕ → ℕ)
  pub create_temp : Bool
  pub write_temp : Bool
  pub chmod_temp : Bool
  pub close_temp : Bool
  pub rename_temp : Bool

pub data Loaded : Type 0 where
  loaded : Bytes → Loaded
  failed : String → Loaded

-- The file at the path, and the result. A temporary file that is not renamed is removed.
pub record Outcome : Type 0 where
  pub file : KeyFile
  pub result : Loaded

module _ (protector : Protector) where
  abbrev pub unsealed : Option Bytes → Loaded
  unsealed none = failed "store: unsealing master key"
  unsealed (some key) =
      if not (length key == 32) then failed "store: master key has wrong length" else loaded key

  -- A temporary file with the sealed key takes the path's place, or is removed.
  abbrev pub write_key : Steps → Bytes → Bytes → Outcome
  write_key s key sealed =
      if not s.create_temp
      then record { file = missing; result = failed "create" }
      else if not s.write_temp
      then record { file = missing; result = failed "write" }
      else if not s.chmod_temp
      then record { file = missing; result = failed "chmod" }
      else if not s.close_temp
      then record { file = missing; result = failed "close" }
      else if not s.rename_temp
      then record { file = missing; result = failed "rename" }
      else record { file = holds sealed; result = loaded key }

  abbrev pub protect : Steps → Bytes → Option Bytes → Outcome
  protect s key none = record { file = missing; result = failed "store: sealing master key" }
  protect s key (some sealed) = write_key s key sealed

  abbrev pub create_key : Steps → Option (ℕ → ℕ) → Outcome
  create_key s none = record { file = missing; result = failed "rand" }
  create_key s (some random) = let key = filled 32 random in protect s key (protector.seal_key key)

  unfoldable pub load_or_create_key : Steps → KeyFile → Outcome
  load_or_create_key s (holds sealed) = record {
    file = holds sealed;
    result = unsealed (protector.unseal_key sealed);
  }
  load_or_create_key s (unreadable why) = record { file = unreadable why; result = failed why }
  load_or_create_key s missing = create_key s s.random

  -- The protector gives back what it sealed.
  unfoldable pub Protects : Type 0
  Protects =
      (key sealed : Bytes)
      → protector.seal_key key ≡ some sealed
      → protector.unseal_key sealed ≡ some key

loaded-injective : (a b : Bytes) → loaded a ≡ loaded b → a ≡ b
loaded-injective a b e = ap (λ l. elim l [ loaded k ↦ k | failed why ↦ a ]) e

module _ (protector : Protector) (sound : Protects protector) where
  -- What a later start has to find: the same key, in the same file, of 32 bytes.
  Settled : Bytes → Outcome → Type 0
  Settled key o =
      (o.result ≡ loaded key)
      → (length key ≡ 32)
        × ((later : Steps)
            → load_or_create_key protector later o.file
              ≡ record { file = o.file; result = loaded key })

  -- A new key is returned only after the rename.
  finished :
      (s : Steps) (new sealed key : Bytes)
      → (write_key protector s new sealed).result ≡ loaded key
      → (new ≡ key) × ((write_key protector s new sealed).file ≡ holds sealed)
  finished s new sealed key r = ground arith

  unsealed_again :
      (random : ℕ → ℕ) (key sealed : Bytes)
      → protector.unseal_key sealed ≡ some (filled 32 random)
      → filled 32 random ≡ key
      → unsealed protector (protector.unseal_key sealed) ≡ loaded key
  unsealed_again random key sealed back same =
      ap (unsealed protector) (back ∙ ap some same)
      ∙ if-false {b = not (length key == 32)} _ _
          (ground (arith, ap length same, length-filled 32 random))

  written_key :
      (s : Steps) (random : ℕ → ℕ) (key : Bytes) (o : Option Bytes)
      → protector.seal_key (filled 32 random) ≡ o
      → Settled key (protect protector s (filled 32 random) o)
  unfolding Settled load_or_create_key Protects
  written_key s random key none e r = ground arith
  written_key s random key (some sealed) e r =
      let new = filled 32 random in
      let same : new ≡ key = (finished s new sealed key r).0 in
      (
        ap length (sym same) ∙ length-filled 32 random,
        λ later.
            subst
              (λ f. load_or_create_key protector later f ≡ record { file = f; result = loaded key })
              (sym (finished s new sealed key r).1)
              (ap (λ l. record { file = holds sealed; result = l })
                (unsealed_again random key sealed (sound new sealed e) same)),
      )

  read_key :
      (sealed key : Bytes) (o : Option Bytes)
      → protector.unseal_key sealed ≡ o
      → unsealed protector o ≡ loaded key
      → length key ≡ 32
  read_key sealed key none e r = ground arith
  read_key sealed key (some k) e r = ground arith

  -- With a protector that gives back what it sealed: whatever the key file was and whichever steps
  -- failed, a start that yields a master key yields 32 bytes, and every later start on the file that
  -- it leaves yields the same key and leaves the file as it is.
  pub load_or_create_key_settles :
      (s : Steps) (file : KeyFile) (key : Bytes)
      → (load_or_create_key protector s file).result ≡ loaded key
      → (length key ≡ 32)
        × ((later : Steps)
            → load_or_create_key protector later (load_or_create_key protector s file).file
              ≡ record { file = (load_or_create_key protector s file).file; result = loaded key })
  unfolding load_or_create_key Settled
  load_or_create_key_settles s missing key r = go s.random r
    where
      go : (o : Option (ℕ → ℕ)) → Settled key (create_key protector s o)
      go none r' = ground arith
      go (some random) r' = written_key s random key (protector.seal_key (filled 32 random)) refl r'
  load_or_create_key_settles s (holds sealed) key r = (
    read_key sealed key (protector.unseal_key sealed) refl r,
    λ later. ap (λ l. record { file = holds sealed; result = l }) r,
  )
  load_or_create_key_settles s (unreadable why) key r = ground arith
