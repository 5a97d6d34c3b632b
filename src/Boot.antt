-- ===== src/Boot.antt =====
-- internal/weaveboot/weaveboot.go: the boot supervisor that promotes a staged core and reverts one
-- that crashes. The order of versions (`higherSemver`) is a parameter: the operations hold for any.
-- Directories below `versions` and `staging` are modelled by their binary, `none` where there is none.
pub mod Core
pub mod Run
mod Tests
use weaveplatform_agent_core.Base.{
  ℕ, suc, String, Bool, true, false, not, ◌||◌, ◌&&◌, Option, none, some, List, [], ◌∷◌, Dict,
  lookup, insert, remove, leb, ltb, ◌==◌, ◌===◌, if◌then◌else◌,
}

abbrev pub Bytes : Type 0
Bytes = List ℕ

-- The texts of the markers, empty where one is absent: the model has no marker that is empty or cannot
-- be read, which `readMarker` takes for an absent one and `currentBinary` does not. `staging` is
-- `none` where ReadDir fails.
pub record CoreDir : Type 0 where
  pub current : String
  pub previous : String
  pub versions : Dict (Option Bytes)
  pub staging : Option (Dict (Option Bytes))

pub record Boot : Type 0 where
  -- higherSemver
  pub higher : String → String → Bool
  -- VerifyCore, `none` where no verifier is configured
  pub verify_core : Option (Bytes → Bool)

-- What the operating system answers to one promotion. The error of a RemoveAll is ignored: of the staged
-- core that the verifier refuses, of the destination, where the rename then fails, and of the staging
-- directory it leaves what it leaves.
pub record Faults : Type 0 where
  pub mkdir_fails : Bool
  pub rename_fails : Bool
  pub write_current_fails : Bool
  pub write_previous_fails : Bool
  pub refused_left : Option (Option Bytes)
  pub destination_left : Option (Option Bytes)
  pub staging_left : Option (Dict (Option Bytes))

abbrev pub put_left : String → Option (Option Bytes) → Dict (Option Bytes) → Dict (Option Bytes)
put_left v none entries = remove v entries
put_left v (some left) entries = insert v left entries

-- The loop over the staged directories: the best version that has a binary, with it.
unfoldable pub pick :
    (String → String → Bool)
    → Option (String × Bytes)
    → Dict (Option Bytes)
    → Option (String × Bytes)
pick higher best [] = best
pick higher best ((v, none) ∷ rest) = pick higher best rest
pick higher none ((v, some b) ∷ rest) = pick higher (some (v, b)) rest
pick higher (some (u, a)) ((v, some b) ∷ rest) =
    let newer = pick higher (some (v, b)) rest in
    let older = pick higher (some (u, a)) rest in if higher v u then newer else older

abbrev set_staging : CoreDir → Dict (Option Bytes) → CoreDir
set_staging d s = record d { staging = some s }

-- The markers, behind a rename that worked.
unfoldable pub mark : Faults → String → CoreDir → CoreDir
mark f best d = if f.write_current_fails then d else record d {
  current = best;
  previous =
      if not (d.current === "") && not (d.current === best) && not f.write_previous_fails
      then d.current
      else d.previous;
  staging = f.staging_left;
}

abbrev renamed : String → Bytes → Dict (Option Bytes) → CoreDir → CoreDir
renamed best b staged d = record d {
  versions = insert best (some b) d.versions;
  staging = some (remove best staged);
}

-- Behind the verifier's acceptance.
unfoldable pub install_core : Faults → String → Bytes → Dict (Option Bytes) → CoreDir → CoreDir
unfolding mark
install_core f best b staged d =
    if f.mkdir_fails
    then d
    else if f.rename_fails
    then record d { versions = put_left best f.destination_left d.versions }
    else mark f best (renamed best b staged d)

abbrev verdict : Faults → String → Bytes → Dict (Option Bytes) → CoreDir → Option Bool → CoreDir
verdict f best b staged d none = d
verdict f best b staged d (some false) = set_staging d (put_left best f.refused_left staged)
verdict f best b staged d (some true) = install_core f best b staged d

abbrev verified : Boot → Bytes → Option Bool
verified o b = elim o.verify_core [ none ↦ none | some v ↦ some (v b) ]

abbrev promote_best :
    Boot → Faults → Dict (Option Bytes) → CoreDir → Option (String × Bytes) → CoreDir
promote_best o f staged d none = d
promote_best o f staged d (some (best, b)) = verdict f best b staged d (verified o b)

abbrev pub promote_from : Boot → Faults → CoreDir → Option (Dict (Option Bytes)) → CoreDir
promote_from o f d none = d
promote_from o f d (some staged) = promote_best o f staged d (pick o.higher none staged)

unfoldable pub promote_staged : Boot → Faults → CoreDir → CoreDir
unfolding install_core pick
promote_staged o f d = promote_from o f d d.staging

-- os.Stat of a version's binary.
unfoldable pub has_binary : String → CoreDir → Bool
has_binary v d = elim (lookup v d.versions) [ some (some _) ↦ true | _ ↦ false ]

-- The new directory, and the version that was reverted to.
unfoldable pub revert : Faults → String → CoreDir → CoreDir × Option String
unfolding has_binary
revert f bad d =
    if d.previous === "" || d.previous === bad
    then (d, none)
    else if not (has_binary d.previous d)
    then (d, none)
    else if f.write_current_fails
    then (d, none)
    else (
      record d {
        current = d.previous;
        previous = if f.write_previous_fails then d.previous else bad;
      },
      some d.previous,
    )
