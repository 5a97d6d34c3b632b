-- ===== src/Boot/Core.antt =====
-- Which core `promoteStaged` and `revert` make current.
use weaveplatform_agent_core.Base.{
  String, Bool, true, false, not, ◌&&◌, Option, none, some, Dict, lookup, lookup-insert, ◌===◌,
  if◌then◌else◌, ◌≡◌, ◌≢◌, refl, sym, ap, ◌∙◌, arith, eq_iff,
}
use weaveplatform_agent_core.Boot.{
  Bytes, CoreDir, Boot, Faults, pick, mark, install_core, verdict, verified, promote_best,
  promote_from, promote_staged, has_binary, revert, renamed, put_left,
}

-- The core that became current was staged, and its bytes accepted; nothing else changed among the
-- versions, and the old version is the one to revert to.
pub record IsPromoted (o : Boot) (before after : CoreDir) : Type 0 where
  pub binary : Bytes
  pub installed : lookup after.current after.versions ≡ some (some binary)
  pub accepted : verified o binary ≡ some true
  pub others : (v : String) → v ≢ after.current → lookup v after.versions ≡ lookup v before.versions
  pub retained : before.current ≢ "" → after.previous ≡ before.current

module _ (o : Boot) (f : Faults) (d : CoreDir) (works : f.write_previous_fails ≡ false) where
  abbrev Flips : CoreDir → Type 0
  Flips after = after.current ≢ d.current → IsPromoted o d after

  mark-Flips :
      (best : String) (b : Bytes) (staged : Dict (Option Bytes))
      → verified o b ≡ some true
      → Flips (mark f best (renamed best b staged d))
  unfolding mark
  mark-Flips best b staged a = go f.write_current_fails
    where
      go :
          (x : Bool)
          → Flips (
              if x then renamed best b staged d else record (renamed best b staged d) {
                current = best;
                previous =
                    if not (d.current === "")
                      && not (d.current === best)
                      && not f.write_previous_fails
                    then d.current
                    else d.previous;
                staging = f.staging_left;
              })
      go true = λ changed. absurd (changed refl)
      go false = λ changed. record {
        binary = b;
        installed = ground (arith, lookup-insert best best (some b) d.versions, eq_iff best best);
        accepted = a;
        others = λ v other. ground (arith, lookup-insert best v (some b) d.versions, eq_iff best v);
        retained = λ some_old. ground (arith, eq_iff d.current "", eq_iff d.current best);
      }

  install_core-Flips :
      (best : String) (b : Bytes) (staged : Dict (Option Bytes))
      → verified o b ≡ some true
      → Flips (install_core f best b staged d)
  unfolding install_core
  install_core-Flips best b staged a = go f.mkdir_fails f.rename_fails
    where
      go :
          (x y : Bool)
          → Flips (
              if x
              then d
              else if y
              then record d { versions = put_left best f.destination_left d.versions }
              else mark f best (renamed best b staged d))
      go true y = λ changed. absurd (changed refl)
      go false true = λ changed. absurd (changed refl)
      go false false = mark-Flips best b staged a

  best-Flips :
      (staged : Dict (Option Bytes)) (r : Option (String × Bytes))
      → Flips (promote_best o f staged d r)
  best-Flips staged none = λ changed. absurd (changed refl)
  best-Flips staged (some (best, b)) = go (verified o b) refl
    where
      go : (v : Option Bool) → verified o b ≡ v → Flips (verdict f best b staged d v)
      go none e = λ changed. absurd (changed refl)
      go (some false) e = λ changed. absurd (changed refl)
      go (some true) e = install_core-Flips best b staged e

  from-Flips : (s : Option (Dict (Option Bytes))) → Flips (promote_from o f d s)
  from-Flips none = λ changed. absurd (changed refl)
  from-Flips (some staged) = best-Flips staged (pick o.higher none staged)

-- Only an accepted core becomes current. Where promoting a staged core changes which version is
-- current, the binary of the new one has been accepted by the configured verifier, every other version
-- is as it was, and the old version, if there was one, is recorded as previous, provided that writing
-- that marker works.
pub promote_staged-IsPromoted :
    (o : Boot) (f : Faults) (d : CoreDir)
    → f.write_previous_fails ≡ false
    → (promote_staged o f d).current ≢ d.current
    → IsPromoted o d (promote_staged o f d)
unfolding promote_staged
promote_staged-IsPromoted o f d works = from-Flips o f d works d.staging

-- A promoted core can be taken back: reverting the version that a promotion made current, with the
-- markers written, returns to the version that was current before, if that one has a binary, and
-- records the bad one as previous.
pub revert-promote_staged :
    (o : Boot) (f g : Faults) (d : CoreDir) (b : Bytes)
    → f.write_previous_fails ≡ false
    → (g.write_current_fails ≡ false) × (g.write_previous_fails ≡ false)
    → d.current ≢ ""
    → lookup d.current d.versions ≡ some (some b)
    → (promote_staged o f d).current ≢ d.current
    → ((revert g (promote_staged o f d).current (promote_staged o f d)).1 ≡ some d.current)
      × ((revert g (promote_staged o f d).current (promote_staged o f d)).0.current ≡ d.current)
      × ((revert g (promote_staged o f d).current (promote_staged o f d)).0.previous
          ≡ (promote_staged o f d).current)
revert-promote_staged o f g d b works (wc, wp) old found changed =
    back (promote_staged o f d) (promote_staged-IsPromoted o f d works changed) changed
  where
    back :
        (after : CoreDir)
        → IsPromoted o d after
        → after.current ≢ d.current
        → ((revert g after.current after).1 ≡ some d.current)
          × ((revert g after.current after).0.current ≡ d.current)
          × ((revert g after.current after).0.previous ≡ after.current)
    back after p changed =
        unfold revert has_binary in
        let prev : after.previous ≡ d.current = p.retained old in
        let still : lookup d.current after.versions ≡ some (some b) =
          p.others d.current (λ e. changed (sym e)) ∙ found in
        let at_prev : lookup after.previous after.versions ≡ some (some b) =
          ap (λ v. lookup v after.versions) prev ∙ still in
        ground (arith, eq_iff after.previous "", eq_iff after.previous after.current)
