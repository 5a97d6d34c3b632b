-- ===== src/Boot/Run/Reverts.antt =====
-- A core that crashes before it proves stable, in `Run` of internal/weaveboot/weaveboot.go.
use weaveplatform_agent_core.Base.{
  ℕ, suc, ◌+◌, ◌<◌, String, Bool, true, false, not, ◌&&◌, ◌||◌, none, some, List, [], ◌∷◌, ◌++◌,
  all, length, leb, ltb, ◌===◌, if◌then◌else◌, if-true, if-false, ◌≡◌, refl, sym, ap, ◌∙◌, subst,
  arith, Bool-cases, inl, inr,
}
use weaveplatform_agent_core.Boot.{
  CoreDir, Boot, Faults, promote_staged, promote_from, has_binary, revert,
}
use weaveplatform_agent_core.Boot.Run.{
  Limits, uptime_to_be_good, revert_threshold, BootPass, going, Booted, current_binary,
  reverted_or_not, count_crash, launch_core, boot_pass, pass_if_going, boot_loop,
}

-- The core exits before it is ready or has run long enough, and nothing else goes wrong.
unfoldable pub crashes_early : Limits → BootPass → Bool
crashes_early l p =
    not p.ended_before
    && (not p.ended_running
        && (not p.became_ready
            && (ltb p.uptime (uptime_to_be_good l)
                && (not p.ended_waiting
                    && (not p.faults.write_current_fails && not p.faults.write_previous_fails)))))

-- Nothing is staged, and the current and the previous version differ and have binaries.
pub record IsRevertible (d : CoreDir) : Type 0 where
  pub nothing_staged : d.staging ≡ none
  pub current_named : (d.current === "") ≡ false
  pub current_binary_there : has_binary d.current d ≡ true
  pub previous_named : (d.previous === "") ≡ false
  pub versions_differ : (d.previous === d.current) ≡ false
  pub previous_binary_there : has_binary d.previous d ≡ true

-- The two versions change places.
abbrev pub flipped : CoreDir → CoreDir
flipped d = record d { current = d.previous; previous = d.current }

revert_flips :
    (f : Faults) (d : CoreDir)
    → IsRevertible d
    → f.write_current_fails ≡ false
    → f.write_previous_fails ≡ false
    → revert f d.current d ≡ (flipped d, some d.previous)
unfolding revert
revert_flips f d r w v =
    if-false {b = d.previous === "" || d.previous === d.current} _ _
      (ground (arith, r.previous_named, r.versions_differ))
    ∙ if-false {b = not (has_binary d.previous d)} _ _ (ground (arith, r.previous_binary_there))
    ∙ if-false _ _ w
    ∙ ap
        (λ x. (
          record d { current = d.previous; previous = if x then d.previous else d.current },
          some d.previous,
        ))
        v

promote_none : (o : Boot) (f : Faults) (d : CoreDir) → d.staging ≡ none → promote_staged o f d ≡ d
unfolding promote_staged
promote_none o f d e = ap (promote_from o f d) e

current_there :
    (beside : Bool) (d : CoreDir) → IsRevertible d → current_binary beside d ≡ some d.current
unfolding current_binary
current_there beside d r = if-false _ _ r.current_named ∙ if-true _ _ r.current_binary_there

-- One crash, counted or answered by the flip.
abbrev crashed : Limits → Booted → Booted
crashed l s =
    if leb (revert_threshold l) (suc s.crashes)
    then record s { dir = flipped s.dir; crashes = 0; ran = s.dir.current ∷ s.ran }
    else record s { crashes = suc s.crashes; ran = s.dir.current ∷ s.ran }

crash_counted :
    (l : Limits) (p : BootPass) (s : Booted) (ran : List String)
    → IsRevertible s.dir
    → crashes_early l p ≡ true
    → count_crash l p s.dir.current (record s { ran = ran }) ≡ (
        if leb (revert_threshold l) (suc s.crashes)
        then record s { dir = flipped s.dir; crashes = 0; ran = ran }
        else record s { crashes = suc s.crashes; ran = ran })
unfolding crashes_early
crash_counted l p s ran r h = elim (Bool-cases (leb (revert_threshold l) (suc s.crashes))) [
  | inl reached ↦
      if-true _ _ reached
      ∙ ap (reverted_or_not p (record s { ran = ran }))
          (revert_flips p.faults s.dir r (ground arith) (ground arith))
      ∙ sym (if-true _ _ reached)
  | inr below ↦
      if-false _ _ below
      ∙ if-false {b = p.ended_waiting} _ _ (ground arith)
      ∙ sym (if-false _ _ below)
]

crash_pass :
    (o : Boot) (l : Limits) (p : BootPass) (s : Booted)
    → IsRevertible s.dir
    → crashes_early l p ≡ true
    → boot_pass o l p s ≡ crashed l s
unfolding boot_pass crashes_early
crash_pass o l p s r h =
    if-false {b = p.ended_before} _ _ (ground arith)
    ∙ ap (λ d. launch_core l p (record s { dir = d }) (current_binary p.beside d))
        (promote_none o p.faults s.dir r.nothing_staged)
    ∙ ap (launch_core l p s) (current_there p.beside s.dir r)
    ∙ if-false {b = p.ended_running} _ _ (ground arith)
    ∙ if-false {b = p.became_ready || leb (uptime_to_be_good l) p.uptime} _ _ (ground arith)
    ∙ crash_counted l p s (s.dir.current ∷ s.ran) r h

-- Where a loop stands after a number of crashes.
pub record StandsAt (d : CoreDir) (n : ℕ) (s : Booted) : Type 0 where
  pub dir_is : s.dir ≡ d
  pub crashes_are : s.crashes ≡ n
  pub still_going : s.status ≡ going

crashes_on :
    (o : Boot) (l : Limits) (ps : List BootPass) (s : Booted)
    → IsRevertible s.dir
    → s.status ≡ going
    → all (crashes_early l) ps ≡ true
    → s.crashes + length ps < revert_threshold l
    → StandsAt s.dir (s.crashes + length ps) (boot_loop o l ps s)
unfolding boot_loop
crashes_on o l [] s r g h small = record {
  dir_is = refl;
  crashes_are = omega arith;
  still_going = g;
}
crashes_on o l (p ∷ ps) s r g h small =
    let counted : pass_if_going o l p s s.status
        ≡ record s { crashes = suc s.crashes; ran = s.dir.current ∷ s.ran } =
      ap (pass_if_going o l p s) g
      ∙ crash_pass o l p s r (ground arith)
      ∙ if-false {b = leb (revert_threshold l) (suc s.crashes)} _ _ (ground arith) in
    let next = record s { crashes = suc s.crashes; ran = s.dir.current ∷ s.ran } in
    subst (λ t. StandsAt s.dir (s.crashes + length (p ∷ ps)) (boot_loop o l ps t)) (sym counted)
      (subst (λ n. StandsAt s.dir n (boot_loop o l ps next)) (omega arith)
        (crashes_on o l ps next r g (ground arith) (omega arith)))

boot_loop-append :
    (o : Boot) (l : Limits) (ps qs : List BootPass) (s : Booted)
    → boot_loop o l (ps ++ qs) s ≡ boot_loop o l qs (boot_loop o l ps s)
unfolding boot_loop
boot_loop-append o l [] qs s = refl
boot_loop-append o l (p ∷ ps) qs s = boot_loop-append o l ps qs (pass_if_going o l p s s.status)

last_crash :
    (o : Boot) (l : Limits) (p : BootPass) (d : CoreDir) (s : Booted)
    → IsRevertible d
    → crashes_early l p ≡ true
    → StandsAt d s.crashes s
    → suc s.crashes ≡ revert_threshold l
    → StandsAt (flipped d) 0 (boot_loop o l (p ∷ []) s)
unfolding boot_loop
last_crash o l p d s r h at full =
    let flips : pass_if_going o l p s s.status
        ≡ record s { dir = flipped s.dir; crashes = 0; ran = s.dir.current ∷ s.ran } =
      ap (pass_if_going o l p s) at.still_going
      ∙ crash_pass o l p s (subst IsRevertible (sym at.dir_is) r) h
      ∙ if-true {b = leb (revert_threshold l) (suc s.crashes)} _ _ (ground (arith, full)) in
    subst (StandsAt (flipped d) 0) (sym flips)
      (record { dir_is = ap flipped at.dir_is; crashes_are = refl; still_going = at.still_going })

abbrev pub starting : CoreDir → Booted
starting d = record { dir = d; crashes = 0; ran = []; status = going }

-- With nothing staged, and a current and another, previous version that are both recorded and have
-- their binaries: a core that exits before it is ready and before it has run long enough, as often as
-- the threshold says, is reverted, so that the current and the previous version have changed places
-- and the count starts again; after one crash less the versions are as they were. Both hold for every
-- threshold, the default among them, if the context does not end and the markers are written.
pub boot_loop_reverts :
    (o : Boot) (l : Limits) (ps : List BootPass) (p : BootPass) (d : CoreDir)
    → IsRevertible d
    → all (crashes_early l) ps ≡ true
    → crashes_early l p ≡ true
    → suc (length ps) ≡ revert_threshold l
    → StandsAt d (length ps) (boot_loop o l ps (starting d))
      × StandsAt (flipped d) 0 (boot_loop o l (ps ++ (p ∷ [])) (starting d))
boot_loop_reverts o l ps p d r hs h full =
    let before = crashes_on o l ps (starting d) r refl hs (omega (arith, full)) in
    let after : Booted = boot_loop o l ps (starting d) in
    let here : StandsAt d after.crashes after = record {
      dir_is = before.dir_is;
      crashes_are = refl;
      still_going = before.still_going;
    } in
    (
      subst (λ n. StandsAt d n after) (omega arith) before,
      subst (StandsAt (flipped d) 0) (sym (boot_loop-append o l ps (p ∷ []) (starting d)))
          (last_crash o l p d after r h here (omega (arith, full, before.crashes_are))),
    )
