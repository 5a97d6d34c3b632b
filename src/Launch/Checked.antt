-- ===== src/Launch/Checked.antt =====
-- What has been checked of a module that `launch` of internal/supervise/launch.go has started.
use weaveplatform_agent_core.Base.{
  String, true, Option, none, some, List, [], ◌∷◌, lookup, if-both, ◌≡◌, refl, sym, ap, ◌∙◌, arith,
  Option-cases, inl, inr,
}
use weaveplatform_agent_core.Store.{Bytes}
use weaveplatform_agent_core.Handshake.{Line, Parsed, parsed, rejected, parse, contains}
use weaveplatform_agent_core.Capability.{CapabilitySet, Covers}
use weaveplatform_agent_core.Launch.{
  Effect, served, contained, connected, killed, stopped_host, First, first_line_is, exited_first,
  timed_out, context_done, InitAnswer, init_failed, init_requires, World, Harness, launched,
  launch_failed, protocol_unsupported, Outcome, perform, check, fail_cleanup, proc_cleanup,
  conn_cleanup, missing_caps, start_module, after_init, after_parse, after_first, spawn, launch,
}

check_passed :
    (error : Option String) (cleanup : List Effect) (o : Outcome) (l : Line)
    → (check error cleanup o).verdict ≡ launched l
    → (error ≡ none) × (o.verdict ≡ launched l)
check_passed none cleanup o l e = (refl, e)
check_passed (some why) cleanup o l e = ground arith

-- The module's first line, its answer to Init and its start.
pub record IsConfirmed (w : World) (h : Harness) (l : Line) : Type 0 where
  pub raw : Bytes
  pub names : List String
  pub line_printed : w.first ≡ first_line_is raw
  pub line_parsed : parse raw ≡ parsed l
  pub in_window : contains h.window l.protocol ≡ true
  pub dialed : w.dial_error ≡ none
  pub inited : w.init_answer ≡ init_requires names
  pub requirements_met : Covers h.caps names
  pub started : w.start_error ≡ none

missing-Covers :
    (caps : CapabilitySet) (names : List String) → missing_caps caps names ≡ [] → Covers caps names
unfolding missing_caps
missing-Covers caps [] e = tt
missing-Covers caps (n ∷ names) e = elim (Option-cases (lookup n caps)) [
  | inl absent ↦ ground arith
  | inr (_, present) ↦ (ground arith, missing-Covers caps names (ground arith))
]

launched-injective : (l l' : Line) → launched l ≡ launched l' → l ≡ l'
launched-injective l l' e =
    ap (λ v. elim v [ launched k ↦ k | launch_failed why ↦ l | protocol_unsupported ↦ l ]) e

start_passed :
    (w : World) (line l : Line) (missing : List String)
    → (start_module w line missing).verdict ≡ launched l
    → (missing ≡ []) × (w.start_error ≡ none) × (line ≡ l)
start_passed w line l [] e =
    let passed =
      check_passed w.start_error conn_cleanup (record { trace = []; verdict = launched line }) l
        e in
    (refl, passed.0, launched-injective line l passed.1)
start_passed w line l (name ∷ names) e = ground arith

module _ (w : World) (h : Harness) (l : Line) where
  answer_passed :
      (raw : Bytes) (line : Line) (a : InitAnswer)
      → w.first ≡ first_line_is raw
      → parse raw ≡ parsed line
      → contains h.window line.protocol ≡ true
      → w.dial_error ≡ none
      → w.init_answer ≡ a
      → (after_init w h line a).verdict ≡ launched l
      → IsConfirmed w h l
  answer_passed raw line (init_failed why) first p inside dialed answered e = ground arith
  answer_passed raw line (init_requires names) first p inside dialed answered e =
      let passed = start_passed w line l (missing_caps h.caps names) e in
      record {
        raw = raw;
        names = names;
        line_printed = first;
        line_parsed = p ∙ ap parsed passed.2;
        in_window = ap (λ (k : Line). contains h.window k.protocol) (sym passed.2) ∙ inside;
        dialed = dialed;
        inited = answered;
        requirements_met = missing-Covers h.caps names passed.0;
        started = passed.1;
      }

  parsed_passed :
      (raw : Bytes) (p : Parsed)
      → w.first ≡ first_line_is raw
      → parse raw ≡ p
      → (after_parse w h p).verdict ≡ launched l
      → IsConfirmed w h l
  parsed_passed raw (rejected why) first e v = ground arith
  parsed_passed raw (parsed line) first e v =
      if-both (λ (o : Outcome). o.verdict ≡ launched l → IsConfirmed w h l)
        (contains h.window line.protocol) _ _
        (λ inside u.
          let passed =
            check_passed w.dial_error proc_cleanup
              (perform connected (after_init w h line w.init_answer)) l u in
          answer_passed raw line w.init_answer first e inside passed.0 refl passed.1)
        (λ outside u. ground arith) v

  first_passed :
      (f : First) → w.first ≡ f → (after_first w h f).verdict ≡ launched l → IsConfirmed w h l
  first_passed (first_line_is raw) e v = parsed_passed raw (parse raw) e refl v
  first_passed (exited_first none) e v = ground arith
  first_passed (exited_first (some code)) e v = ground arith
  first_passed timed_out e v = ground arith
  first_passed (context_done why) e v = ground arith

  -- A module is launched only if its binary was verified, its first line was parsed, to a protocol in
  -- the window that core advertised, and its Init and Start succeeded, with every capability that it
  -- asked for at Init in core's set.
  pub launch_confirms :
      (launch w h).verdict ≡ launched l → (w.verify_error ≡ none) × IsConfirmed w h l
  unfolding launch
  launch_confirms v =
      let a = check_passed w.verify_error [] _ l v in
      let b = check_passed w.remove_error [] _ l a.1 in
      let c = check_passed w.mkdir_error [] _ l b.1 in
      let d = check_passed w.rand_error [] _ l c.1 in
      let e = check_passed w.listen_error [] (perform served (spawn w h)) l d.1 in
      let f = check_passed w.prepare_error fail_cleanup _ l e.1 in
      let g = check_passed w.privilege_error fail_cleanup _ l f.1 in
      let j = check_passed w.exec_error fail_cleanup _ l g.1 in
      let k =
        check_passed w.post_spawn_error (killed ∷ stopped_host ∷ [])
          (perform contained (after_first w h w.first)) l j.1 in
      (a.0, first_passed w.first refl k.1)
