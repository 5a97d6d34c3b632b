-- ===== src/Launch/Capture.antt =====
-- `lineCapture` of internal/supervise/launch.go: the first line of a module's standard output.
use weaveplatform_agent_core.Base.{
  ℕ, ◌≤◌, Bool, true, false, not, ◌&&◌, Option, none, some, some-injective, List, [], ◌∷◌, ◌++◌,
  all, length, ltb, ◌==◌, if◌then◌else◌, if-true, if-false, ◌≡◌, refl, sym, ap, ◌∙◌, arith, drop,
  Option-cases, inl, inr,
}
use weaveplatform_agent_core.Store.{Bytes}

abbrev pub newline : ℕ
newline = 10

-- w.buf[:i] at bytes.IndexByte(w.buf, '\n')
unfoldable pub first_line : Bytes → Option Bytes
first_line [] = none
first_line (c ∷ s) =
    let later = first_line s in
    if c == newline then some [] else elim later [ none ↦ none | some l ↦ some (c ∷ l) ]

-- The writer; `sent` is what its channel, of one place, received.
pub record Capture : Type 0 where
  pub max : ℕ
  pub buffer : Bytes
  pub finished : Bool
  pub sent : Option Bytes

abbrev pub sent_once : Bytes → Option Bytes → Option Bytes
sent_once line none = some line
sent_once line (some before) = some before

abbrev pub emit : Bytes → Capture → Capture
emit line w = record { max = w.max; buffer = []; finished = true; sent = sent_once line w.sent }

abbrev pub capture_line : Capture → Bytes → Option Bytes → Capture
capture_line w buffered (some line) = emit line w
capture_line w buffered none =
    if ltb 0 w.max && ltb w.max (length buffered) then emit [] w else record w { buffer = buffered }

-- `Write`
unfoldable pub write_chunk : Bytes → Capture → Capture
write_chunk p w =
    if w.finished then w else capture_line w (w.buffer ++ p) (first_line (w.buffer ++ p))

unfoldable pub write_chunks : List Bytes → Capture → Capture
write_chunks [] w = w
write_chunks (p ∷ ps) w = write_chunks ps (write_chunk p w)

abbrev pub joined : List Bytes → Bytes
joined [] = []
joined (p ∷ ps) = p ++ joined ps

append_assoc : (a b c : Bytes) → (a ++ b) ++ c ≡ a ++ (b ++ c)
append_assoc [] b c = refl
append_assoc (x ∷ a) b c = ap (◌∷◌ x) (append_assoc a b c)

abbrev no_newline : Bytes → Bool
no_newline s = all (λ c. not (c == newline)) s

first_line-line :
    (line rest : Bytes) → no_newline line ≡ true → first_line (line ++ (newline ∷ rest)) ≡ some line
unfolding first_line
first_line-line [] rest h = refl
first_line-line (c ∷ line) rest h = ground (arith, first_line-line line rest)

-- What follows does not change a line that is complete.
first_line-append : (s t line : Bytes) → first_line s ≡ some line → first_line (s ++ t) ≡ some line
unfolding first_line
first_line-append [] t line e = ground arith
first_line-append (c ∷ s) t line e = elim (Option-cases (first_line s)) [
  | inl open_end ↦ ground arith
  | inr (l, complete) ↦ ground (arith, first_line-append s t l complete)
]

-- A part without a newline of what holds a line is no longer than the line.
part_fits :
    (s t line rest : Bytes)
    → first_line s ≡ none
    → s ++ t ≡ line ++ (newline ∷ rest)
    → length s ≤ length line
unfolding first_line
part_fits [] t line rest n e = omega arith
part_fits (c ∷ s) t [] rest n e = ground arith
part_fits (c ∷ s) t (d ∷ line) rest n e =
    omega (arith, part_fits s t line rest (ground arith) (ap (drop 1) e))

finished_stays : (ps : List Bytes) (w : Capture) → w.finished ≡ true → write_chunks ps w ≡ w
unfolding write_chunks write_chunk
finished_stays [] w e = refl
finished_stays (p ∷ ps) w e = ap (write_chunks ps) (if-true _ _ e) ∙ finished_stays ps w e

append_nil : (s : Bytes) → s ++ [] ≡ s
append_nil [] = refl
append_nil (c ∷ s) = ap (◌∷◌ c) (append_nil s)

-- One line of a text.
same_line :
    (s t line rest l : Bytes)
    → no_newline line ≡ true
    → first_line s ≡ some l
    → s ++ t ≡ line ++ (newline ∷ rest)
    → l ≡ line
same_line s t line rest l h e whole =
    some-injective _ _
      (sym (first_line-append s t l e) ∙ ap first_line whole ∙ first_line-line line rest h)

rest_sent :
    (ps : List Bytes) (w : Capture) (line rest : Bytes)
    → w.finished ≡ false
    → w.sent ≡ none
    → no_newline line ≡ true
    → length line ≤ w.max
    → first_line w.buffer ≡ none
    → w.buffer ++ joined ps ≡ line ++ (newline ∷ rest)
    → (write_chunks ps w).sent ≡ some line
unfolding write_chunks write_chunk
rest_sent [] w line rest f u h small n whole =
    ground (arith, ap first_line (sym (append_nil w.buffer) ∙ whole) ∙ first_line-line line rest h)
rest_sent (p ∷ ps) w line rest f u h small n whole =
    let b = w.buffer ++ p in
    let joined_whole : b ++ joined ps ≡ line ++ (newline ∷ rest) =
      append_assoc w.buffer p (joined ps) ∙ whole in
    ap (λ v. (write_chunks ps v).sent) (if-false _ _ f)
    ∙ go (first_line b) refl joined_whole
        (λ e. rest_sent ps (record w { buffer = b }) line rest f u h small e joined_whole)
  where
    go :
        (o : Option Bytes)
        → first_line (w.buffer ++ p) ≡ o
        → (w.buffer ++ p) ++ joined ps ≡ line ++ (newline ∷ rest)
        → (first_line (w.buffer ++ p) ≡ none
            → (write_chunks ps (record w { buffer = w.buffer ++ p })).sent ≡ some line)
        → (write_chunks ps (capture_line w (w.buffer ++ p) o)).sent ≡ some line
    go none e whole' later =
        ap (λ v. (write_chunks ps v).sent)
          (if-false {b = ltb 0 w.max && ltb w.max (length (w.buffer ++ p))} _ _
            (ground (arith, part_fits (w.buffer ++ p) (joined ps) line rest e whole')))
        ∙ later e
    go (some l) e whole' later =
        ap (λ (v : Capture). v.sent) (finished_stays ps (emit l w) refl)
        ∙ ap (sent_once l) u
        ∙ ap some (same_line (w.buffer ++ p) (joined ps) line rest l h e whole')

-- As launch makes it.
abbrev pub new_capture : ℕ → Capture
new_capture max = record { max = max; buffer = []; finished = false; sent = none }

-- However the output is cut into writes: if its first newline comes after at most as many bytes as
-- the writer allows, the text before that newline is what the channel receives.
pub first_line_sent :
    (max : ℕ) (ps : List Bytes) (line rest : Bytes)
    → no_newline line ≡ true
    → length line ≤ max
    → joined ps ≡ line ++ (newline ∷ rest)
    → (write_chunks ps (new_capture max)).sent ≡ some line
unfolding first_line
first_line_sent max ps line rest h small whole =
    rest_sent ps (new_capture max) line rest refl refl h small refl whole
