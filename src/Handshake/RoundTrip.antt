-- ===== src/Handshake/RoundTrip.antt =====
-- `Format` and `Parse` of sdk/handshake/handshake.go against each other, and what `Parse` accepts.
use weaveplatform_agent_core.Base.{
  ℕ, zero, suc, ◌+◌, ◌-◌, ◌*◌, ◌/◌, ◌%◌, ◌^◌, ◌≤◌, ◌<◌, Bool, true, false, not, ◌&&◌, ◌||◌, Option,
  none, some, List, [], ◌∷◌, ◌++◌, all, codes, ltb, leb, ◌==◌, eq_bytes, eq_bytes_iff,
  eq_bytes_refl, if◌then◌else◌, if-both, if-true, if-false, Bool-cases, ◌≡◌, ◌⊎◌, inl, inr, refl,
  sym, ap, ◌∙◌, subst, arith,
}
use weaveplatform_agent_core.Store.{Bytes}
use weaveplatform_agent_core.Handshake.{
  network_unix, network_pipe, Line, line_version, decimal_in, decimal, bar, format, split_bar,
  trim_left, is_empty, trim_right, trim_space, value_of, in_32_bits, parse_uint, Parsed, parsed,
  rejected, normal_network, parse_network, parse_protocol, parse_version, parse_parts, parse,
  Window, window_of, parse_window,
}

abbrev read_next : Option ℕ → ℕ → Option ℕ
read_next none c = none
read_next (some n) c = if leb 48 c && leb c 57 then some (10 * n + (c - 48)) else none

value_of-append : (n c : ℕ) (s : Bytes) → value_of n (s ++ (c ∷ [])) ≡ read_next (value_of n s) c
unfolding value_of
value_of-append n c [] = refl
value_of-append n c (d ∷ s) = ground (arith, value_of-append (10 * n + (d - 48)) c s)

value_of-decimal :
    (places n : ℕ) → n < 10 ^ suc places → value_of 0 (decimal_in (suc places) n) ≡ some n
unfolding decimal_in value_of
value_of-decimal zero n h = ground arith
value_of-decimal (suc places) n h =
    if-both (λ x. value_of 0 x ≡ some n) (ltb n 10) _ _ (λ small. ground arith)
      (λ big.
        value_of-append 0 (48 + n % 10) (decimal_in (suc places) (n / 10))
        ∙ ap (λ o. read_next o (48 + n % 10)) (value_of-decimal places (n / 10) (omega arith))
        ∙ if-true {b = leb 48 (48 + n % 10) && leb (48 + n % 10) 57} _ _ (ground arith)
        ∙ ap some (omega arith))

is_empty-append : (s t : Bytes) → is_empty t ≡ false → is_empty (s ++ t) ≡ false
is_empty-append [] t h = h
is_empty-append (c ∷ s) t h = refl

decimal_in-full : (places n : ℕ) → is_empty (decimal_in (suc places) n) ≡ false
unfolding decimal_in
decimal_in-full places n =
    if-both (λ x. is_empty x ≡ false) (ltb n 10) _ _ (λ small. refl)
      (λ big. is_empty-append (decimal_in places (n / 10)) ((48 + n % 10) ∷ []) refl)

pub parse_uint-decimal : (n : ℕ) → n < 2 ^ 32 → parse_uint (decimal n) ≡ some n
unfolding decimal parse_uint
parse_uint-decimal n h =
    go (decimal_in 20 n) (decimal_in-full 19 n) (value_of-decimal 19 n (omega arith))
  where
    go : (s : Bytes) → is_empty s ≡ false → value_of 0 s ≡ some n → parse_uint s ≡ some n
    go [] full e = ground arith
    go (c ∷ s) full e = ap in_32_bits e ∙ if-true {b = ltb n (2 ^ 32)} _ _ (ground arith)

-- Of a text without the separator, one part is made.
unfoldable pub no_bar : Bytes → Bool
no_bar s = all (λ c. not (c == bar)) s

no_bar-append : (s t : Bytes) → no_bar s ≡ true → no_bar t ≡ true → no_bar (s ++ t) ≡ true
unfolding no_bar
no_bar-append [] t h k = k
no_bar-append (c ∷ s) t h k = ground (arith, no_bar-append s t)

no_bar-decimal : (places n : ℕ) → no_bar (decimal_in places n) ≡ true
unfolding no_bar decimal_in
no_bar-decimal zero n = refl
no_bar-decimal (suc places) n =
    if-both (λ x. no_bar x ≡ true) (ltb n 10) _ _ (λ small. ground arith)
      (λ big.
        no_bar-append (decimal_in places (n / 10)) ((48 + n % 10) ∷ [])
          (no_bar-decimal places (n / 10)) (ground arith))

split_bar-whole : (s : Bytes) → no_bar s ≡ true → split_bar s ≡ s ∷ []
unfolding split_bar no_bar
split_bar-whole [] h = refl
split_bar-whole (c ∷ s) h = ground (arith, split_bar-whole s)

split_bar-append : (s t : Bytes) → no_bar s ≡ true → split_bar (s ++ (bar ∷ t)) ≡ s ∷ split_bar t
unfolding split_bar no_bar
split_bar-append [] t h = refl
split_bar-append (c ∷ s) t h = ground (arith, split_bar-append s t)

trim_right-append :
    (s t : Bytes) → is_empty t ≡ false → trim_right t ≡ t → trim_right (s ++ t) ≡ s ++ t
unfolding trim_right
trim_right-append [] t full e = e
trim_right-append (c ∷ s) t full e =
    ground (arith, trim_right-append s t full e, is_empty-append s t full)

-- What `Format` prints for a line that a module may send.
pub record IsSendable (l : Line) : Type 0 where
  pub protocol_positive : 1 ≤ l.protocol
  pub protocol_32_bits : l.protocol < 2 ^ 32
  pub network_known : (l.network ≡ network_unix) ⊎ (l.network ≡ network_pipe)
  pub addr_full : is_empty l.addr ≡ false
  pub addr_no_bar : no_bar l.addr ≡ true
  pub addr_trimmed : trim_right l.addr ≡ l.addr

split_bar-format :
    (l : Line)
    → no_bar l.network ≡ true
    → no_bar l.addr ≡ true
    → split_bar (format l)
      ≡ codes "WEAVE" ∷ decimal line_version ∷ decimal l.protocol ∷ l.network ∷ l.addr ∷ []
unfolding format decimal no_bar
split_bar-format l hn ha =
    split_bar-append (codes "WEAVE") _ refl
    ∙ ap (λ r. codes "WEAVE" ∷ r)
        (split_bar-append (decimal 1) _ (no_bar-decimal 20 1)
          ∙ ap (λ r. decimal 1 ∷ r)
              (split_bar-append (decimal l.protocol) _ (no_bar-decimal 20 l.protocol)
                ∙ ap (λ r. decimal l.protocol ∷ r)
                    (split_bar-append l.network l.addr hn
                      ∙ ap (λ r. l.network ∷ r) (split_bar-whole l.addr ha))))

trim_bar :
    (s t : Bytes)
    → is_empty t ≡ false
    → trim_right t ≡ t
    → trim_right (s ++ (bar ∷ t)) ≡ s ++ (bar ∷ t)
trim_bar s t full e = trim_right-append s (bar ∷ t) refl (trim_right-append (bar ∷ []) t full e)

trim_space-format : (l : Line) → IsSendable l → trim_space (format l) ≡ format l
unfolding trim_space format trim_left
trim_space-format l h =
    let a = l.network ++ (bar ∷ l.addr) in
    let b = decimal l.protocol ++ (bar ∷ a) in
    let full_a = is_empty-append l.network (bar ∷ l.addr) refl in
    let full_b = is_empty-append (decimal l.protocol) (bar ∷ a) refl in
    trim_bar (codes "WEAVE") (decimal line_version ++ (bar ∷ b))
      (is_empty-append (decimal line_version) (bar ∷ b) refl)
      (trim_bar (decimal line_version) b full_b (
        trim_bar (decimal l.protocol) a full_a
          (trim_bar l.network l.addr h.addr_full h.addr_trimmed)))

network_no_bar : (n : Bytes) → (n ≡ network_unix) ⊎ (n ≡ network_pipe) → no_bar n ≡ true
unfolding no_bar
network_no_bar n (inl e) = ap no_bar e
network_no_bar n (inr e) = ap no_bar e

parse_network-known :
    (p : ℕ) (n addr : Bytes)
    → (n ≡ network_unix) ⊎ (n ≡ network_pipe)
    → is_empty addr ≡ false
    → parse_network p (normal_network n) addr
      ≡ parsed (record { protocol = p; network = n; addr = addr })
unfolding eq_bytes
parse_network-known p n addr (inl e) full =
    subst
      (λ m.
        parse_network p (normal_network m) addr
        ≡ parsed (record { protocol = p; network = m; addr = addr }))
      (sym e) (if-false _ _ full)
parse_network-known p n addr (inr e) full =
    subst
      (λ m.
        parse_network p (normal_network m) addr
        ≡ parsed (record { protocol = p; network = m; addr = addr }))
      (sym e) (if-false _ _ full)

-- A line whose protocol is positive and of 32 bits, whose network is unix or npipe, and whose address
-- is not empty, has no bar and does not end in white space, is read back from what Format prints.
pub parse-format : (l : Line) → IsSendable l → parse (format l) ≡ parsed l
unfolding parse no_bar
parse-format l h =
    ap (λ s. parse_parts (split_bar s)) (trim_space-format l h)
    ∙ ap parse_parts (split_bar-format l (network_no_bar l.network h.network_known) h.addr_no_bar)
    ∙ if-true {b = eq_bytes (codes "WEAVE") (codes "WEAVE")} _ _ (eq_bytes_refl (codes "WEAVE"))
    ∙ ap (λ o. parse_version o (decimal l.protocol) l.network l.addr)
        (parse_uint-decimal line_version (omega arith))
    ∙ ap (λ o. parse_protocol o l.network l.addr) (parse_uint-decimal l.protocol h.protocol_32_bits)
    ∙ if-false {b = l.protocol == 0} _ _ (ground (arith, h.protocol_positive))
    ∙ parse_network-known l.protocol l.network l.addr h.network_known h.addr_full

-- What the module's line says when it is accepted.
pub record IsAccepted (l : Line) : Type 0 where
  pub protocol_positive : 1 ≤ l.protocol
  pub protocol_32_bits : l.protocol < 2 ^ 32
  pub network_known : (l.network ≡ network_unix) ⊎ (l.network ≡ network_pipe)
  pub addr_full : is_empty l.addr ≡ false

parse_uint-bound : (s : Bytes) (n : ℕ) → parse_uint s ≡ some n → n < 2 ^ 32
unfolding parse_uint
parse_uint-bound [] n e = ground arith
parse_uint-bound (c ∷ s) n e = go (value_of 0 (c ∷ s)) e
  where
    go : (o : Option ℕ) → in_32_bits o ≡ some n → n < 2 ^ 32
    go none f = ground arith
    go (some m) f = ground arith

abbrev Accepts : Parsed → Type 0
Accepts (parsed l) = IsAccepted l
Accepts (rejected why) = Unit

network_accepted : (p : ℕ) (n addr : Bytes) → 1 ≤ p → p < 2 ^ 32 → Accepts (parse_network p n addr)
network_accepted p n addr positive small =
    if-both Accepts (not (eq_bytes n network_unix) && not (eq_bytes n network_pipe)) _ _
      (λ unknown. tt)
      (λ known.
        if-both Accepts (is_empty addr) _ _ (λ empty. tt)
          (λ full. record {
            protocol_positive = positive;
            protocol_32_bits = small;
            network_known = elim (Bool-cases (eq_bytes n network_unix)) [
              | inl unix ↦ inl ((eq_bytes_iff n network_unix).0 unix)
              | inr other ↦ inr ((eq_bytes_iff n network_pipe).0 (ground arith))
            ];
            addr_full = full;
          }))

protocol_accepted :
    (s n addr : Bytes) (o : Option ℕ) → parse_uint s ≡ o → Accepts (parse_protocol o n addr)
protocol_accepted s n addr none e = tt
protocol_accepted s n addr (some p) e =
    if-both Accepts (p == 0) _ _ (λ zero_protocol. tt)
      (λ positive.
        network_accepted p (normal_network n) addr (ground arith) (parse_uint-bound s p e))

version_accepted : (o : Option ℕ) (s n addr : Bytes) → Accepts (parse_version o s n addr)
version_accepted none s n addr = tt
version_accepted (some v) s n addr =
    if-both Accepts (v == line_version) _ _
      (λ known. protocol_accepted s n addr (parse_uint s) refl) (λ other. tt)

parts_accepted : (parts : List Bytes) → Accepts (parse_parts parts)
parts_accepted [] = tt
parts_accepted (a ∷ []) = tt
parts_accepted (a ∷ b ∷ []) = tt
parts_accepted (a ∷ b ∷ c ∷ []) = tt
parts_accepted (a ∷ b ∷ c ∷ d ∷ []) = tt
parts_accepted (a ∷ b ∷ c ∷ d ∷ e ∷ []) =
    if-both Accepts (eq_bytes a (codes "WEAVE")) _ _
      (λ weave. version_accepted (parse_uint b) c d e) (λ other. tt)
parts_accepted (a ∷ b ∷ c ∷ d ∷ e ∷ f ∷ more) = tt

-- Whatever bytes a module prints: a line that Parse accepts has a positive protocol of 32 bits, the
-- network unix or npipe, and an address.
pub parse-IsAccepted : (s : Bytes) (l : Line) → parse s ≡ parsed l → IsAccepted l
unfolding parse
parse-IsAccepted s l e = subst Accepts e (parts_accepted (split_bar (trim_space s)))

-- A window between positive numbers of 32 bits, the first no greater than the second, is read back
-- from its numbers in the environment.
pub parse_window-decimal :
    (w : Window)
    → 1 ≤ w.min
    → w.min ≤ w.max
    → w.max < 2 ^ 32
    → parse_window (decimal w.min) (decimal w.max) ≡ some w
unfolding parse_window
parse_window-decimal w positive ordered small =
    ap (λ o. window_of o (parse_uint (decimal w.max))) (parse_uint-decimal w.min (omega arith))
    ∙ ap (window_of (some w.min)) (parse_uint-decimal w.max small)
    ∙ if-false {b = w.min == 0 || ltb w.max w.min} _ _ (ground arith)
