-- ===== src/Handshake.antt =====
-- The handshake between core and a module: sdk/handshake/handshake.go, on byte strings. White space
-- is ASCII's, and the numbers are those that strconv.ParseUint reads in base 10 for 32 bits.
pub mod RoundTrip
mod Tests
use weaveplatform_agent_core.Base.{
  ℕ, zero, suc, ◌+◌, ◌-◌, ◌*◌, ◌/◌, ◌%◌, ◌^◌, String, Bool, true, false, not, ◌&&◌, ◌||◌, Option,
  none, some, List, [], ◌∷◌, ◌++◌, codes, ltb, leb, ◌==◌, eq_bytes, if◌then◌else◌,
}
use weaveplatform_agent_core.Store.{Bytes}

abbrev pub network_unix : Bytes
network_unix = codes "unix"

abbrev pub network_pipe : Bytes
network_pipe = codes "npipe"

abbrev pub legacy_network_pipe : Bytes
legacy_network_pipe = codes "winpipe"

abbrev pub line_version : ℕ
line_version = 1

abbrev pub exit_protocol_unsupported : ℕ
exit_protocol_unsupported = 78

pub record Line : Type 0 where
  pub protocol : ℕ
  pub network : Bytes
  pub addr : Bytes

-- %d of a number below 2^64.
unfoldable pub decimal_in : ℕ → ℕ → Bytes
decimal_in zero n = []
decimal_in (suc places) n =
    let front = decimal_in places (n / 10) in
    if ltb n 10 then (48 + n) ∷ [] else front ++ ((48 + n % 10) ∷ [])

unfoldable pub decimal : ℕ → Bytes
decimal n = decimal_in 20 n

abbrev pub bar : ℕ
bar = 124

unfoldable pub format : Line → Bytes
format l =
    codes "WEAVE"
    ++ (bar
        ∷ (decimal line_version
            ++ (bar ∷ (decimal l.protocol ++ (bar ∷ (l.network ++ (bar ∷ l.addr)))))))

-- strings.Split(s, "|")
abbrev pub to_first : ℕ → List Bytes → List Bytes
to_first c [] = (c ∷ []) ∷ []
to_first c (part ∷ parts) = (c ∷ part) ∷ parts

unfoldable pub split_bar : Bytes → List Bytes
split_bar [] = [] ∷ []
split_bar (c ∷ s) = let parts = split_bar s in if c == bar then [] ∷ parts else to_first c parts

-- strings.TrimSpace, for ASCII white space
abbrev pub is_space : ℕ → Bool
is_space c = c == 32 || (leb 9 c && leb c 13)

unfoldable pub trim_left : Bytes → Bytes
trim_left [] = []
trim_left (c ∷ s) = let rest = trim_left s in if is_space c then rest else c ∷ s

abbrev pub is_empty : Bytes → Bool
is_empty [] = true
is_empty (c ∷ s) = false

unfoldable pub trim_right : Bytes → Bytes
trim_right [] = []
trim_right (c ∷ s) = let rest = trim_right s in if is_empty rest && is_space c then [] else c ∷ rest

unfoldable pub trim_space : Bytes → Bytes
trim_space s = trim_right (trim_left s)

-- The value of the digits after what was read; `none` at another byte.
unfoldable pub value_of : ℕ → Bytes → Option ℕ
value_of n [] = some n
value_of n (c ∷ s) =
    let more = value_of (10 * n + (c - 48)) s in if leb 48 c && leb c 57 then more else none

abbrev pub in_32_bits : Option ℕ → Option ℕ
in_32_bits none = none
in_32_bits (some n) = if ltb n (2 ^ 32) then some n else none

-- strconv.ParseUint(s, 10, 32)
unfoldable pub parse_uint : Bytes → Option ℕ
parse_uint [] = none
parse_uint (c ∷ s) = in_32_bits (value_of 0 (c ∷ s))

pub data Problem : Type 0 where
  malformed : Problem
  unsupported_version : Problem
  bad_protocol : Problem
  unknown_network : Problem
  empty_address : Problem

pub data Parsed : Type 0 where
  parsed : Line → Parsed
  rejected : Problem → Parsed

abbrev pub normal_network : Bytes → Bytes
normal_network network = if eq_bytes network legacy_network_pipe then network_pipe else network

abbrev pub parse_network : ℕ → Bytes → Bytes → Parsed
parse_network p network addr =
    if not (eq_bytes network network_unix) && not (eq_bytes network network_pipe)
    then rejected unknown_network
    else if is_empty addr
    then rejected empty_address
    else parsed (record { protocol = p; network = network; addr = addr })

abbrev pub parse_protocol : Option ℕ → Bytes → Bytes → Parsed
parse_protocol none network addr = rejected bad_protocol
parse_protocol (some p) network addr =
    if p == 0 then rejected bad_protocol else parse_network p (normal_network network) addr

abbrev pub parse_version : Option ℕ → Bytes → Bytes → Bytes → Parsed
parse_version none protocol network addr = rejected unsupported_version
parse_version (some v) protocol network addr =
    if v == line_version
    then parse_protocol (parse_uint protocol) network addr
    else rejected unsupported_version

abbrev pub parse_parts : List Bytes → Parsed
parse_parts [] = rejected malformed
parse_parts (a ∷ []) = rejected malformed
parse_parts (a ∷ b ∷ []) = rejected malformed
parse_parts (a ∷ b ∷ c ∷ []) = rejected malformed
parse_parts (a ∷ b ∷ c ∷ d ∷ []) = rejected malformed
parse_parts (a ∷ b ∷ c ∷ d ∷ e ∷ []) =
    if eq_bytes a (codes "WEAVE") then parse_version (parse_uint b) c d e else rejected malformed
parse_parts (a ∷ b ∷ c ∷ d ∷ e ∷ f ∷ more) = rejected malformed

unfoldable pub parse : Bytes → Parsed
parse s = parse_parts (split_bar (trim_space s))

pub record Window : Type 0 where
  pub min : ℕ
  pub max : ℕ

unfoldable pub contains : Window → ℕ → Bool
contains w p = leb w.min p && leb p w.max

abbrev pub window_of : Option ℕ → Option ℕ → Option Window
window_of none hi = none
window_of (some lo) none = none
window_of (some lo) (some hi) =
    if lo == 0 || ltb hi lo then none else some (record { min = lo; max = hi })

-- `ParseWindow`; `none` is an error.
unfoldable pub parse_window : Bytes → Bytes → Option Window
parse_window lo hi = window_of (parse_uint lo) (parse_uint hi)
