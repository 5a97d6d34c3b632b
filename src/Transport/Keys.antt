-- ===== src/Transport/Keys.antt =====
-- The keys of the offline queue in internal/transport/transport.go: `queue/%020d`, and their order.
pub mod Order
use weaveplatform_agent_core.Base.{
  ℕ, zero, suc, ◌+◌, ◌-◌, ◌*◌, ◌/◌, ◌%◌, Bool, true, false, ◌&&◌, ◌||◌, Option, none, some, List,
  [], ◌∷◌, ◌++◌, codes, drop, length, has_prefix, ltb, leb, ◌==◌, if◌then◌else◌,
}
use weaveplatform_agent_core.Store.{Bytes}

-- %0wd: the last w decimal digits, with zeros in front.
unfoldable pub digits : ℕ → ℕ → Bytes
digits zero n = []
digits (suc w) n = digits w (n / 10) ++ ((48 + n % 10) ∷ [])

abbrev pub queue_prefix : Bytes
queue_prefix = codes "queue/"

unfoldable pub queue_key : ℕ → Bytes
queue_key id = queue_prefix ++ digits 20 id

abbrev pub is_digit : ℕ → Bool
is_digit c = leb 48 c && leb c 57

-- At most w digits, added to what was read.
unfoldable pub scan_digits : ℕ → ℕ → Bytes → ℕ
scan_digits zero n s = n
scan_digits (suc w) n [] = n
scan_digits (suc w) n (c ∷ s) =
    let more = scan_digits w (10 * n + (c - 48)) s in if is_digit c then more else n

abbrev pub starts_with_digit : Bytes → Bool
starts_with_digit [] = false
starts_with_digit (c ∷ s) = is_digit c

-- fmt.Sscanf(k, "queue/%020d", &n), on the keys that the queue writes: leading spaces
-- and numbers above 64 bits, which no such key has, are not treated as Sscanf treats them.
unfoldable pub scan_key : Bytes → Option ℕ
scan_key k =
    let body = drop 6 k in
    if has_prefix k queue_prefix && starts_with_digit body
    then some (scan_digits 20 0 body)
    else none

-- k1 <= k2, on byte strings.
unfoldable pub le_bytes : Bytes → Bytes → Bool
le_bytes [] t = true
le_bytes (c ∷ s) [] = false
le_bytes (c ∷ s) (d ∷ t) = ltb c d || (c == d && le_bytes s t)

unfoldable pub insert_key : Bytes → List Bytes → List Bytes
insert_key k [] = k ∷ []
insert_key k (j ∷ js) =
    let rest = insert_key k js in if le_bytes k j then k ∷ (j ∷ js) else j ∷ rest

-- sort.Strings
unfoldable pub sort_keys : List Bytes → List Bytes
sort_keys [] = []
sort_keys (k ∷ ks) = insert_key k (sort_keys ks)
