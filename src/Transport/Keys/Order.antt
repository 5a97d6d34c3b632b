-- ===== src/Transport/Keys/Order.antt =====
-- The zero-padded keys of internal/transport/transport.go in lexical order, and read back.
use native.Mathlib.Nat.{mul_left_comm}
use weaveplatform_agent_core.Base.{
  ℕ, zero, suc, ◌+◌, ◌*◌, ◌/◌, ◌%◌, ◌^◌, ◌<◌, true, ◌&&◌, some, [], ◌∷◌, ◌++◌, length,
  length-append, has_prefix, leb, if◌then◌else◌, if-true, ◌≡◌, refl, sym, ap, ◌∙◌, arith,
}
use weaveplatform_agent_core.Store.{Bytes}
use weaveplatform_agent_core.Transport.Keys.{
  digits, queue_prefix, queue_key, is_digit, scan_digits, starts_with_digit, scan_key, le_bytes,
}

length-digits : (w n : ℕ) → length (digits w n) ≡ w
unfolding digits
length-digits zero n = refl
length-digits (suc w) n =
    omega (arith, length-append (digits w (n / 10)) ((48 + n % 10) ∷ []), length-digits w (n / 10))

-- Of two texts of one length, what follows decides only where they are equal.
le_bytes-append :
    (s t : Bytes) (c d : ℕ)
    → length s ≡ length t
    → le_bytes (s ++ (c ∷ [])) (t ++ (d ∷ []))
      ≡ (if le_bytes s t && le_bytes t s then leb c d else le_bytes s t)
unfolding le_bytes
le_bytes-append [] [] c d h = ground arith
le_bytes-append [] (y ∷ t) c d h = ground arith
le_bytes-append (x ∷ s) [] c d h = ground arith
le_bytes-append (x ∷ s) (y ∷ t) c d h = ground (arith, le_bytes-append s t c d)

le_bytes-digits :
    (w a b : ℕ) → a < 10 ^ w → b < 10 ^ w → le_bytes (digits w a) (digits w b) ≡ leb a b
unfolding le_bytes digits
le_bytes-digits zero a b ha hb = ground arith
le_bytes-digits (suc w) a b ha hb =
    let p = le_bytes-digits w (a / 10) (b / 10) (omega arith) (omega arith) in
    let q = le_bytes-digits w (b / 10) (a / 10) (omega arith) (omega arith) in
    let last =
      le_bytes-append (digits w (a / 10)) (digits w (b / 10)) (48 + a % 10) (48 + b % 10)
        (length-digits w (a / 10) ∙ sym (length-digits w (b / 10))) in
    ground (arith, p, q, last)

le_bytes-prefix : (s t u : Bytes) → le_bytes (s ++ t) (s ++ u) ≡ le_bytes t u
unfolding le_bytes
le_bytes-prefix [] t u = refl
le_bytes-prefix (c ∷ s) t u = ground (arith, le_bytes-prefix s t u)

-- The lexical order of the queue's keys, by which the oldest is found, is the order of their numbers,
-- for every number of 64 bits.
pub le_bytes-queue_key :
    (a b : ℕ) → a < 2 ^ 64 → b < 2 ^ 64 → le_bytes (queue_key a) (queue_key b) ≡ leb a b
unfolding queue_key
le_bytes-queue_key a b ha hb =
    le_bytes-prefix queue_prefix (digits 20 a) (digits 20 b)
    ∙ le_bytes-digits 20 a b (omega arith) (omega arith)

snoc_append : (xs s : Bytes) (c : ℕ) → (xs ++ (c ∷ [])) ++ s ≡ xs ++ (c ∷ s)
snoc_append [] s c = refl
snoc_append (x ∷ xs) s c = ap (◌∷◌ x) (snoc_append xs s c)

times_ten : (a p : ℕ) → 10 * (a * p) ≡ a * (10 * p)
times_ten a p = mul_left_comm 10 a p

pow_step : (w : ℕ) → 10 ^ suc w ≡ 10 * 10 ^ w
pow_step w = omega arith

-- A digit is read into what was read.
scan_digit :
    (v acc n : ℕ) (s : Bytes)
    → scan_digits (suc v) acc ((48 + n % 10) ∷ s) ≡ scan_digits v (10 * acc + n % 10) s
unfolding scan_digits
scan_digit v acc n s =
    if-true {b = is_digit (48 + n % 10)} _ _ (ground arith)
    ∙ ap (λ x. scan_digits v (10 * acc + x) s) (omega arith)

-- Reading continues where it stopped.
scan_digits-digits :
    (w v t n acc : ℕ) (s : Bytes)
    → t ≡ w + v
    → n < 10 ^ w
    → scan_digits t acc (digits w n ++ s) ≡ scan_digits v (acc * 10 ^ w + n) s
unfolding digits
scan_digits-digits zero v t n acc s e h =
    let same : t ≡ v = omega arith in
    let sum : acc ≡ acc * 10 ^ 0 + n = omega arith in
    ap (λ u. scan_digits u acc s) same ∙ ap (λ u. scan_digits v u s) sum
scan_digits-digits (suc w) v t n acc s e h =
    let p = acc * 10 ^ w in
    let sum : 10 * (p + n / 10) + n % 10 ≡ acc * 10 ^ suc w + n =
      grind (arith, times_ten acc (10 ^ w), pow_step w) in
    ap (scan_digits t acc) (snoc_append (digits w (n / 10)) s (48 + n % 10))
    ∙ scan_digits-digits w (suc v) t (n / 10) acc ((48 + n % 10) ∷ s) (omega arith) (omega arith)
    ∙ scan_digit v (p + n / 10) n s
    ∙ ap (λ u. scan_digits v u s) sum

append_nil : (xs : Bytes) → xs ++ [] ≡ xs
append_nil [] = refl
append_nil (x ∷ xs) = ap (◌∷◌ x) (append_nil xs)

starts-append : (xs ys : Bytes) → starts_with_digit xs ≡ true → starts_with_digit (xs ++ ys) ≡ true
starts-append [] ys h = ground arith
starts-append (x ∷ xs) ys h = h

starts-digits : (w n : ℕ) → starts_with_digit (digits (suc w) n) ≡ true
unfolding digits
starts-digits zero n = ground arith
starts-digits (suc w) n =
    starts-append (digits (suc w) (n / 10)) ((48 + n % 10) ∷ []) (starts-digits w (n / 10))

-- The number of a key of the queue is read back from it, for every number of 64 bits.
pub scan_key-queue_key : (n : ℕ) → n < 2 ^ 64 → scan_key (queue_key n) ≡ some n
unfolding scan_key queue_key has_prefix scan_digits
scan_key-queue_key n h =
    if-true {b = has_prefix (queue_key n) queue_prefix && starts_with_digit (digits 20 n)} _ _
      (ground (arith, starts-digits 19 n))
    ∙ ap some (
        ap (scan_digits 20 0) (sym (append_nil (digits 20 n)))
        ∙ scan_digits-digits 20 0 20 n 0 [] (omega arith) (omega arith)
        ∙ omega arith)
