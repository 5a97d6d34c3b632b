-- ===== src/HvChannel/Frame/Stream.antt =====
-- What a reader makes of what a writer wrote, and of a stream that ends early.
use weaveplatform_agent_core.Base.{
  ℕ, zero, suc, ◌+◌, ◌%◌, ◌^◌, ◌≤◌, ◌<◌, Option, some, List, [], ◌∷◌, ◌++◌, length, length-append,
  ◌-◌, Bool-cases, inl, inr, take, drop, ltb, ◌==◌, if◌then◌else◌, All, ◌≡◌, refl, sym, ap, ◌∙◌,
  subst, arith,
}
use weaveplatform_agent_core.HvChannel.Frame.{
  Bytes, max_frame_size, put_uint32, uint32, write_frame, ReadError, eof, unexpected_eof, got,
  failed, read_full, read_body, read_frame, read_frames, and_more,
}

pub take-append : (xs ys : Bytes) → take (length xs) (xs ++ ys) ≡ xs
take-append [] ys = refl
take-append (x ∷ xs) ys = ap (◌∷◌ x) (take-append xs ys)

pub drop-append : (xs ys : Bytes) → drop (length xs) (xs ++ ys) ≡ ys
drop-append [] ys = refl
drop-append (x ∷ xs) ys = drop-append xs ys

read_full-append : (xs ys : Bytes) → read_full (length xs) (xs ++ ys) ≡ got xs ys
unfolding read_full
read_full-append xs ys = ground (arith, length-append xs ys, take-append xs ys, drop-append xs ys)

uint32-put : (n : ℕ) → n ≤ max_frame_size → uint32 (put_uint32 (n % 2 ^ 32)) ≡ n
unfolding uint32 put_uint32
uint32-put n h = omega arith

-- The frame of a payload that fits.
abbrev pub framed : Bytes → Bytes
framed p = put_uint32 (length p % 2 ^ 32) ++ p

read_header :
    (p rest : Bytes)
    → read_full 4 (framed p ++ rest) ≡ got (put_uint32 (length p % 2 ^ 32)) (p ++ rest)
unfolding read_full put_uint32
read_header p rest = ground arith

read_frame-framed :
    (p rest : Bytes) → length p ≤ max_frame_size → read_frame (framed p ++ rest) ≡ got p rest
unfolding read_frame
read_frame-framed p rest fits =
    ap read_body (read_header p rest)
    ∙ ground (arith, uint32-put (length p) fits, read_full-append p rest)

-- The bytes of several frames, one behind the other.
abbrev pub all_framed : List Bytes → Bytes
all_framed [] = []
all_framed (p ∷ ps) = framed p ++ all_framed ps

write_frame-framed : (p : Bytes) → length p ≤ max_frame_size → write_frame p ≡ some (framed p)
unfolding write_frame
write_frame-framed p fits = ground arith

read_frames-framed :
    (ps : List Bytes) (fuel : ℕ)
    → All (λ p. length p ≤ max_frame_size) ps
    → length ps < fuel
    → read_frames fuel (all_framed ps) ≡ (ps, some eof)
unfolding read_frames
read_frames-framed ps zero fit h = absurd (omega arith)
read_frames-framed [] (suc fuel) fit h = unfold read_frame read_full in refl
read_frames-framed (p ∷ ps) (suc fuel) fit h =
    subst (λ r. and_more r (read_frames fuel) ≡ (p ∷ ps, some eof))
      (sym (read_frame-framed p (all_framed ps) fit.0))
      (ap (λ (r : List Bytes × Option ReadError). (p ∷ r.0, r.1))
        (read_frames-framed ps fuel fit.1 (omega arith)))

-- A stream of frames is read back as it was written: each payload of at most 512 MiB, in order, and
-- then a clean end, with any fuel above the number of frames; the writer wrote each as one frame.
pub read_frames-write_frame :
    (ps : List Bytes) (fuel : ℕ)
    → All (λ p. length p ≤ max_frame_size) ps
    → length ps < fuel
    → All (λ p. write_frame p ≡ some (framed p)) ps
      × (read_frames fuel (all_framed ps) ≡ (ps, some eof))
read_frames-write_frame ps fuel fit h = (written ps fit, read_frames-framed ps fuel fit h)
  where
    written :
        (qs : List Bytes)
        → All (λ p. length p ≤ max_frame_size) qs
        → All (λ p. write_frame p ≡ some (framed p)) qs
    written [] fits = tt
    written (q ∷ qs) fits = (write_frame-framed q fits.0, written qs fits.1)

length-take : (k : ℕ) (xs : Bytes) → k ≤ length xs → length (take k xs) ≡ k
length-take zero xs h = refl
length-take (suc k) [] h = absurd (omega arith)
length-take (suc k) (x ∷ xs) h = ap suc (length-take k xs (omega arith))

broken_header :
    (p : Bytes) (k : ℕ) → 0 < k → k < 4 → read_full 4 (take k (framed p)) ≡ failed unexpected_eof
unfolding read_full
broken_header p k pos short = ground (arith, length-take k (framed p) (length_framed p k short))
  where
    length_framed : (p : Bytes) (k : ℕ) → k < 4 → k ≤ length (framed p)
    length_framed p k h = unfold put_uint32 in omega arith

broken_body :
    (p : Bytes) (m : ℕ)
    → m < length p
    → read_full (length p) (take m p) ≡ (if m == 0 then failed eof else failed unexpected_eof)
unfolding read_full
broken_body p m short = ground (arith, length-take m p (omega arith))

whole_header :
    (p : Bytes) (m : ℕ)
    → read_full 4 (take (4 + m) (framed p)) ≡ got (put_uint32 (length p % 2 ^ 32)) (take m p)
unfolding read_full put_uint32
whole_header p m = ground arith

-- A frame that breaks off is never taken for a whole one, nor for a clean end of the stream, except
-- where it breaks off right behind the header: that stream reports EOF, as one that closed between
-- two frames does.
pub read_frame_broken :
    (p : Bytes) (k : ℕ)
    → length p ≤ max_frame_size
    → 0 < k
    → k < 4 + length p
    → read_frame (take k (framed p)) ≡ (if k == 4 then failed eof else failed unexpected_eof)
unfolding read_frame
read_frame_broken p k fits pos short = elim (Bool-cases (ltb k 4)) [
  | inl early ↦ ap read_body (broken_header p k pos (ground arith)) ∙ ground arith
  | inr late ↦
      let m = k - 4 in
      let is_sum : 4 + m ≡ k = ground arith in
      subst
        (λ j.
          read_body (read_full 4 (take j (framed p)))
          ≡ (if j == 4 then failed eof else failed unexpected_eof))
        is_sum
        (ap read_body (whole_header p m)
          ∙ ground (arith, uint32-put (length p) fits, broken_body p m (omega arith)))
]
