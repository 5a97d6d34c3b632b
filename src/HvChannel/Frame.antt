-- ===== src/HvChannel/Frame.antt =====
-- `WriteFrame` and `ReadFrame` of sdk/hvchannel/hvchannel.go, on the bytes that cross the wire.
-- io.ReadFull and encoding/binary are written out as Go documents them.
pub mod Stream
use weaveplatform_agent_core.Base.{
  ℕ, zero, suc, ◌+◌, ◌*◌, ◌/◌, ◌%◌, ◌^◌, Bool, true, false, Option, none, some, List, [], ◌∷◌, ◌++◌,
  length, take, drop, ltb, leb, ◌==◌, if◌then◌else◌,
}

abbrev pub Bytes : Type 0
Bytes = List ℕ

-- 512 << 20
abbrev pub max_frame_size : ℕ
max_frame_size = 536870912

-- binary.BigEndian.PutUint32
unfoldable pub put_uint32 : ℕ → Bytes
put_uint32 n = (n / 16777216) % 256 ∷ (n / 65536) % 256 ∷ (n / 256) % 256 ∷ n % 256 ∷ []

-- binary.BigEndian.Uint32 of four bytes.
unfoldable pub uint32 : Bytes → ℕ
uint32 (a ∷ b ∷ c ∷ d ∷ _) = a * 16777216 + b * 65536 + c * 256 + d
uint32 _ = 0

-- The bytes written, `none` where the frame is too large.
unfoldable pub write_frame : Bytes → Option Bytes
write_frame payload =
    if ltb max_frame_size (length payload)
    then none
    else some (put_uint32 (length payload % 2 ^ 32) ++ payload)

pub data ReadError : Type 0 where
  eof unexpected_eof : ReadError
  too_large : ℕ → ReadError

pub data Read : Type 0 where
  -- the bytes read, and the stream behind them
  got : Bytes → Bytes → Read
  failed : ReadError → Read

-- io.ReadFull: EOF only if no byte was read.
unfoldable pub read_full : ℕ → Bytes → Read
read_full n stream =
    if leb n (length stream)
    then got (take n stream) (drop n stream)
    else if length stream == 0
    then failed eof
    else failed unexpected_eof

-- By the result of reading the header.
abbrev pub read_body : Read → Read
read_body (failed e) = failed e
read_body (got header rest) =
    if ltb max_frame_size (uint32 header)
    then failed (too_large (uint32 header))
    else read_full (uint32 header) rest

unfoldable pub read_frame : Bytes → Read
unfolding read_full
read_frame stream = read_body (read_full 4 stream)

abbrev pub and_more : Read → (Bytes → List Bytes × Option ReadError) → List Bytes × Option ReadError
and_more (failed e) more = ([], some e)
and_more (got payload rest) more = (payload ∷ (more rest).0, (more rest).1)

-- Frames until the stream fails, at most `fuel` of them; `none` where the fuel is used up.
unfoldable pub read_frames : ℕ → Bytes → List Bytes × Option ReadError
read_frames zero stream = ([], none)
read_frames (suc fuel) stream = and_more (read_frame stream) (read_frames fuel)
