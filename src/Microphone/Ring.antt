-- ===== src/Microphone/Ring.antt =====
-- audio/microphone.c: sizes, and the ring buffer between the capture thread and USB.
use oskey_firmware.Prelude.{
  ℕ, ◌+◌, ◌-◌, ◌*◌, ◌/◌, ◌≡◌, Bool, true, false, not, ◌||◌, List, [], ◌++◌, if◌then◌else◌, ltb, leb,
  length, take, drop, u32,
}

-- The ring buffer of the system, over its state `R`: free space, fill, taking bytes out, putting
-- bytes in, and clearing.
pub record RingBuf (R : Type 0) : Type 0 where
  pub space_get : R → ℕ
  pub size_get : R → ℕ
  pub get : ℕ → R → List ℕ × R
  pub put : List ℕ → R → R
  pub reset : R → R

-- What the system documents of it: a queue of bytes of a fixed capacity.
pub record IsQueue {R : Type 0} (ring : RingBuf R) (capacity : ℕ) (bytes : R → List ℕ)
    : Type 0 where
  pub size_is : (r : R) → ring.size_get r ≡ length (bytes r)
  pub space_is : (r : R) → ring.space_get r ≡ capacity - length (bytes r)
  pub get_is : (n : ℕ) (r : R) → (ring.get n r).0 ≡ take n (bytes r)
  pub get_leaves : (n : ℕ) (r : R) → bytes (ring.get n r).1 ≡ drop n (bytes r)
  pub put_is :
      (block : List ℕ) (r : R)
      → bytes (ring.put block r) ≡ bytes r ++ take (capacity - length (bytes r)) block
  pub reset_is : (r : R) → bytes (ring.reset r) ≡ []

-- MICROPHONE_BYTES_PER_FRAME
abbrev pub frame_bytes : ℕ
frame_bytes = 4

-- `microphone_block_size`: 10 ms.
abbrev pub block_size : ℕ → ℕ
block_size rate = u32 (u32 (rate * 10) / 1000 * frame_bytes)

-- `microphone_usb_packet_size`: 1 ms, with a frame more or less; less one is 2^32 - 1.
abbrev pub usb_packet_size : ℕ → ℕ → ℕ
usb_packet_size rate adjustment = u32 (u32 (rate / 1000 + adjustment) * frame_bytes)

abbrev pub minus_one : ℕ
minus_one = 4294967295

-- The size of the next packet, from the fill.
abbrev pub packet_for : ℕ → ℕ → ℕ
packet_for rate available =
    if ltb (u32 (block_size rate * 5)) available
    then usb_packet_size rate 1
    else if ltb available (block_size rate)
    then usb_packet_size rate minus_one
    else usb_packet_size rate 0

-- The ring, and `microphone_stream_ready`.
pub record Stream (R : Type 0) : Type 0 where
  pub ring : R
  pub stream_ready : Bool

module _ {R : Type 0} (ring : RingBuf R) where
  -- `microphone_ring_reset`
  unfoldable pub ring_reset : Stream R → Stream R
  ring_reset s = record { ring = ring.reset s.ring; stream_ready = false }

  -- `microphone_ring_write`
  unfoldable pub ring_write : List ℕ → Stream R → Stream R
  ring_write block s =
      let space = ring.space_get s.ring in
      let freed =
        if ltb space (length block) then (ring.get (length block - space) s.ring).1 else s.ring in
      record s { ring = ring.put block freed }

  -- `microphone_ring_read`: the bytes read.
  unfoldable pub ring_read : ℕ → Stream R → List ℕ × Stream R
  ring_read rate s =
      let available = ring.size_get s.ring in
      let ready = s.stream_ready || leb (u32 (block_size rate * 2)) available in
      let size = packet_for rate available in
      let (bytes, r) = ring.get size s.ring in
      if not ready
      then ([], record s { stream_ready = false })
      else if ltb available size
      then ([], record s { stream_ready = false })
      else (bytes, record { ring = r; stream_ready = true })
