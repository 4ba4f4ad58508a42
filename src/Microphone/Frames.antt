-- ===== src/Microphone/Frames.antt =====
-- The ring of samples keeps the newest bytes in order, and gives the oldest ones in whole frames.
use mathlib.Core.Path.{subst}
use oskey_firmware.Prelude.{
  ℕ, ◌+◌, ◌-◌, ◌*◌, ◌%◌, ◌≤◌, ◌<◌, ◌≡◌, ◌⊎◌, inl, inr, refl, sym, ap, ◌∙◌, min, true, false, not,
  ◌||◌, List, [], ◌++◌, ltb, leb, length, drop, length-take, if_cases, u32, arith, Bool-cases,
  length-append, if_both,
}
use oskey_firmware.Prelude.Windows.{take_all, drop-append, length-drop, take-append-drop}
use oskey_firmware.Microphone.Ring.{
  RingBuf, IsQueue, Stream, frame_bytes, block_size, usb_packet_size, minus_one, ring_reset,
  ring_write, ring_read, packet_for,
}

module _ {R : Type 0} (ring : RingBuf R) (capacity : ℕ) (bytes : R → List ℕ)
    (q : IsQueue ring capacity bytes) where
  -- What a write leaves: a block goes behind the bytes in the ring, and where there is no room for it,
  -- as many of the oldest bytes are dropped.
  pub ring_write-window :
      (block : List ℕ) (s : Stream R)
      → length (bytes s.ring) ≤ capacity
      → length block ≤ capacity
      → bytes (ring_write ring block s).ring
        ≡ drop (length (bytes s.ring) + length block - capacity) (bytes s.ring ++ block)
  unfolding ring_write
  ring_write-window block s h k = elim (Bool-cases (ltb (ring.space_get s.ring) (length block))) [
    | inl e ↦ rw e (full e)
    | inr e ↦ rw e (roomy e)
  ]
    where
      over : ℕ
      over = length block - ring.space_get s.ring

      full :
          ltb (ring.space_get s.ring) (length block) ≡ true
          → bytes (ring.put block (ring.get over s.ring).1)
            ≡ drop (length (bytes s.ring) + length block - capacity) (bytes s.ring ++ block)
      full e =
          let sp = q.space_is s.ring in
          let g = q.get_leaves over s.ring in
          let l : length (bytes (ring.get over s.ring).1) ≡ length (bytes s.ring) - over =
            ap length g ∙ length-drop over (bytes s.ring) in
          let d : length (bytes s.ring) + length block - capacity ≡ over = ground arith in
          q.put_is block (ring.get over s.ring).1
          ∙ rw
              (
                take_all (capacity - length (bytes (ring.get over s.ring).1)) block (ground arith),
                g,
                d,
              )
              (sym (drop-append over (bytes s.ring) block (ground arith)))

      roomy :
          ltb (ring.space_get s.ring) (length block) ≡ false
          → bytes (ring.put block s.ring)
            ≡ drop (length (bytes s.ring) + length block - capacity) (bytes s.ring ++ block)
      roomy e =
          let sp = q.space_is s.ring in
          let d : length (bytes s.ring) + length block - capacity ≡ 0 = ground arith in
          q.put_is block s.ring
          ∙ rw (take_all (capacity - length (bytes s.ring)) block (ground arith), d) refl

  -- Whole frames, within the capacity.
  pub record IsFramed (s : Stream R) : Type 0 where
    pub within : length (bytes s.ring) ≤ capacity
    pub whole : length (bytes s.ring) % frame_bytes ≡ 0

  pub ring_write-IsFramed :
      (block : List ℕ) (s : Stream R)
      → capacity % frame_bytes ≡ 0
      → length block ≤ capacity
      → length block % frame_bytes ≡ 0
      → IsFramed s
      → IsFramed (ring_write ring block s)
  ring_write-IsFramed block s c k b f =
      let n = length (bytes s.ring) + length block in
      let l : length (bytes (ring_write ring block s).ring) ≡ n - (n - capacity) =
        ap length (ring_write-window block s f.within k)
        ∙ length-drop (n - capacity) (bytes s.ring ++ block)
        ∙ ap (λ i. i - (n - capacity)) (length-append (bytes s.ring) block) in
      let w = f.whole in let v = f.within in record { within = omega arith; whole = omega arith }

  -- What a read gives.
  pub record IsPacket (rate : ℕ) (old packet : List ℕ) (s : Stream R) : Type 0 where
    pub in_order : packet ++ bytes s.ring ≡ old
    pub sized : (packet ≡ []) ⊎ (length packet ≡ packet_for rate (length old))

  pub ring_read-IsPacket :
      (rate : ℕ) (s : Stream R)
      → let (packet, t) = ring_read ring rate s in IsPacket rate (bytes s.ring) packet t
  unfolding ring_read
  ring_read-IsPacket rate s =
      let size = packet_for rate (ring.size_get s.ring) in
      let ready = s.stream_ready || leb (u32 (block_size rate * 2)) (ring.size_get s.ring) in
      let P : List ℕ × Stream R → Type 0 = λ r. IsPacket rate (bytes s.ring) r.0 r.1 in
      if_both P (not ready) nothing
        (if_cases P (ltb (ring.size_get s.ring) size) (λ e. nothing) fitting)
    where
      le_of : (n k : ℕ) → ltb k n ≡ false → n ≤ k
      le_of n k e = ground arith

      min_le : (n k : ℕ) → n ≤ k → min n k ≡ n
      min_le n k h = omega arith

      nothing : IsPacket rate (bytes s.ring) [] (record s { stream_ready = false })
      nothing = record { in_order = refl; sized = inl refl }

      fitting :
          ltb (ring.size_get s.ring) (packet_for rate (ring.size_get s.ring)) ≡ false
          → let n = packet_for rate (ring.size_get s.ring) in
            IsPacket rate
              (bytes s.ring)
              (ring.get n s.ring).0
              (record { ring = (ring.get n s.ring).1; stream_ready = true })
      fitting e =
          let n = packet_for rate (ring.size_get s.ring) in
          let z = q.size_is s.ring in
          let g = q.get_is n s.ring in
          let d = q.get_leaves n s.ring in
          let small : n ≤ ring.size_get s.ring = le_of n (ring.size_get s.ring) e in
          record {
            in_order = rw (g, d) (take-append-drop n (bytes s.ring));
            sized = inr (
                ap length g
                ∙ length-take n (bytes s.ring)
                ∙ min_le n (length (bytes s.ring)) (subst (λ k. n ≤ k) z small)
                ∙ ap (packet_for rate) z);
          }

  usb_packet_size-whole : (rate a : ℕ) → usb_packet_size rate a % frame_bytes ≡ 0
  usb_packet_size-whole rate a = omega arith

  packet_for-whole : (rate n : ℕ) → packet_for rate n % frame_bytes ≡ 0
  packet_for-whole rate n =
      let P : ℕ → Type 0 = λ k. k % frame_bytes ≡ 0 in
      if_both P (ltb (u32 (block_size rate * 5)) n) (usb_packet_size-whole rate 1) (
        if_both P (ltb n (block_size rate)) (usb_packet_size-whole rate minus_one)
          (usb_packet_size-whole rate 0))

  pub ring_read-IsFramed :
      (rate : ℕ) (s : Stream R) → IsFramed s → IsFramed (ring_read ring rate s).1
  ring_read-IsFramed rate s f =
      let (packet, t) = ring_read ring rate s in
      let p = ring_read-IsPacket rate s in
      let l : length packet + length (bytes t.ring) ≡ length (bytes s.ring) =
        sym (length-append packet (bytes t.ring)) ∙ ap length p.in_order in
      let w = f.whole in
      let v = f.within in
      let part : length packet % frame_bytes ≡ 0 = elim p.sized [
        | inl e ↦ ap (λ xs. length xs % frame_bytes) e
        | inr e ↦ ap (λ k. k % frame_bytes) e ∙ packet_for-whole rate (length (bytes s.ring))
      ] in
      record { within = omega arith; whole = omega arith }

  pub ring_reset-IsFramed : (s : Stream R) → IsFramed (ring_reset ring s)
  unfolding ring_reset
  ring_reset-IsFramed s =
      let l : length (bytes (ring.reset s.ring)) ≡ 0 = ap length (q.reset_is s.ring) in
      record { within = omega arith; whole = omega arith }

  packet_for_cases :
      (rate n : ℕ)
      → (packet_for rate n ≡ usb_packet_size rate 0)
        ⊎ ((packet_for rate n ≡ usb_packet_size rate 1) × (u32 (block_size rate * 5) < n))
        ⊎ ((packet_for rate n ≡ usb_packet_size rate minus_one) × (n < block_size rate))
  packet_for_cases rate n = elim (Bool-cases (ltb (u32 (block_size rate * 5)) n)) [
    | inl e ↦ inr (inl (rw e refl, lt_of _ n e))
    | inr e ↦ elim (Bool-cases (ltb n (block_size rate))) [
      | inl f ↦ inr (inr (rw (e, f) refl, lt_of n _ f))
      | inr f ↦ inl (rw (e, f) refl)
    ]
  ]
    where
      lt_of : (a b : ℕ) → ltb a b ≡ true → a < b
      lt_of a b e = ground arith

  -- At a rate of whole kilohertz, above 0 and below 268435, a read takes the bytes off the front of the ring: none,
  -- or the frames of one millisecond, or one frame less where less than one block is there, or one
  -- more where more than five are.
  pub ring_read-frames :
      (khz : ℕ) (s : Stream R)
      → 0 < khz
      → khz < 268435
      → let (packet, t) = ring_read ring (khz * 1000) s in
        (packet ++ bytes t.ring ≡ bytes s.ring)
        × ((packet ≡ [])
            ⊎ (length packet ≡ khz * 4)
            ⊎ ((length packet ≡ khz * 4 + 4) × (khz * 200 < length (bytes s.ring)))
            ⊎ ((length packet + 4 ≡ khz * 4) × (length (bytes s.ring) < khz * 40)))
  ring_read-frames khz s p h =
      let rate = khz * 1000 in
      let n = length (bytes s.ring) in
      let r = ring_read-IsPacket rate s in
      let packet = (ring_read ring rate s).0 in
      let b : block_size rate ≡ khz * 40 = omega arith in
      let same : usb_packet_size rate 0 ≡ khz * 4 = omega arith in
      let more : usb_packet_size rate 1 ≡ khz * 4 + 4 = omega arith in
      let less : usb_packet_size rate minus_one + 4 ≡ khz * 4 = omega arith in
      let sizes = packet_for_cases rate n in
      (
        r.in_order,
        elim r.sized [
          | inl e ↦ inl e
          | inr e ↦ elim sizes [
            | inl f ↦ inr (inl (e ∙ f ∙ same))
            | inr (inl (f, k)) ↦ inr (inr (inl (e ∙ f ∙ more, omega arith)))
            | inr (inr (f, k)) ↦ inr (inr (inr (ap (λ i. i + 4) (e ∙ f) ∙ less, omega arith)))
          ]
        ],
      )
