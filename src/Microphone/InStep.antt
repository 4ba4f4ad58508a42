-- ===== src/Microphone/InStep.antt =====
-- The capture, the ring and the sample rates stay in step, whatever function runs.
use oskey_firmware.Prelude.{
  ℕ, ◌≤◌, ◌≡◌, refl, sym, ap, ◌∙◌, Bool, true, false, not, ◌&&◌, ◌||◌, List, [], ◌∷◌, ◌++◌, ◌==◌,
  length, arith, if_both, if_cases, Code, is_fail, is_zero, ◌%◌,
}
use oskey_firmware.Microphone.Ring.{
  RingBuf, IsQueue, frame_bytes, block_size, ring_reset, ring_write, ring_read,
}
use oskey_firmware.Microphone.Capture.{
  Ports, Microphone, should_run, rate_supported, set_enabled, set_sample_rate, entropy_feed,
  entropy_fail, capture_start, capture_stop, take_block, is_failed, end_capture, check_capture,
  read_turn, wake_turn, turn, next_packet, sof, and_then,
}
use oskey_firmware.Microphone.Frames.{
  IsFramed, ring_write-IsFramed, ring_read-IsFramed, ring_reset-IsFramed, ring_read-IsPacket,
}

module _ {R W : Type 0} (ring : RingBuf R) (ports : Ports W) (capacity : ℕ) (bytes : R → List ℕ)
    (q : IsQueue ring capacity bytes) (whole : capacity % frame_bytes ≡ 0) (rates : List ℕ)
    (fitting : (rate : ℕ) → rate_supported rate rates ≡ true → block_size rate ≤ capacity) where
  -- The flag and the rate of the capture are the thread's own; without a capture the ring is empty;
  -- with one it holds whole frames; and the rates are supported.
  pub record IsInStep (m : Microphone R W) : Type 0 where
    pub same_running : m.running ≡ m.thread_running
    pub same_rate : m.running ≡ true → m.active_rate ≡ m.thread_rate
    pub quiet : m.running ≡ false → bytes m.stream.ring ≡ []
    pub framed : IsFramed ring capacity bytes q m.stream
    pub supported : rate_supported m.sample_rate rates ≡ true
    pub thread_supported : m.thread_running ≡ true → rate_supported m.thread_rate rates ≡ true

  -- What does not touch the capture keeps it in step.
  pub other-IsInStep :
      (m : Microphone R W)
      (enabled usb_active paused entropy_active devices_ready changed stopped : Bool) (w : W)
      (lent : ℕ)
      → IsInStep m
      → IsInStep (record m {
        enabled = enabled;
        usb_active = usb_active;
        paused = paused;
        entropy_active = entropy_active;
        devices_ready = devices_ready;
        changed = changed;
        stopped = stopped;
        world = w;
        lent = lent;
      })
  other-IsInStep m a b c d e f g w n s = record {
    same_running = s.same_running;
    same_rate = s.same_rate;
    quiet = s.quiet;
    framed = s.framed;
    supported = s.supported;
    thread_supported = s.thread_supported;
  }

  world-IsInStep : (m : Microphone R W) (w : W) → IsInStep m → IsInStep (record m { world = w })
  world-IsInStep m w s =
      other-IsInStep m m.enabled m.usb_active m.paused m.entropy_active m.devices_ready m.changed
        m.stopped w m.lent s

  entropy_feed-IsInStep :
      (block : List ℕ) (m : Microphone R W)
      → IsInStep m
      → IsInStep (entropy_feed ring ports block m)
  unfolding entropy_feed
  entropy_feed-IsInStep block m s = if_both IsInStep m.entropy_active (world-IsInStep m _ s) s

  entropy_fail-IsInStep :
      (e : Code) (m : Microphone R W) → IsInStep m → IsInStep (entropy_fail ring ports e m)
  unfolding entropy_fail
  entropy_fail-IsInStep e m s = if_both IsInStep m.entropy_active (world-IsInStep m _ s) s

  take_block-IsInStep :
      (rc : Code) (block : List ℕ) (m : Microphone R W)
      → m.thread_running ≡ true
      → IsInStep m
      → IsInStep (take_block ring ports rc block m)
  unfolding take_block
  take_block-IsInStep rc block m t s =
      if_cases IsInStep (is_zero rc && length block == block_size m.thread_rate) (λ e. written e)
        (λ e. s)
    where
      written :
          (is_zero rc && length block == block_size m.thread_rate) ≡ true
          → IsInStep
              (entropy_feed ring ports block (record m { stream = ring_write ring block m.stream }))
      written e =
          let l : length block ≡ block_size m.thread_rate = ground arith in
          let k = fitting m.thread_rate (s.thread_supported t) in
          let f =
            ring_write-IsFramed ring capacity bytes q block m.stream whole (omega arith)
              (omega arith) s.framed in
          entropy_feed-IsInStep block (record m { stream = ring_write ring block m.stream })
            (record {
              same_running = s.same_running;
              same_rate = s.same_rate;
              quiet = λ h. absurd (running_now h);
              framed = f;
              supported = s.supported;
              thread_supported = s.thread_supported;
            })
        where
          running_now : m.running ≡ false → ⊥
          running_now h = let r = s.same_running in ground arith

  capture_stop-IsInStep :
      (m : Microphone R W) (changed : Bool)
      → IsInStep m
      → IsInStep (record (capture_stop ring ports m) { thread_running = false; changed = changed })
  unfolding capture_stop ring_reset
  capture_stop-IsInStep m changed s = record {
    same_running = refl;
    same_rate = λ h. absurd (ground arith);
    quiet = λ h. q.reset_is m.stream.ring;
    framed = ring_reset-IsFramed ring capacity bytes q m.stream;
    supported = s.supported;
    thread_supported = λ h. absurd (ground arith);
  }

  check_capture-IsInStep :
      (rc : Code) (m : Microphone R W) → IsInStep m → IsInStep (check_capture ring ports rc m)
  unfolding check_capture end_capture
  check_capture-IsInStep rc m s =
      if_both IsInStep
        (not (should_run m) || is_failed ring ports rc || not (m.thread_rate == m.sample_rate))
        (capture_stop-IsInStep _ _
          (if_both IsInStep (is_failed ring ports rc) (entropy_fail-IsInStep rc m s) s))
        s

  read_turn-IsInStep :
      (m : Microphone R W)
      → m.thread_running ≡ true
      → IsInStep m
      → IsInStep (read_turn ring ports m)
  unfolding read_turn
  read_turn-IsInStep m t s =
      let (rc, block, w) = ports.i2s_read m.world in
      check_capture-IsInStep rc _
        (take_block-IsInStep rc block (record m { world = w }) t (world-IsInStep m w s))

  -- What the start of a capture leaves, for the thread to go on.
  abbrev HasStarted : Code × Microphone R W → Type 0
  HasStarted r =
      (is_fail r.0 ≡ true → IsInStep r.1)
      × (is_fail r.0 ≡ false → IsInStep (record r.1 { thread_running = true }))

  capture_start-HasStarted :
      (m : Microphone R W)
      → m.thread_running ≡ false
      → m.thread_rate ≡ m.sample_rate
      → IsInStep m
      → HasStarted (capture_start ring ports m.sample_rate m)
  unfolding capture_start ring_reset
  capture_start-HasStarted m t e s =
      let (rc, w) = and_then ports.i2s_start (
        and_then ports.codec_start (
          and_then (ports.codec_configure m.sample_rate)
            (ports.i2s_configure m.sample_rate (block_size m.sample_rate) m.world))) in
      if_cases HasStarted (is_fail rc) (λ f. (λ k. failed _, λ k. absurd (ground arith)))
        (λ f. (λ k. absurd (ground arith), λ k. begun w))
    where
      failed : (w : W) → IsInStep (record m { stream = ring_reset ring m.stream; world = w })
      failed w = record {
        same_running = s.same_running;
        same_rate = s.same_rate;
        quiet = λ h. q.reset_is m.stream.ring;
        framed = ring_reset-IsFramed ring capacity bytes q m.stream;
        supported = s.supported;
        thread_supported = s.thread_supported;
      }

      begun :
          (w : W)
          → IsInStep (record m {
            stream = ring_reset ring m.stream;
            world = w;
            active_rate = m.sample_rate;
            running = true;
            thread_running = true;
          })
      begun w = record {
        same_running = refl;
        same_rate = λ h. sym e;
        quiet = λ h. absurd (ground arith);
        framed = ring_reset-IsFramed ring capacity bytes q m.stream;
        supported = s.supported;
        thread_supported = λ h. ap (λ r. rate_supported r rates) e ∙ s.supported;
      }

  wake_turn-IsInStep :
      (m : Microphone R W)
      → m.thread_running ≡ false
      → IsInStep m
      → IsInStep (wake_turn ring ports m)
  unfolding wake_turn
  wake_turn-IsInStep m t s =
      let taken = record m { changed = false; thread_rate = m.sample_rate } in
      let (rc, u) = capture_start ring ports m.sample_rate taken in
      let (failed, begun) = capture_start-HasStarted taken t refl (stepped s) in
      if_both IsInStep (not (should_run m)) (unchanged s) (
        if_cases IsInStep (is_fail rc)
          (λ f. given (entropy_fail ring ports rc u) (entropy_fail-IsInStep rc u (failed f)))
          (λ f. read_turn-IsInStep (record u { thread_running = true }) refl (begun f)))
    where
      unchanged : IsInStep m → IsInStep (record m { changed = false })
      unchanged s =
          other-IsInStep m m.enabled m.usb_active m.paused m.entropy_active m.devices_ready false
            m.stopped m.world m.lent s

      given : (u : Microphone R W) → IsInStep u → IsInStep (record u { changed = true })
      given u s =
          other-IsInStep u u.enabled u.usb_active u.paused u.entropy_active u.devices_ready true
            u.stopped u.world u.lent s

      stepped : IsInStep m → IsInStep (record m { changed = false; thread_rate = m.sample_rate })
      stepped s = record {
        same_running = s.same_running;
        same_rate = λ h. absurd (let r = s.same_running in ground arith);
        quiet = s.quiet;
        framed = s.framed;
        supported = s.supported;
        thread_supported = λ h. s.supported;
      }

  pub turn-IsInStep : (m : Microphone R W) → IsInStep m → IsInStep (turn ring ports m)
  unfolding turn
  turn-IsInStep m s =
      if_cases IsInStep m.thread_running (λ t. read_turn-IsInStep m t s)
        (λ t. if_both IsInStep m.changed (wake_turn-IsInStep m t s) s)

  read-quiet :
      (m : Microphone R W)
      → IsInStep m
      → IsInStep (record m { stream = (ring_read ring m.sample_rate m.stream).1 })
  read-quiet m s = record {
    same_running = s.same_running;
    same_rate = s.same_rate;
    quiet = λ h.
        rest_nil _ _
          ((ring_read-IsPacket ring capacity bytes q m.sample_rate m.stream).in_order ∙ s.quiet h);
    framed = ring_read-IsFramed ring capacity bytes q m.sample_rate m.stream s.framed;
    supported = s.supported;
    thread_supported = s.thread_supported;
  }
    where
      rest_nil : (xs ys : List ℕ) → xs ++ ys ≡ [] → ys ≡ []
      rest_nil [] ys e = e
      rest_nil (x ∷ xs) ys e = absurd (ground arith)

  next_packet-IsInStep : (m : Microphone R W) → IsInStep m → IsInStep (next_packet ring ports m).1
  unfolding next_packet
  next_packet-IsInStep m s =
      if_both (λ (r : List ℕ × Microphone R W). IsInStep r.1)
        (m.enabled && m.running && m.active_rate == m.sample_rate) (read-quiet m s) s

  pub sof-IsInStep : (m : Microphone R W) → IsInStep m → IsInStep (sof ring ports m)
  unfolding sof
  sof-IsInStep m s =
      let (allocated, w) = ports.slab_alloc m.world in
      let (packet, t) = next_packet ring ports (record m { world = w }) in
      let k = world-IsInStep m w s in
      let n = next_packet-IsInStep (record m { world = w }) k in
      if_both IsInStep (not m.usb_active) s (
        if_both IsInStep (not allocated) k (
          other-IsInStep t t.enabled t.usb_active t.paused t.entropy_active t.devices_ready
            t.changed t.stopped (ports.usb_send packet t.world).1 _ n))

  pub set_enabled-IsInStep :
      (on : Bool) (m : Microphone R W) → IsInStep m → IsInStep (set_enabled ring ports on m)
  unfolding set_enabled ring_reset
  set_enabled-IsInStep true m s =
      other-IsInStep m true m.usb_active m.paused m.entropy_active m.devices_ready true m.stopped
        m.world m.lent s
  set_enabled-IsInStep false m s = record {
    same_running = s.same_running;
    same_rate = s.same_rate;
    quiet = λ h. q.reset_is m.stream.ring;
    framed = ring_reset-IsFramed ring capacity bytes q m.stream;
    supported = s.supported;
    thread_supported = s.thread_supported;
  }

  pub set_sample_rate-IsInStep :
      (clock : Bool) (rate : ℕ) (m : Microphone R W)
      → IsInStep m
      → IsInStep (set_sample_rate ring ports rates clock rate m).1
  unfolding set_sample_rate ring_reset
  set_sample_rate-IsInStep clock rate m s =
      let P : Code × Microphone R W → Type 0 = λ r. IsInStep r.1 in
      if_cases P (not clock || not (rate_supported rate rates)) (λ e. s)
        (λ e. if_both P (rate == m.sample_rate) s (record {
          same_running = s.same_running;
          same_rate = s.same_rate;
          quiet = λ h. q.reset_is m.stream.ring;
          framed = ring_reset-IsFramed ring capacity bytes q m.stream;
          supported = ground arith;
          thread_supported = s.thread_supported;
        }))
