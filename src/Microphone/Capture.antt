-- ===== src/Microphone/Capture.antt =====
-- audio/microphone.c: the capture thread, the callbacks of USB, and the functions of the header.
use oskey_firmware.Prelude.{
  ℕ, suc, ◌-◌, ◌/◌, Bool, true, false, not, ◌&&◌, ◌||◌, List, [], ◌∷◌, ◌==◌, if◌then◌else◌, length,
  replicate, Code, value, fail, is_fail, is_zero, eagain, einval, enodev,
}
use oskey_firmware.Entropy.Source.{source_microphone}
use oskey_firmware.Entropy.Client.{Collector, feed_awaited, fail_awaited}
use oskey_firmware.Microphone.Ring.{
  RingBuf, Stream, frame_bytes, block_size, usb_packet_size, ring_reset, ring_write, ring_read,
}

-- What the file calls, over the state `W` behind it: the interface to the codec with its sample rate
-- and block size, the codec, one block read (and given back), the buffers for USB, and the collector.
pub record Ports (W : Type 0) : Type 0 where
  pub i2s_configure : ℕ → ℕ → W → Code × W
  pub codec_configure : ℕ → W → Code × W
  pub codec_start : W → Code × W
  pub i2s_start : W → Code × W
  pub codec_stop : W → W
  pub i2s_drop : W → W
  pub i2s_read : W → Code × List ℕ × W
  pub slab_alloc : W → Bool × W
  pub usb_send : List ℕ → W → Code × W
  pub collector : Collector W

-- The static variables with the two semaphores, the two variables of the thread, the state behind the
-- calls, and a ghost: the USB buffers allocated and not freed.
pub record Microphone (R W : Type 0) : Type 0 where
  pub enabled : Bool
  pub usb_active : Bool
  pub paused : Bool
  pub running : Bool
  pub entropy_active : Bool
  pub sample_rate : ℕ
  pub active_rate : ℕ
  pub devices_ready : Bool
  pub stream : Stream R
  pub changed : Bool
  pub stopped : Bool
  pub thread_running : Bool
  pub thread_rate : ℕ
  pub world : W
  pub lent : ℕ

module _ {R W : Type 0} where
  -- `microphone_should_run`
  abbrev pub should_run : Microphone R W → Bool
  should_run m = (m.enabled && m.usb_active || m.entropy_active) && not m.paused

  -- `microphone_get_sample_rate`; the flag is whether the clock is the microphone's.
  abbrev pub get_sample_rate : Bool → Microphone R W → ℕ
  get_sample_rate clock m = if clock then m.sample_rate else 0

  -- `microphone_terminal_update`; the flag is whether the terminal is the microphone's.
  unfoldable pub terminal_update : Bool → Bool → Microphone R W → Microphone R W
  terminal_update terminal on m =
      if terminal then record m { usb_active = on; changed = true } else m

  -- `microphone_usb_release`
  unfoldable pub usb_release : Bool → Microphone R W → Microphone R W
  usb_release terminal m = if terminal then record m { lent = m.lent - 1 } else m

  -- `app_microphone_init`; the flag is whether the three devices are ready.
  unfoldable pub microphone_init : Bool → Microphone R W → Code × Microphone R W
  microphone_init ready m =
      if not ready then (fail enodev, m) else (value 0, record m { devices_ready = true })

  -- `app_microphone_pause` up to its wait: whether it waits for the thread to stop.
  unfoldable pub pause : Microphone R W → Bool × Microphone R W
  pause m =
      let p = record m { paused = true; stopped = false } in
      if not m.running then (false, p) else (true, record p { changed = true })

  -- `app_microphone_resume`
  unfoldable pub resume : Microphone R W → Microphone R W
  resume m = record m { paused = false; changed = true }

  -- `app_microphone_entropy_start` and `app_microphone_entropy_stop`
  unfoldable pub entropy_start : Microphone R W → Code × Microphone R W
  entropy_start m =
      if not m.devices_ready
      then (fail enodev, m)
      else (value 0, record m { entropy_active = true; changed = true })

  unfoldable pub entropy_stop : Microphone R W → Microphone R W
  entropy_stop m = record m { entropy_active = false; changed = true }

abbrev pub rate_supported : ℕ → List ℕ → Bool
rate_supported rate [] = false
rate_supported rate (r ∷ rest) = r == rate || rate_supported rate rest

abbrev pub is_eagain : Code → Bool
is_eagain (fail eagain) = true
is_eagain _ = false

-- The next call of a chain that goes on while the result is 0.
abbrev pub and_then : {W : Type 0} → (W → Code × W) → Code × W → Code × W
and_then call (rc, w) = if is_zero rc then call w else (rc, w)

module _ {R W : Type 0} (ring : RingBuf R) (ports : Ports W) where
  -- `app_microphone_set_enabled`
  unfoldable pub set_enabled : Bool → Microphone R W → Microphone R W
  set_enabled on m = record m {
    enabled = on;
    stream = if on then m.stream else ring_reset ring m.stream;
    changed = true;
  }

  -- `microphone_set_sample_rate`, with the rates of the device tree.
  unfoldable pub set_sample_rate : List ℕ → Bool → ℕ → Microphone R W → Code × Microphone R W
  set_sample_rate rates clock rate m =
      if not clock || not (rate_supported rate rates)
      then (fail einval, m)
      else if rate == m.sample_rate
      then (value 0, m)
      else (
        value 0,
        record m { sample_rate = rate; stream = ring_reset ring m.stream; changed = true },
      )

  -- `microphone_entropy_feed` and `microphone_entropy_fail`
  unfoldable pub entropy_feed : List ℕ → Microphone R W → Microphone R W
  entropy_feed block m =
      let w =
        feed_awaited ports.collector source_microphone block (length block / frame_bytes) m.world in
      if m.entropy_active then record m { world = w } else m

  unfoldable pub entropy_fail : Code → Microphone R W → Microphone R W
  entropy_fail error m =
      let w = fail_awaited ports.collector source_microphone error m.world in
      if m.entropy_active then record m { world = w } else m

  -- `microphone_capture_start`
  unfoldable pub capture_start : ℕ → Microphone R W → Code × Microphone R W
  capture_start rate m =
      let cleared = record m { stream = ring_reset ring m.stream } in
      let (rc, w) = and_then ports.i2s_start (
        and_then ports.codec_start (
          and_then (ports.codec_configure rate)
            (ports.i2s_configure rate (block_size rate) m.world))) in
      if is_fail rc
      then (rc, record cleared { world = ports.i2s_drop (ports.codec_stop w) })
      else (value 0, record cleared { world = w; active_rate = rate; running = true })

  -- `microphone_capture_stop`
  unfoldable pub capture_stop : Microphone R W → Microphone R W
  capture_stop m = record m {
    running = false;
    active_rate = 0;
    world = ports.codec_stop (ports.i2s_drop m.world);
    stream = ring_reset ring m.stream;
    stopped = true;
  }

  -- A block read by the thread.
  unfoldable pub take_block : Code → List ℕ → Microphone R W → Microphone R W
  take_block rc block m =
      let t = entropy_feed block (record m { stream = ring_write ring block m.stream }) in
      if is_zero rc && length block == block_size m.thread_rate then t else m

  abbrev pub is_failed : Code → Bool
  is_failed rc = is_fail rc && not (is_eagain rc)

  -- The end of the capture, where it is no longer wanted, failed, or runs at another rate.
  unfoldable pub end_capture : Code → Microphone R W → Microphone R W
  end_capture rc m =
      let t = capture_stop (if is_failed rc then entropy_fail rc m else m) in
      record t { thread_running = false; changed = t.changed || should_run m }

  unfoldable pub check_capture : Code → Microphone R W → Microphone R W
  check_capture rc m =
      if not (should_run m) || is_failed rc || not (m.thread_rate == m.sample_rate)
      then end_capture rc m
      else m

  -- The part of the thread's loop from the read on.
  unfoldable pub read_turn : Microphone R W → Microphone R W
  read_turn m =
      let (rc, block, w) = ports.i2s_read m.world in
      check_capture rc (take_block rc block (record m { world = w }))

  -- The part before: the thread has taken the semaphore.
  unfoldable pub wake_turn : Microphone R W → Microphone R W
  wake_turn m =
      let taken = record m { changed = false } in
      let (rc, s) = capture_start m.sample_rate (record taken { thread_rate = m.sample_rate }) in
      if not (should_run m)
      then taken
      else if is_fail rc
      then record (entropy_fail rc s) { changed = true }
      else read_turn (record s { thread_running = true })

  -- A turn of the loop of `microphone_capture_thread`.
  unfoldable pub turn : Microphone R W → Microphone R W
  turn m = if m.thread_running then read_turn m else if m.changed then wake_turn m else m

  -- The packet of a USB frame: what was read, or silence.
  unfoldable pub next_packet : Microphone R W → List ℕ × Microphone R W
  next_packet m =
      let (bytes, s) = ring_read ring m.sample_rate m.stream in
      let silence = replicate (usb_packet_size m.sample_rate 0) 0 in
      if m.enabled && m.running && m.active_rate == m.sample_rate
      then (if length bytes == 0 then silence else bytes, record m { stream = s })
      else (silence, m)

  -- `microphone_sof`
  unfoldable pub sof : Microphone R W → Microphone R W
  sof m =
      let (allocated, w) = ports.slab_alloc m.world in
      let (packet, t) = next_packet (record m { world = w }) in
      let (rc, w') = ports.usb_send packet t.world in
      if not m.usb_active
      then m
      else if not allocated
      then record m { world = w }
      else record t { world = w'; lent = if is_fail rc then t.lent else suc t.lent }
