-- ===== src/Audio/Pausing.antt =====
-- A beep whose pause fails leaves the microphone paused.
use oskey_firmware.Prelude.{
  ℕ, ◌≡◌, ◌≢◌, refl, sym, ◌∙◌, if_cases, Bool, true, false, not, ◌&&◌, ◌||◌, List, ◌==◌, length,
  if_both, Code, is_fail, is_zero, arith,
}
use oskey_firmware.Microphone.Ring.{RingBuf, block_size, ring_write}
use oskey_firmware.Microphone.Capture.{
  Ports, Microphone, should_run, terminal_update, entropy_start, entropy_stop, rate_supported,
  set_enabled, set_sample_rate, entropy_feed, entropy_fail, capture_stop, take_block, is_failed,
  end_capture, check_capture, read_turn, wake_turn, turn, next_packet, sof, usb_release,
}
use oskey_firmware.Microphone.Runs.{idle_paused, turn-HasStopped}
use oskey_firmware.Audio.{
  Audio, AudioCommand, audio_none, audio_beep, audio_set_volume, audio_set_microphone,
  publish_audio, set_volume, volume_work, beep_end, audio_command, audio_notification,
  microphone_work,
}

true-ne-false : true ≢ false
true-ne-false e = cc

module _ {R W : Type 0} (ring : RingBuf R) (ports : Ports W) where
  abbrev pub IsPaused : Microphone R W → Type 0
  IsPaused m = m.paused ≡ true

  feed-IsPaused :
      (block : List ℕ) (m : Microphone R W)
      → IsPaused m
      → IsPaused (entropy_feed ring ports block m)
  unfolding entropy_feed
  feed-IsPaused block m p = if_both IsPaused m.entropy_active p p

  take_block-IsPaused :
      (rc : Code) (block : List ℕ) (m : Microphone R W)
      → IsPaused m
      → IsPaused (take_block ring ports rc block m)
  unfolding take_block
  take_block-IsPaused rc block m p =
      if_both IsPaused (is_zero rc && length block == block_size m.thread_rate)
        (feed-IsPaused block (record m { stream = ring_write ring block m.stream }) p) p

  check_capture-IsPaused :
      (rc : Code) (m : Microphone R W) → IsPaused m → IsPaused (check_capture ring ports rc m)
  unfolding check_capture end_capture capture_stop entropy_fail
  check_capture-IsPaused rc m p =
      if_both IsPaused
        (not (should_run m) || is_failed ring ports rc || not (m.thread_rate == m.sample_rate))
        (if_both IsPaused (is_failed ring ports rc) (if_both IsPaused m.entropy_active p p) p) p

  turn-IsPaused : (m : Microphone R W) → IsPaused m → IsPaused (turn ring ports m)
  unfolding turn read_turn wake_turn
  turn-IsPaused m p = if_both IsPaused m.thread_running read (if_both IsPaused m.changed idle p)
    where
      read : IsPaused (read_turn ring ports m)
      read =
          let (rc, block, w) = ports.i2s_read m.world in
          check_capture-IsPaused rc (take_block ring ports rc block (record m { world = w }))
            (take_block-IsPaused rc block (record m { world = w }) p)

      idle : IsPaused (wake_turn ring ports m)
      idle = let e : not (should_run m) ≡ true = ground arith in rw e p

  -- Paused, and if `ended` holds, with no capture in the thread.
  abbrev pub IsHeld : Bool → Microphone R W → Type 0
  IsHeld ended m = (m.paused ≡ true) × (ended ≡ true → m.thread_running ≡ false)

  turn-IsHeld :
      (ended : Bool) (m : Microphone R W) → m.paused ≡ true → IsHeld ended (turn ring ports m)
  turn-IsHeld ended m p = (turn-IsPaused m p, λ e. (turn-HasStopped ring ports m p).0)

  sof-IsHeld :
      (ended : Bool) (m : Microphone R W) → IsHeld ended m → IsHeld ended (sof ring ports m)
  unfolding sof next_packet
  sof-IsHeld ended m p = if_both (IsHeld ended) (not m.usb_active) p (
      if_both (IsHeld ended) (not (ports.slab_alloc m.world).0) p (
        if_both (λ (r : List ℕ × Microphone R W). IsHeld ended r.1)
          (m.enabled && m.running && m.active_rate == m.sample_rate) p p))

  -- What happens to the microphone but a pause and a resume, and what happens to audio but a beep.
  pub data Step (a : Audio R W) : Audio R W → Type 0 where
    turns : Step a (record a { microphone = turn ring ports a.microphone })
    frame : Step a (record a { microphone = sof ring ports a.microphone })
    terminal :
        (mine on : Bool) → Step a (record a { microphone = terminal_update mine on a.microphone })
    released : (mine : Bool) → Step a (record a { microphone = usb_release mine a.microphone })
    set_rate :
        (rates : List ℕ) (clock : Bool) (rate : ℕ)
        → Step a
            (record a { microphone = (set_sample_rate ring ports rates clock rate a.microphone).1 })
    starts : Step a (record a { microphone = (entropy_start a.microphone).1 })
    stops : Step a (record a { microphone = entropy_stop a.microphone })
    commands :
        (kind : AudioCommand) (volume : ℕ) (on : Bool) → Step a (audio_command kind volume on a)
    notifies : (some_kind : Bool) → Step a (audio_notification some_kind a)
    sets_volume : (set_property : ℕ → W → W) → Step a (volume_work set_property a)
    sets_microphone : Step a (microphone_work ring ports a)

  pub data Reach (start : Audio R W) : Audio R W → Type 0 where
    here : Reach start start
    next : {a b : Audio R W} → Reach start a → Step a b → Reach start b

  Step-IsHeld :
      (ended : Bool) {a b : Audio R W}
      → Step a b
      → IsHeld ended a.microphone
      → IsHeld ended b.microphone
  unfolding terminal_update usb_release set_sample_rate entropy_start entropy_stop audio_command
      audio_notification volume_work set_volume microphone_work publish_audio set_enabled
  Step-IsHeld ended {a = a} turns p = turn-IsHeld ended a.microphone p.0
  Step-IsHeld ended {a = a} frame p = sof-IsHeld ended a.microphone p
  Step-IsHeld ended (terminal mine on) p = if_both (IsHeld ended) mine p p
  Step-IsHeld ended (released mine) p = if_both (IsHeld ended) mine p p
  Step-IsHeld ended {a = a} (set_rate rates clock rate) p =
      let P : Code × Microphone R W → Type 0 = λ r. IsHeld ended r.1 in
      if_both P (not clock || not (rate_supported rate rates)) p
        (if_both P (rate == a.microphone.sample_rate) p p)
  Step-IsHeld ended {a = a} starts p =
      if_both (λ (r : Code × Microphone R W). IsHeld ended r.1) (not a.microphone.devices_ready) p p
  Step-IsHeld ended stops p = p
  Step-IsHeld ended (commands audio_none volume on) p = p
  Step-IsHeld ended (commands audio_beep volume on) p = p
  Step-IsHeld ended (commands audio_set_volume volume on) p = p
  Step-IsHeld ended (commands audio_set_microphone volume on) p = p
  Step-IsHeld ended (notifies true) p = p
  Step-IsHeld ended (notifies false) p = p
  Step-IsHeld ended {a = a} (sets_volume set_property) p = if_both (IsHeld ended) a.codec_ready p p
  Step-IsHeld ended sets_microphone p = p

  Reach-IsHeld :
      (ended : Bool) {a b : Audio R W}
      → Reach a b
      → IsHeld ended a.microphone
      → IsHeld ended b.microphone
  Reach-IsHeld ended here p = p
  Reach-IsHeld ended (next r s) p = Step-IsHeld ended s (Reach-IsHeld ended r p)

  -- A turn of the thread that captures nothing: it reads no block, feeds no collector and fills no
  -- ring, and starts no capture.
  abbrev pub IsSilent : Microphone R W → Microphone R W → Type 0
  IsSilent m t = (t.stream ≡ m.stream) × (t.world ≡ m.world) × (t.thread_running ≡ false)

  turn-IsSilent : (m : Microphone R W) → IsHeld true m → IsSilent m (turn ring ports m)
  unfolding turn wake_turn
  turn-IsSilent m (p, t) =
      if_cases (IsSilent m) m.thread_running (λ h. absurd (true-ne-false (sym h ∙ t refl)))
        (λ h.
          if_both (IsSilent m) m.changed (rw (idle_paused ring ports m p) (refl, refl, t refl))
            (refl, refl, t refl))

  -- If the capture does not end within the wait of the beep's pause, the microphone is not resumed.
  -- Until the next beep, whatever is called in whatever order, the next turn of the thread leaves no
  -- capture running, and from then on no turn captures: it changes neither the ring nor anything
  -- outside, so that neither USB nor the collector of entropy is given a block.
  pub failed_pause_lasts :
      (rc : Code) (beep : W → W) (a : Audio R W) {b c : Audio R W}
      → is_fail rc ≡ true
      → IsPaused a.microphone
      → Reach (beep_end rc beep a) b
      → Reach (record b { microphone = turn ring ports b.microphone }) c
      → ((turn ring ports b.microphone).thread_running ≡ false)
        × IsSilent c.microphone (turn ring ports c.microphone)
  unfolding beep_end
  failed_pause_lasts rc beep a {b} {c} e p r later =
      let q = (Reach-IsHeld false r (rw e (p, λ h. absurd cc))).0 in
      let held : IsHeld true (turn ring ports b.microphone) = turn-IsHeld true b.microphone q in
      (held.1 refl, turn-IsSilent c.microphone (Reach-IsHeld true later held))
