-- ===== src/Microphone/Runs.antt =====
-- The microphone over time: in step after any sequence of calls, and stopped by a pause.
use oskey_firmware.Prelude.{
  ℕ, ◌-◌, ◌≤◌, ◌%◌, ◌≡◌, refl, Bool, true, false, not, ◌&&◌, ◌||◌, List, ◌==◌, if◌then◌else◌,
  length, arith, if_both, if_cases, Code, is_zero,
}
use oskey_firmware.Microphone.Ring.{RingBuf, IsQueue, frame_bytes, block_size, ring_write}
use oskey_firmware.Microphone.Capture.{
  Ports, Microphone, should_run, terminal_update, pause, resume, entropy_start, entropy_stop,
  rate_supported, set_enabled, set_sample_rate, entropy_feed, capture_stop, take_block, is_failed,
  end_capture, check_capture, read_turn, wake_turn, turn, sof, usb_release,
}
use oskey_firmware.Microphone.InStep.{
  IsInStep, other-IsInStep, turn-IsInStep, sof-IsInStep, set_enabled-IsInStep,
  set_sample_rate-IsInStep,
}

module _ {R W : Type 0} (ring : RingBuf R) (ports : Ports W) where
  -- What happens: a turn of the thread, a frame of USB, or a call of one of the functions.
  pub data Step (rates : List ℕ) (m : Microphone R W) : Microphone R W → Type 0 where
    turns : Step rates m (turn ring ports m)
    frame : Step rates m (sof ring ports m)
    enable : (on : Bool) → Step rates m (set_enabled ring ports on m)
    set_rate :
        (clock : Bool) (rate : ℕ) → Step rates m (set_sample_rate ring ports rates clock rate m).1
    terminal : (mine on : Bool) → Step rates m (terminal_update mine on m)
    released : (mine : Bool) → Step rates m (usb_release mine m)
    pauses : Step rates m (pause m).1
    resumes : Step rates m (resume m)
    starts : Step rates m (entropy_start m).1
    stops : Step rates m (entropy_stop m)

  pub data Reach (rates : List ℕ) (start : Microphone R W) : Microphone R W → Type 0 where
    here : Reach rates start start
    next : {m t : Microphone R W} → Reach rates start m → Step rates m t → Reach rates start t

  -- The thread's capture has ended, and who waits for that is told.
  abbrev pub HasStopped : Microphone R W → Microphone R W → Type 0
  HasStopped m t =
      (t.thread_running ≡ false)
      × (m.thread_running ≡ true → (t.running ≡ false) × (t.stopped ≡ true))

  -- Paused, and with the thread running as before.
  abbrev IsPaused : Bool → Microphone R W → Type 0
  IsPaused on t = (t.paused ≡ true) × (t.thread_running ≡ on)

  feed-IsPaused :
      (on : Bool) (block : List ℕ) (m : Microphone R W)
      → IsPaused on m
      → IsPaused on (entropy_feed ring ports block m)
  unfolding entropy_feed
  feed-IsPaused on block m p = if_both (IsPaused on) m.entropy_active p p

  take_block-IsPaused :
      (on : Bool) (rc : Code) (block : List ℕ) (m : Microphone R W)
      → IsPaused on m
      → IsPaused on (take_block ring ports rc block m)
  unfolding take_block
  take_block-IsPaused on rc block m p =
      if_both (IsPaused on) (is_zero rc && length block == block_size m.thread_rate)
        (feed-IsPaused on block (record m { stream = ring_write ring block m.stream }) p) p

  pub idle_paused : (m : Microphone R W) → m.paused ≡ true → not (should_run m) ≡ true
  idle_paused m p = ground arith

  check_capture-HasStopped :
      (rc : Code) (m t : Microphone R W)
      → t.paused ≡ true
      → HasStopped m (check_capture ring ports rc t)
  unfolding check_capture end_capture capture_stop
  check_capture-HasStopped rc m t p =
      let b : (not (should_run t)
            || is_failed ring ports rc
            || not (t.thread_rate == t.sample_rate))
          ≡ true =
        rw (idle_paused t p) refl in
      rw b (refl, λ h. (refl, refl))

  pub turn-HasStopped : (m : Microphone R W) → m.paused ≡ true → HasStopped m (turn ring ports m)
  unfolding turn read_turn wake_turn
  turn-HasStopped m p = if_cases (HasStopped m) m.thread_running (λ t. ended t) (λ t. idle t)
    where
      ended : m.thread_running ≡ true → HasStopped m (read_turn ring ports m)
      ended t =
          let (rc, block, w) = ports.i2s_read m.world in
          let taken = take_block ring ports rc block (record m { world = w }) in
          check_capture-HasStopped rc m taken
            (take_block-IsPaused true rc block (record m { world = w }) (p, t)).0

      waiting : m.thread_running ≡ false → (c : Bool) → HasStopped m (record m { changed = c })
      waiting t c = (t, λ h. absurd cc)

      idle :
          m.thread_running ≡ false → HasStopped m (if m.changed then wake_turn ring ports m else m)
      idle t =
          if_both (HasStopped m) m.changed (rw (idle_paused m p) (waiting t false))
            (waiting t m.changed)

  -- After a pause, the next turn of the thread ends the capture, if there is one, and gives the
  -- semaphore that the pause waits for; and it starts none.
  pub pause-HasStopped :
      (m : Microphone R W) → let p = (pause m).1 in HasStopped p (turn ring ports p)
  unfolding pause
  pause-HasStopped m =
      let P : Bool × Microphone R W → Type 0 = λ r. r.1.paused ≡ true in
      turn-HasStopped (pause m).1 (if_both P (not m.running) refl refl)

module _ {R W : Type 0} (ring : RingBuf R) (ports : Ports W) (capacity : ℕ) (bytes : R → List ℕ)
    (q : IsQueue ring capacity bytes) (whole : capacity % frame_bytes ≡ 0) (rates : List ℕ)
    (fitting : (rate : ℕ) → rate_supported rate rates ≡ true → block_size rate ≤ capacity) where
  abbrev InStep : Microphone R W → Type 0
  InStep = IsInStep ring ports capacity bytes q whole rates fitting

  -- A call that leaves the capture alone.
  plain :
      (m : Microphone R W) (enabled usb_active paused entropy_active changed stopped : Bool)
      (lent : ℕ)
      → InStep m
      → InStep (record m {
        enabled = enabled;
        usb_active = usb_active;
        paused = paused;
        entropy_active = entropy_active;
        changed = changed;
        stopped = stopped;
        lent = lent;
      })
  plain m a b c d e f n i =
      other-IsInStep ring ports capacity bytes q whole rates fitting m a b c d m.devices_ready e f
        m.world n i

  Step-IsInStep : {m t : Microphone R W} → Step ring ports rates m t → InStep m → InStep t
  unfolding terminal_update pause resume entropy_start entropy_stop usb_release
  Step-IsInStep {m = m} turns i = turn-IsInStep ring ports capacity bytes q whole rates fitting m i
  Step-IsInStep {m = m} frame i = sof-IsInStep ring ports capacity bytes q whole rates fitting m i
  Step-IsInStep {m = m} (enable on) i =
      set_enabled-IsInStep ring ports capacity bytes q whole rates fitting on m i
  Step-IsInStep {m = m} (set_rate clock rate) i =
      set_sample_rate-IsInStep ring ports capacity bytes q whole rates fitting clock rate m i
  Step-IsInStep {m = m} (terminal mine on) i =
      if_both InStep mine (plain m m.enabled on m.paused m.entropy_active true m.stopped m.lent i) i
  Step-IsInStep {m = m} (released mine) i =
      if_both InStep mine
        (plain m m.enabled m.usb_active m.paused m.entropy_active m.changed m.stopped (m.lent - 1)
          i)
        i
  Step-IsInStep {m = m} pauses i =
      if_both (λ (r : Bool × Microphone R W). InStep r.1) (not m.running)
        (plain m m.enabled m.usb_active true m.entropy_active m.changed false m.lent i)
        (plain m m.enabled m.usb_active true m.entropy_active true false m.lent i)
  Step-IsInStep {m = m} resumes i =
      plain m m.enabled m.usb_active false m.entropy_active true m.stopped m.lent i
  Step-IsInStep {m = m} starts i =
      if_both (λ (r : Code × Microphone R W). InStep r.1) (not m.devices_ready) i
        (plain m m.enabled m.usb_active m.paused true true m.stopped m.lent i)
  Step-IsInStep {m = m} stops i =
      plain m m.enabled m.usb_active m.paused false true m.stopped m.lent i

  -- After any calls in any order, with a ring that has room for a block at each supported rate: the
  -- capture's flag and rate are those of the thread, a supported one; the ring holds whole frames, and
  -- nothing while there is no capture.
  pub Reach-IsInStep :
      {start m : Microphone R W} → InStep start → Reach ring ports rates start m → InStep m
  Reach-IsInStep i here = i
  Reach-IsInStep i (next r s) = Step-IsInStep s (Reach-IsInStep i r)
