-- ===== src/Microphone/Tests.antt =====
-- The microphone's theorems at concrete runs.
use oskey_firmware.Prelude.{
  ℕ, suc, ◌+◌, ◌-◌, ◌*◌, ◌≤◌, ◌<◌, ◌≡◌, ◌⊎◌, refl, true, false, none, List, [], ◌∷◌, ◌++◌, arith,
  value, length, take, drop, replicate,
}
use oskey_firmware.Microphone.Ring.{RingBuf, IsQueue, Stream, ring_write, ring_read, block_size}
use oskey_firmware.Microphone.Capture.{Ports, Microphone, turn, pause, sof, rate_supported}
use oskey_firmware.Microphone.Frames.{ring_write-window, ring_read-frames}
use oskey_firmware.Microphone.InStep.{IsInStep}
use oskey_firmware.Microphone.Runs.{
  HasStopped, pause-HasStopped, Reach-IsInStep, here, next, turns, frame,
}

-- A queue of at most 640 bytes, as a list.
abbrev queue : RingBuf (List ℕ)
queue = record {
  space_get = λ r. 640 - length r;
  size_get = λ r. length r;
  get = λ n r. (take n r, drop n r);
  put = λ block r. r ++ take (640 - length r) block;
  reset = λ r. [];
}

queue-IsQueue : IsQueue queue 640 (λ r. r)
queue-IsQueue = record {
  size_is = λ r. refl;
  space_is = λ r. refl;
  get_is = λ n r. refl;
  get_leaves = λ n r. refl;
  put_is = λ block r. refl;
  reset_is = λ r. refl;
}

-- Devices that always answer, with silent blocks of 10 ms at 2 kHz.
abbrev devices : Ports ℕ
devices = record {
  i2s_configure = λ rate block w. (value 0, w);
  codec_configure = λ rate w. (value 0, w);
  codec_start = λ w. (value 0, w);
  i2s_start = λ w. (value 0, w);
  codec_stop = λ w. w;
  i2s_drop = λ w. w;
  i2s_read = λ w. (value 0, replicate 80 7, suc w);
  slab_alloc = λ w. (true, w);
  usb_send = λ packet w. (value 0, w);
  collector = record {
    app_snapshot = λ w. (w, value 0, none);
    app_feed = λ session source bytes units w. (w, value 0);
    app_fail = λ session source error w. w;
  };
}

abbrev listening : Microphone (List ℕ) ℕ
listening = record {
  enabled = true;
  usb_active = true;
  paused = false;
  running = false;
  entropy_active = false;
  sample_rate = 2000;
  active_rate = 0;
  devices_ready = true;
  stream = record { ring = []; stream_ready = false };
  changed = true;
  stopped = false;
  thread_running = false;
  thread_rate = 0;
  world = 0;
  lent = 0;
}

fitting : (rate : ℕ) → rate_supported rate (2000 ∷ []) ≡ true → block_size rate ≤ 640
fitting rate h = let e : rate ≡ 2000 = ground arith in rw e (omega arith)

listening-IsInStep :
    IsInStep queue devices 640 (λ r. r) queue-IsQueue refl (2000 ∷ []) fitting listening
listening-IsInStep = record {
  same_running = refl;
  same_rate = λ h. absurd (ground arith);
  quiet = λ h. refl;
  framed = record { within = omega arith; whole = refl };
  supported = refl;
  thread_supported = λ h. absurd (ground arith);
}

abbrev few : Stream (List ℕ)
few = record { ring = 1 ∷ 2 ∷ []; stream_ready = true }

abbrev many : Stream (List ℕ)
many = record { ring = replicate 90 1; stream_ready = true }

ring_write-window_example :
    (ring_write queue (3 ∷ []) few).ring ≡ drop (2 + 1 - 640) ((1 ∷ 2 ∷ []) ++ 3 ∷ [])
ring_write-window_example =
    ring_write-window queue 640 (λ r. r) queue-IsQueue (3 ∷ []) few (omega arith) (omega arith)

ring_read-frames_example :
    let (packet, t) = ring_read queue (2 * 1000) many in
    (packet ++ t.ring ≡ many.ring)
    × ((packet ≡ [])
        ⊎ (length packet ≡ 2 * 4)
        ⊎ ((length packet ≡ 2 * 4 + 4) × (2 * 200 < length many.ring))
        ⊎ ((length packet + 4 ≡ 2 * 4) × (length many.ring < 2 * 40)))
ring_read-frames_example =
    ring_read-frames queue 640 (λ r. r) queue-IsQueue 2 many (omega arith) (omega arith)

pause-HasStopped_example :
    let m = (pause (turn queue devices listening)).1 in
    HasStopped queue devices m (turn queue devices m)
pause-HasStopped_example = pause-HasStopped queue devices (turn queue devices listening)

Reach-IsInStep_example :
    IsInStep queue devices 640
      (λ r. r)
      queue-IsQueue
      refl
      (2000 ∷ [])
      fitting
      (sof queue devices (turn queue devices listening))
Reach-IsInStep_example =
    Reach-IsInStep queue devices 640 (λ r. r) queue-IsQueue refl (2000 ∷ []) fitting
      listening-IsInStep (next (next here turns) frame)
