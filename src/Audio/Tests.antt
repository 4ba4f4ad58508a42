-- ===== src/Audio/Tests.antt =====
-- A beep whose pause is not answered in time, at a concrete run.
use oskey_firmware.Prelude.{ℕ, ◌≡◌, refl, true, false, none, [], value, fail, eagain}
use oskey_firmware.Microphone.Ring.{RingBuf}
use oskey_firmware.Microphone.Capture.{Ports, Microphone, turn, pause}
use oskey_firmware.Audio.{
  Audio, audio_idle, audio_set_microphone, beep_begin, beep_end, audio_command,
}
use oskey_firmware.Audio.Pausing.{here, next, commands, IsSilent, failed_pause_lasts}

-- A ring that keeps only its fill, and devices that always answer.
abbrev tiny : RingBuf ℕ
tiny = record {
  space_get = λ r. 0;
  size_get = λ r. r;
  get = λ n r. ([], r);
  put = λ block r. r;
  reset = λ r. 0;
}

abbrev devices : Ports ℕ
devices = record {
  i2s_configure = λ rate block w. (value 0, w);
  codec_configure = λ rate w. (value 0, w);
  codec_start = λ w. (value 0, w);
  i2s_start = λ w. (value 0, w);
  codec_stop = λ w. w;
  i2s_drop = λ w. w;
  i2s_read = λ w. (fail eagain, [], w);
  slab_alloc = λ w. (true, w);
  usb_send = λ packet w. (value 0, w);
  collector = record {
    app_snapshot = λ w. (w, value 0, none);
    app_feed = λ session source bytes units w. (w, value 0);
    app_fail = λ session source error w. w;
  };
}

abbrev capturing : Microphone ℕ ℕ
capturing = record {
  enabled = true;
  usb_active = true;
  paused = false;
  running = true;
  entropy_active = false;
  sample_rate = 48000;
  active_rate = 48000;
  devices_ready = true;
  stream = record { ring = 0; stream_ready = false };
  changed = false;
  stopped = false;
  thread_running = true;
  thread_rate = 48000;
  world = 0;
  lent = 0;
}

abbrev playing : Audio ℕ ℕ
playing = record {
  state = audio_idle;
  volume = 50;
  codec_ready = true;
  pending_volume = 50;
  pending_on = true;
  microphone_on = true;
  beep_queued = true;
  volume_queued = false;
  microphone_queued = false;
  microphone = capturing;
  published = [];
}

abbrev begun : Audio ℕ ℕ
begun = (beep_begin playing).1

begun_paused : begun.microphone.paused ≡ true
unfolding beep_begin pause
begun_paused = refl

abbrev beeped : Audio ℕ ℕ
beeped = audio_command audio_set_microphone 0 true (beep_end (fail eagain) (λ w. w) begun)

-- The microphone is set on again before the thread's turn, and after it.
failed_pause_lasts_example :
    let b = record beeped { microphone = turn tiny devices beeped.microphone } in
    let c = audio_command audio_set_microphone 0 true b in
    ((turn tiny devices beeped.microphone).thread_running ≡ false)
    × IsSilent tiny devices c.microphone (turn tiny devices c.microphone)
failed_pause_lasts_example =
    failed_pause_lasts tiny devices (fail eagain) (λ w. w) begun refl begun_paused
      (next here (commands audio_set_microphone 0 true))
      (next here (commands audio_set_microphone 0 true))
