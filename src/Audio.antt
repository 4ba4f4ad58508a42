-- ===== src/Audio.antt =====
-- audio/audio.c: the commands, the volume, and the beep that pauses the microphone. Pausing has the
-- proofs on what happens to the microphone of Microphone.
pub mod Pausing
mod Tests
use oskey_firmware.Prelude.{
  ℕ, Bool, true, false, not, List, [], ◌∷◌, if◌then◌else◌, ltb, Code, value, fail, is_fail, is_zero,
  enodev,
}
use oskey_firmware.Microphone.Ring.{RingBuf}
use oskey_firmware.Microphone.Capture.{Ports, Microphone, pause, resume, set_enabled}

-- `enum app_audio_state` and `struct app_audio_status`
pub data AudioState : Type 0 where
  audio_disabled audio_idle audio_playing : AudioState

pub record AudioStatus : Type 0 where
  pub state : AudioState
  pub volume : ℕ
  pub microphone_on : Bool

-- `enum app_audio_command_kind`
pub data AudioCommand : Type 0 where
  audio_none audio_beep audio_set_volume audio_set_microphone : AudioCommand

-- The static variables with CONFIG_OSKEY_MICROPHONE, whether the three work items are queued, the
-- microphone, and a ghost: the states published, newest first.
pub record Audio (R W : Type 0) : Type 0 where
  pub state : AudioState
  pub volume : ℕ
  pub codec_ready : Bool
  pub pending_volume : ℕ
  pub pending_on : Bool
  pub microphone_on : Bool
  pub beep_queued : Bool
  pub volume_queued : Bool
  pub microphone_queued : Bool
  pub microphone : Microphone R W
  pub published : List AudioStatus

module _ {R W : Type 0} where
  -- `audio_publish_state`
  unfoldable pub publish_audio : AudioState → Audio R W → Audio R W
  publish_audio state a = record a {
    state = state;
    published =
        record { state = state; volume = a.volume; microphone_on = a.microphone_on } ∷ a.published;
  }

  -- `audio_set_volume`; `set_property` is the codec's.
  unfoldable pub set_volume : (ℕ → W → W) → ℕ → Audio R W → Audio R W
  set_volume set_property volume a =
      let v = if ltb 100 volume then 100 else volume in
      let m = record a.microphone { world = set_property v a.microphone.world } in
      publish_audio a.state
        (record a { volume = v; microphone = if a.codec_ready then m else a.microphone })

  -- `audio_volume_work_handler`
  unfoldable pub volume_work : (ℕ → W → W) → Audio R W → Audio R W
  volume_work set_property a =
      set_volume set_property a.pending_volume (record a { volume_queued = false })

  -- `audio_beep_work_handler`: the pause, with whether it waits; and the rest, with the pause's result
  -- and `audio_beep`, whose result is not used.
  unfoldable pub beep_begin : Audio R W → Bool × Audio R W
  beep_begin a =
      let (waits, m) = pause a.microphone in
      (waits, record a { microphone = m; beep_queued = false })

  unfoldable pub beep_end : Code → (W → W) → Audio R W → Audio R W
  beep_end rc beep a =
      let p = publish_audio audio_playing a in
      let m = record p.microphone { world = beep p.microphone.world } in
      let q = publish_audio audio_idle (record p { microphone = m }) in
      if is_fail rc then a else record q { microphone = resume q.microphone }

  -- `audio_command_listener`
  unfoldable pub audio_command : AudioCommand → ℕ → Bool → Audio R W → Audio R W
  audio_command audio_none volume on a = a
  audio_command audio_beep volume on a = record a { beep_queued = true }
  audio_command audio_set_volume volume on a = record a {
    pending_volume = volume;
    volume_queued = true;
  }
  audio_command audio_set_microphone volume on a = record a {
    pending_on = on;
    microphone_queued = true;
  }

  -- `audio_notification_listener`; the flag is whether there is a kind.
  unfoldable pub audio_notification : Bool → Audio R W → Audio R W
  audio_notification some_kind a = if some_kind then record a { beep_queued = true } else a

  -- `app_audio_init`: whether the two devices are ready, what the codec's two calls return, and
  -- `app_microphone_init`'s result and microphone.
  unfoldable pub audio_init :
      Bool → Bool → Code → Code → Code × Microphone R W → Audio R W → Code × Audio R W
  audio_init i2s_ready codec_ready configured property (rc, m) a =
      let codec = if is_zero configured then property else configured in
      let b = record a { codec_ready = true; microphone = m } in
      if not i2s_ready
      then (fail enodev, a)
      else if not codec_ready
      then (fail enodev, a)
      else if is_fail codec
      then (codec, a)
      else if is_fail rc
      then (rc, b)
      else (value 0, publish_audio audio_idle b)

-- `audio_microphone_work_handler`
unfoldable pub microphone_work : {R W : Type 0} → RingBuf R → Ports W → Audio R W → Audio R W
microphone_work ring ports a =
    let b = record a {
      microphone_on = a.pending_on;
      microphone_queued = false;
      microphone = set_enabled ring ports a.pending_on a.microphone;
    } in
    publish_audio b.state b
