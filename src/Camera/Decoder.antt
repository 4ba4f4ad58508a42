-- ===== src/Camera/Decoder.antt =====
-- camera/qr_decoder.c: the crop of a frame for the decoder, and when a frame is taken.
use oskey_firmware.Prelude.{
  ℕ, zero, suc, ◌+◌, ◌-◌, ◌*◌, ◌/◌, Bool, true, false, not, ◌||◌, List, [], ◌++◌, ◌==◌,
  if◌then◌else◌, ltb, length, take, drop, u32, Code, value, fail, einval, ealready, enomem,
}
use oskey_firmware.Camera.Capture.{Format}

-- `enum qr_decoder_state`
pub data DecoderState : Type 0 where
  decoder_uninitialized decoder_idle decoder_ready decoder_decoding : DecoderState

-- The static variables that describe the frames, the crop and the snapshot, with the snapshot.
pub record Decoder : Type 0 where
  pub state : DecoderState
  pub source : Format
  pub crop_x : ℕ
  pub crop_y : ℕ
  pub crop_width : ℕ
  pub crop_height : ℕ
  pub snapshot_pitch : ℕ
  pub snapshot_size : ℕ
  pub next_decode_ms : ℕ
  pub session : ℕ
  pub snapshot : List ℕ

abbrev pub int_max : ℕ
int_max = 2147483647

abbrev pub size_max : ℕ
size_max = 4294967295

-- The formats that `app_qr_decoder_init` refuses; `known` is whether the pixel format is RGB565 or
-- RGB565X.
abbrev pub format_refused : Bool → Format → Bool
format_refused known f =
    not known
    || f.width == 0
    || ltb int_max f.width
    || f.height == 0
    || ltb int_max f.height
    || ltb (f.pitch / 2) f.width
    || ltb (size_max / f.width) f.height
    || ltb (size_max / f.pitch) f.height
    || ltb f.size (u32 (f.pitch * f.height))

-- Three quarters of a side, and where they begin.
abbrev pub crop_side : ℕ → ℕ
crop_side side = side - side / 4

abbrev pub crop_start : ℕ → ℕ
crop_start side = (side - crop_side side) / 2

abbrev pub is_uninitialized : DecoderState → Bool
is_uninitialized decoder_uninitialized = true
is_uninitialized _ = false

abbrev pub is_idle : DecoderState → Bool
is_idle decoder_idle = true
is_idle _ = false

abbrev pub cropped : Format → Decoder → Decoder
cropped f d = record d {
  state = decoder_idle;
  source = f;
  crop_x = crop_start f.width;
  crop_y = crop_start f.height;
  crop_width = crop_side f.width;
  crop_height = crop_side f.height;
  snapshot_pitch = u32 (crop_side f.width * 2);
  snapshot_size = u32 (u32 (crop_side f.width * 2) * crop_side f.height);
  next_decode_ms = 0;
}

-- `app_qr_decoder_init`, with whether its pointers are set, whether the pixel format is known, and
-- whether the decoder and the snapshot could be allocated.
unfoldable pub decoder_setup : Bool → Bool → Bool → Bool → Format → Decoder → Code × Decoder
decoder_setup there known quirc heap f d =
    let c = cropped f d in
    let undone = record c { state = decoder_uninitialized } in
    if not there || format_refused known f
    then (fail einval, d)
    else if crop_side f.width == 0 || crop_side f.height == 0
    then (fail einval, d)
    else if not (is_uninitialized d.state)
    then (fail ealready, d)
    else if ltb (size_max / c.snapshot_pitch) c.crop_height
    then (fail einval, undone)
    else if not quirc
    then (fail enomem, undone)
    else if not heap
    then (fail enomem, undone)
    else (value 0, c)

-- The rows from `y` on, `n` of them, of the loop in `app_qr_decoder_submit`.
abbrev pub crop_row : ℕ → Format → Decoder → List ℕ → List ℕ
crop_row y f d bytes =
    take d.snapshot_pitch (drop (d.crop_y * f.pitch + d.crop_x * 2 + y * f.pitch) bytes)

unfoldable pub crop_rows : ℕ → ℕ → Format → Decoder → List ℕ → List ℕ
crop_rows zero y f d bytes = []
crop_rows (suc n) y f d bytes = crop_row y f d bytes ++ crop_rows n (suc y) f d bytes

abbrev pub frame_refused : Format → Decoder → List ℕ → Bool
frame_refused f d bytes =
    not (f.pixelformat == d.source.pixelformat)
    || not (f.width == d.source.width)
    || not (f.height == d.source.height)
    || not (f.pitch == d.source.pitch)
    || ltb (length bytes) (u32 (f.pitch * f.height))

-- `app_qr_decoder_submit`, with whether its pointers are set, the time, and the interval between two
-- frames.
unfoldable pub decoder_take : Bool → ℕ → ℕ → List ℕ → Format → ℕ → Decoder → Code × Decoder
unfolding crop_rows
decoder_take there now interval bytes f session d =
    if not there || frame_refused f d bytes
    then (fail einval, d)
    else if ltb now d.next_decode_ms || not (is_idle d.state)
    then (value 0, d)
    else (
      value 1,
      record d {
        state = decoder_ready;
        snapshot = crop_rows d.crop_height 0 f d bytes;
        session = session;
        next_decode_ms = now + interval;
      },
    )
