-- ===== src/Camera/Tests.antt =====
-- The camera and the scanner at concrete runs.
use oskey_firmware.Camera.Decoder.{Decoder, decoder_uninitialized, cropped, crop_row, crop_rows}
use oskey_firmware.Camera.Cropping.{crop_rows-fill}
use oskey_firmware.Prelude.{
  ◌<◌, length, replicate, ℕ, suc, ◌≡◌, refl, true, false, none, some, [], ◌∷◌, arith, value, fail,
  eio, ebusy, inl,
}
use oskey_firmware.Camera.Capture.{
  Video, Camera, Format, camera_start, camera_stop, fill_slots, start_format, start_checked,
  start_stream, start_failed,
}
use oskey_firmware.Camera.Scanner.{
  Optics, Scanner, scanner_stopped, waiting, scanner_start, qr_found, thread_turn, result_copy,
  wake, begin_capture, prepare, decoder_start, begin_decoder, begin_loop, frame, finish_session,
}
use oskey_firmware.Camera.Stuck.{IsStuck, here, next, stops, stuck_for_good}
use oskey_firmware.Camera.Results.{
  IsReported, IsHonest, IsTrue, Step, turns, found, started, result_copy-IsTrue,
}
use oskey_firmware.Camera.Results

abbrev qvga : Format
qvga = record { pixelformat = 1; width = 320; height = 240; pitch = 640; size = 153600 }

-- A driver whose stream neither starts nor stops; buffers are numbered.
abbrev broken : Video ℕ
broken = record {
  is_ready = λ w. true;
  get_caps = λ w. (value 0, some [], 2);
  set_format = λ f w. (value 0, f, w);
  alloc = λ size w. (some w, suc w);
  enqueue = λ b w. (value 0, w);
  dequeue = λ w. (value 0, none, w);
  drain = λ w. ([], w);
  video_release = λ b w. w;
  stream_start = λ w. (fail eio, w);
  stream_stop = λ w. (fail eio, w);
  flush = λ w. (value 0, w);
  rgb565 = 1;
  rgb565x = 2;
}

abbrev unused : Camera ℕ
unused = record {
  buffers = none ∷ none ∷ none ∷ none ∷ [];
  in_use = false;
  world = 0;
  published = [];
}

abbrev stranded : Camera ℕ
stranded = (camera_start broken (some qvga) unused).1

stranded-IsStuck : IsStuck broken stranded
unfolding camera_start start_checked start_format fill_slots start_stream start_failed
stranded-IsStuck = record { unused = refl; kept = refl }

stuck_for_good_example :
    (camera_start broken (some qvga) (camera_stop broken stranded).1).0 ≡ fail ebusy
stuck_for_good_example = stuck_for_good broken qvga stranded-IsStuck (next here stops)

-- A camera and a decoder that work.
abbrev optics : Optics ℕ
optics = record {
  select_format = λ width height w. (value 0, qvga, w);
  start = λ f w. (value 0, f, w);
  stop = λ w. (value 0, w);
  get = λ w. (value 0, 5 ∷ [], suc w);
  frame_done = λ w. (value 0, w);
  decoder_init = λ f w. (value 0, w);
  decoder_submit = λ bytes f id w. w;
  alloc_snapshot = λ size w. (true, w);
  uptime = λ w. w;
}

abbrev off : Scanner ℕ ℕ
off = record {
  requested = false;
  state = scanner_stopped;
  session = 0;
  preview = none;
  preview_size = 0;
  generation = 0;
  format = qvga;
  decoder_ready = false;
  result_session = 0;
  result_code = 0;
  control = false;
  thread = waiting;
  world = 0;
  events = [];
  reports = [];
}

-- A session in which the decoder reports the code 42.
abbrev scanned : Scanner ℕ ℕ
scanned = thread_turn optics (qr_found 42 1 (thread_turn optics (scanner_start true 0 off).2))

scanned_test : result_copy true 1 scanned ≡ (value 0, some 42)
unfolding scanner_start qr_found thread_turn wake begin_capture prepare decoder_start begin_decoder
    begin_loop frame finish_session result_copy
scanned_test = refl

result_copy-IsTrue_example : IsTrue optics 1 scanned (result_copy true 1 scanned)
result_copy-IsTrue_example =
    result_copy-IsTrue optics true 1 (inl refl)
      (Results.next
        (Results.next (Results.next (Results.next Results.here (started true 0)) turns)
          (found 42 1))
        turns)
      (omega arith)

-- A frame of four rows of four pixels.
abbrev tiny_format : Format
tiny_format = record { pixelformat = 1; width = 4; height = 4; pitch = 8; size = 32 }

abbrev new_decoder : Decoder
new_decoder = record {
  state = decoder_uninitialized;
  source = tiny_format;
  crop_x = 0;
  crop_y = 0;
  crop_width = 0;
  crop_height = 0;
  snapshot_pitch = 0;
  snapshot_size = 0;
  next_decode_ms = 0;
  session = 0;
  snapshot = [];
}

crop_rows-fill_example :
    let c = cropped tiny_format new_decoder in
    ((y : ℕ)
      → y < c.crop_height
      → length (crop_row y tiny_format c (replicate 32 0)) ≡ c.snapshot_pitch)
    × (length (crop_rows c.crop_height 0 tiny_format c (replicate 32 0)) ≡ c.snapshot_size)
crop_rows-fill_example = crop_rows-fill true tiny_format new_decoder (replicate 32 0) refl refl
