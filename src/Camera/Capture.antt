-- ===== src/Camera/Capture.antt =====
-- camera/camera.c: the camera and its four buffers.
use oskey_firmware.Prelude.{
  ℕ, zero, suc, ◌-◌, ◌%◌, Bool, true, false, not, ◌&&◌, ◌||◌, Option, none, some, List, [], ◌∷◌,
  ◌==◌, if◌then◌else◌, ltb, replicate, set, Code, value, fail, is_fail, einval, enodev, enotsup,
  ebusy, enomem, eacces,
}

-- `enum app_camera_state`
pub data CameraState : Type 0 where
  camera_disabled camera_initializing camera_ready camera_starting camera_active camera_error :
      CameraState

-- `struct video_format`, without its type.
pub record Format : Type 0 where
  pub pixelformat : ℕ
  pub width : ℕ
  pub height : ℕ
  pub pitch : ℕ
  pub size : ℕ

-- `struct video_format_cap`
pub record FormatCap : Type 0 where
  pub cap_pixelformat : ℕ
  pub width_min : ℕ
  pub width_max : ℕ
  pub width_step : ℕ
  pub height_min : ℕ
  pub height_max : ℕ
  pub height_step : ℕ

-- CAMERA_BUFFER_COUNT
abbrev pub buffer_count : ℕ
buffer_count = 4

-- What the file calls of the video driver, over its state `W`: readiness; the capabilities, with the
-- list of formats, none for NULL, and the number of buffers needed; the format, which it completes;
-- buffers, which are numbers; the stream; and the buffers that `video_dequeue` gives until it fails.
-- Then the two pixel formats.
pub record Video (W : Type 0) : Type 0 where
  pub is_ready : W → Bool
  pub get_caps : W → Code × Option (List FormatCap) × ℕ
  pub set_format : Format → W → Code × Format × W
  pub alloc : ℕ → W → Option ℕ × W
  pub enqueue : ℕ → W → Code × W
  pub dequeue : W → Code × Option ℕ × W
  pub drain : W → List ℕ × W
  pub video_release : ℕ → W → W
  pub stream_start : W → Code × W
  pub stream_stop : W → Code × W
  pub flush : W → Code × W
  pub rgb565 : ℕ
  pub rgb565x : ℕ

-- `camera_buffers`, `camera_in_use`, the driver's state, and a ghost: the states published, newest
-- first.
pub record Camera (W : Type 0) : Type 0 where
  pub buffers : List (Option ℕ)
  pub in_use : Bool
  pub world : W
  pub published : List CameraState

-- `app_camera_dimension_supported`
unfoldable pub dimension_supported : ℕ → ℕ → ℕ → ℕ → Bool
dimension_supported size minimum maximum step =
    if ltb size minimum || ltb maximum size
    then false
    else if step == 0
    then minimum == maximum
    else (size - minimum) % step == 0

abbrev pub is_taken : Option ℕ → Bool
is_taken none = false
is_taken (some b) = true

abbrev pub any_taken : List (Option ℕ) → Bool
any_taken [] = false
any_taken (slot ∷ rest) = is_taken slot || any_taken rest

abbrev pub holds : ℕ → Option ℕ → Bool
holds b none = false
holds b (some c) = c == b

-- The slot of a buffer is cleared, the first if there are several.
abbrev pub clear_slot : ℕ → List (Option ℕ) → List (Option ℕ)
clear_slot b [] = []
clear_slot b (slot ∷ rest) = if holds b slot then none ∷ rest else slot ∷ clear_slot b rest

module _ {W : Type 0} (video : Video W) where
  abbrev pub camera_publish : CameraState → Camera W → Camera W
  camera_publish s c = record c { published = s ∷ c.published }

  -- `app_camera_init`
  unfoldable pub camera_init : Camera W → Code × Camera W
  camera_init c =
      if not (video.is_ready c.world)
      then (fail enodev, camera_publish camera_error c)
      else (value 0, camera_publish camera_ready c)

  -- A capability serves the size in one of the two pixel formats.
  abbrev pub cap_serves : ℕ → ℕ → FormatCap → Bool
  cap_serves width height cap =
      (cap.cap_pixelformat == video.rgb565x || cap.cap_pixelformat == video.rgb565)
      && dimension_supported width cap.width_min cap.width_max cap.width_step
      && dimension_supported height cap.height_min cap.height_max cap.height_step

  unfoldable pub select_cap : ℕ → ℕ → List FormatCap → Code × Option Format
  select_cap width height [] = (fail enotsup, none)
  select_cap width height (cap ∷ rest) =
      let later = select_cap width height rest in
      if cap.cap_pixelformat == 0
      then (fail enotsup, none)
      else if cap_serves width height cap
      then (
        value 0,
        some (record {
          pixelformat = cap.cap_pixelformat;
          width = width;
          height = height;
          pitch = 0;
          size = 0;
        }),
      )
      else later

  abbrev pub select_from : ℕ → ℕ → Code × Option (List FormatCap) × ℕ → Code × Option Format
  select_from width height (rc, none, needed) = (if is_fail rc then rc else fail enotsup, none)
  select_from width height (rc, some caps, needed) =
      if is_fail rc then (rc, none) else select_cap width height caps

  -- `app_camera_select_rgb565_format`
  unfoldable pub select_rgb565_format : ℕ → ℕ → W → Code × Option Format
  select_rgb565_format width height w =
      if width == 0 || height == 0
      then (fail einval, none)
      else if not (video.is_ready w)
      then (fail enodev, none)
      else select_from width height (video.get_caps w)

  -- The loops of `app_camera_release_buffers`: over what the driver returns, and over the slots.
  unfoldable pub release_returned : List ℕ → Camera W → Camera W
  release_returned [] c = c
  release_returned (b ∷ rest) c =
      release_returned rest
        (record c { buffers = clear_slot b c.buffers; world = video.video_release b c.world })

  abbrev pub release_slots : List (Option ℕ) → W → W
  release_slots [] w = w
  release_slots (none ∷ rest) w = release_slots rest w
  release_slots (some b ∷ rest) w = release_slots rest (video.video_release b w)

  -- `app_camera_release_buffers`
  unfoldable pub release_buffers : Camera W → Camera W
  release_buffers c =
      let (returned, w) = video.drain c.world in
      let d = release_returned returned (record c { world = w }) in
      record d { world = release_slots d.buffers d.world; buffers = replicate buffer_count none }

  -- The loop of `app_camera_start` over the slots from `i` on, `n` of them.
  abbrev pub enqueue_slot : ℕ → Option ℕ × W → Camera W → Code × Camera W
  enqueue_slot i (none, w) c = (fail enomem, record c { buffers = set c.buffers i none; world = w })
  enqueue_slot i (some b, w) c =
      let (rc, w') = video.enqueue b w in
      (rc, record c { buffers = set c.buffers i (some b); world = w' })

  unfoldable pub fill_slots : ℕ → ℕ → ℕ → Camera W → Code × Camera W
  fill_slots zero i size c = (value 0, c)
  fill_slots (suc n) i size c =
      let (rc, d) = enqueue_slot i (video.alloc size c.world) c in
      let later = fill_slots n (suc i) size d in if is_fail rc then (rc, d) else later

  -- The labels `error` and `release_buffers` of `app_camera_start`.
  unfoldable pub start_failed : Code → Camera W → Code × Camera W
  start_failed rc c = (rc, record (camera_publish camera_error c) { in_use = false })

  unfoldable pub start_undone : Code → Camera W → Code × Camera W
  start_undone rc c =
      let (flushed, w) = video.flush c.world in
      let d = record c { world = w } in
      start_failed rc (if is_fail flushed then d else release_buffers d)

  -- From the start of the stream on.
  unfoldable pub start_stream : Camera W → Code × Camera W
  start_stream c =
      let (rc, w) = video.stream_start c.world in
      let (stopped, w') = video.stream_stop w in
      if not (is_fail rc)
      then (value 0, camera_publish camera_active (record c { world = w }))
      else if is_fail stopped
      then start_failed rc (record c { world = w' })
      else start_undone rc (record c { world = w' })

  -- From the format on.
  unfoldable pub start_format : Format → Camera W → Code × Camera W
  start_format format c =
      let (rc, complete, w) = video.set_format format c.world in
      let d = record c { world = w } in
      let (filled, e) = fill_slots buffer_count 0 complete.size d in
      if is_fail rc
      then start_failed rc d
      else if is_fail filled
      then start_undone filled e
      else start_stream e

  unfoldable pub start_checked : Format → Camera W → Code × Camera W
  start_checked format c =
      let d = camera_publish camera_starting c in
      let (rc, caps, needed) = video.get_caps c.world in
      if not (video.is_ready c.world)
      then start_failed (fail enodev) d
      else if is_fail rc
      then start_failed rc d
      else if ltb buffer_count needed
      then start_failed (fail enomem) d
      else start_format format d

  -- `app_camera_start`; the format is none for NULL.
  unfoldable pub camera_start : Option Format → Camera W → Code × Camera W
  camera_start none c = (fail einval, c)
  camera_start (some format) c =
      let d = record c { in_use = true } in
      if c.in_use
      then (fail ebusy, c)
      else if any_taken c.buffers
      then start_failed (fail ebusy) d
      else start_checked format d

  -- `app_camera_frame_get` and `app_camera_frame_release`
  unfoldable pub frame_get : Camera W → Code × Option ℕ × Camera W
  frame_get c =
      let (rc, b, w) = video.dequeue c.world in
      if not c.in_use then (fail eacces, none, c) else (rc, b, record c { world = w })

  unfoldable pub frame_release : Option ℕ → Camera W → Code × Camera W
  frame_release none c = (fail einval, c)
  frame_release (some b) c =
      let (rc, w) = video.enqueue b c.world in
      if not c.in_use then (fail einval, c) else (rc, record c { world = w })

  -- `app_camera_stop`
  unfoldable pub camera_stop : Camera W → Code × Camera W
  camera_stop c =
      let (stopped, w) = video.stream_stop c.world in
      let (flushed, w') = video.flush w in
      let d = release_buffers (record c { world = w' }) in
      if not c.in_use
      then (value 0, c)
      else if is_fail stopped
      then (stopped, camera_publish camera_error (record c { world = w }))
      else if is_fail flushed
      then (flushed, camera_publish camera_error (record c { world = w' }))
      else (value 0, camera_publish camera_ready (record d { in_use = false }))
