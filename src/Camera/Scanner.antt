-- ===== src/Camera/Scanner.antt =====
-- camera/qr_scanner.c: the scanner's thread, its sessions, the preview and the result.
use oskey_firmware.Prelude.{
  ℕ, ◌+◌, Bool, true, false, not, ◌&&◌, ◌||◌, Option, none, some, List, [], ◌∷◌, ◌==◌,
  if◌then◌else◌, ltb, leb, take, u32, Code, value, fail, is_fail, is_zero, einval, ealready, eagain,
  enospc, enoent, enotsup, enomem,
}
use oskey_firmware.Camera.Capture.{Format}

-- `enum app_qr_scanner_state`
pub data ScannerState : Type 0 where
  scanner_stopped scanner_starting scanner_running scanner_stopping scanner_result scanner_error :
      ScannerState

-- `struct app_qr_scanner_event`
pub record ScannerEvent : Type 0 where
  pub state : ScannerState
  pub session : ℕ
  pub error : Code

abbrev pub is_busy : ScannerState → Bool
is_busy scanner_starting = true
is_busy scanner_running = true
is_busy scanner_stopping = true
is_busy _ = false

abbrev pub is_over : ScannerState → Bool
is_over scanner_stopped = true
is_over scanner_error = true
is_over _ = false

abbrev pub is_underway : ScannerState → Bool
is_underway scanner_starting = true
is_underway scanner_running = true
is_underway _ = false

abbrev pub is_result : ScannerState → Bool
is_result scanner_result = true
is_result _ = false

-- The camera, the decoder, the heap and the clock, over the state `W` behind them. A frame is its
-- bytes; `decoder_init` is `app_qr_decoder_init` with the scanner's callback.
pub record Optics (W : Type 0) : Type 0 where
  pub select_format : ℕ → ℕ → W → Code × Format × W
  pub start : Format → W → Code × Format × W
  pub stop : W → Code × W
  pub get : W → Code × List ℕ × W
  pub frame_done : W → Code × W
  pub decoder_init : Format → W → Code × W
  pub decoder_submit : List ℕ → Format → ℕ → W → W
  pub alloc_snapshot : ℕ → W → Bool × W
  pub uptime : W → ℕ

-- What the thread does: it waits for its semaphore, or captures for a session with a format, until
-- when the preview is not due.
pub data Thread : Type 0 where
  waiting : Thread
  capturing : ℕ → Format → ℕ → Thread

-- The static variables, with codes of the type `Q`, the state behind the calls, and ghosts: the
-- events published, and the codes that the decoder reported with their sessions, newest first.
pub record Scanner (Q W : Type 0) : Type 0 where
  pub requested : Bool
  pub state : ScannerState
  pub session : ℕ
  pub preview : Option (List ℕ)
  pub preview_size : ℕ
  pub generation : ℕ
  pub format : Format
  pub decoder_ready : Bool
  pub result_session : ℕ
  pub result_code : Q
  pub control : Bool
  pub thread : Thread
  pub world : W
  pub events : List ScannerEvent
  pub reports : List (ℕ × Q)

abbrev pub same_format : Format → Format → Bool
same_format a b =
    a.width == b.width
    && a.height == b.height
    && a.pitch == b.pitch
    && a.size == b.size
    && a.pixelformat == b.pixelformat

abbrev pub is_eagain : Code → Bool
is_eagain (fail eagain) = true
is_eagain _ = false

module _ {Q W : Type 0} where
  -- `scanner_publish`
  abbrev pub scanner_publish : ScannerState → ℕ → Code → Scanner Q W → Scanner Q W
  scanner_publish state session error s = record s {
    state = state;
    events = record { state = state; session = session; error = error } ∷ s.events;
  }

  -- `scanner_qr_found`
  unfoldable pub qr_found : Q → ℕ → Scanner Q W → Scanner Q W
  qr_found code id s =
      let t = record s { reports = (id, code) ∷ s.reports } in
      if not (id == s.session) || not s.requested
      then t
      else record t { result_session = id; result_code = code; requested = false }

  -- `app_qr_scanner_start`: whether there is a pointer, the cleared code, and what is stored there.
  unfoldable pub scanner_start : Bool → Q → Scanner Q W → Code × Option ℕ × Scanner Q W
  scanner_start has_out cleared s =
      let id = u32 (s.session + 1) in
      let t =
        scanner_publish scanner_starting id (value 0) (record s {
          session = id;
          result_session = 0;
          result_code = cleared;
          requested = true;
        }) in
      if not has_out
      then (fail einval, none, s)
      else if is_busy s.state
      then (fail ealready, none, s)
      else (value 0, some id, record t { control = true })

  -- `app_qr_scanner_stop`
  unfoldable pub scanner_stop : Scanner Q W → Scanner Q W
  scanner_stop s =
      let t = record s { requested = false } in
      if is_over s.state
      then s
      else if is_underway s.state
      then scanner_publish scanner_stopping s.session (value 0) t
      else t

  -- `app_qr_scanner_get_format`, with whether there is a pointer.
  abbrev pub scanner_get_format : Bool → Scanner Q W → Code × Option Format
  scanner_get_format false s = (fail einval, none)
  scanner_get_format true s = elim s.preview [
    | none ↦ (fail eagain, none)
    | some bytes ↦ (value 0, some s.format)
  ]

  -- `app_qr_scanner_frame_copy`: the result, what is copied, and `*generation` after.
  unfoldable pub frame_copy : Bool → ℕ → ℕ → Scanner Q W → Code × Option (List ℕ) × ℕ
  frame_copy there size generation s =
      if not there then (fail einval, none, generation) else elim s.preview [
        | none ↦ (fail eagain, none, generation)
        | some bytes ↦
            if s.generation == 0
            then (fail eagain, none, generation)
            else if ltb size s.preview_size
            then (fail enospc, none, generation)
            else if generation == s.generation
            then (value 0, none, generation)
            else (value 0, some bytes, s.generation)
      ]

  -- `app_qr_scanner_result_copy`, with whether there is a pointer.
  unfoldable pub result_copy : Bool → ℕ → Scanner Q W → Code × Option Q
  result_copy there id s =
      if not there
      then (fail einval, none)
      else if not (id == s.result_session) || not (is_result s.state)
      then (fail enoent, none)
      else (value 0, some s.result_code)

module _ {Q W : Type 0} (optics : Optics W) where
  -- `scanner_prepare`; the contents of a new snapshot are not defined, and not read.
  abbrev pub prepare_from : Option (List ℕ) → Format → Scanner Q W → Code × Scanner Q W
  prepare_from (some bytes) format s =
      (if same_format format s.format then value 0 else fail enotsup, s)
  prepare_from none format s =
      let (allocated, w) = optics.alloc_snapshot format.size s.world in
      if not allocated then (fail enomem, record s { world = w }) else (
        value 0,
        record s { world = w; preview = some []; preview_size = format.size; format = format },
      )

  unfoldable pub prepare : Format → Scanner Q W → Code × Scanner Q W
  prepare format s = prepare_from s.preview format s

  -- `scanner_decoder_start`
  unfoldable pub decoder_start : Format → Scanner Q W → Code × Scanner Q W
  decoder_start format s =
      let (rc, w) = optics.decoder_init format s.world in
      if s.decoder_ready
      then (value 0, s)
      else (rc, record s { world = w; decoder_ready = is_zero rc })

  -- The end of the thread's turn, after `scanner_capture` returned.
  unfoldable pub finish_session : ℕ → Code → Scanner Q W → Scanner Q W
  finish_session id rc s =
      let t = record s { requested = false; thread = waiting } in
      if is_fail rc
      then scanner_publish scanner_error id rc t
      else scanner_publish (if s.result_session == id then scanner_result else scanner_stopped) id
          (value 0) t

  abbrev pub stop_finish : ℕ → Code → Scanner Q W → Scanner Q W
  stop_finish id rc s =
      let (stopped, w) = optics.stop s.world in
      finish_session id (if is_fail rc then rc else stopped) (record s { world = w })

  -- The part of `scanner_capture` before its loop.
  unfoldable pub begin_loop : ℕ → Format → Scanner Q W → Scanner Q W
  begin_loop id format s =
      scanner_publish scanner_running id (value 0)
        (record s { generation = 0; thread = capturing id format 0 })

  unfoldable pub begin_decoder : ℕ → Format → Code × Scanner Q W → Scanner Q W
  begin_decoder id format (rc, s) =
      let (rc', t) = decoder_start format s in
      if is_fail rc
      then stop_finish id rc s
      else if is_fail rc'
      then stop_finish id rc' t
      else begin_loop id format t

  unfoldable pub begin_capture : ℕ → Scanner Q W → Scanner Q W
  begin_capture id s =
      let (selected, format, w) = optics.select_format 320 240 s.world in
      let (started, format', w') = optics.start format w in
      if is_fail selected
      then finish_session id selected (record s { world = w })
      else if is_fail started
      then finish_session id started (record s { world = w' })
      else begin_decoder id format' (prepare format' (record s { world = w' }))

  -- The thread takes its semaphore.
  unfoldable pub wake : Scanner Q W → Scanner Q W
  wake s =
      let t = record s { control = false } in
      if not s.control
      then s
      else if not s.requested
      then scanner_publish scanner_stopped s.session (value 0) t
      else begin_capture s.session t

  -- A frame in the loop: the preview, if it is due, and the decoder.
  abbrev pub show : List ℕ → ℕ → Format → ℕ → Scanner Q W → Scanner Q W
  show bytes id format due s =
      let now = optics.uptime s.world in
      if leb due now
      then record s {
        preview = some (take s.preview_size bytes);
        generation = u32 (s.generation + 1);
        thread = capturing id format (now + 100);
      }
      else s

  abbrev pub use_frame : List ℕ → ℕ → Format → ℕ → Scanner Q W → Scanner Q W
  use_frame bytes id format due s =
      let t = show bytes id format due s in
      let u = record t { world = optics.decoder_submit bytes format id t.world } in
      let (rc, w) = optics.frame_done u.world in
      if is_fail rc then stop_finish id rc (record u { world = w }) else record u { world = w }

  unfoldable pub frame : ℕ → Format → ℕ → Scanner Q W → Scanner Q W
  frame id format due s =
      let (rc, bytes, w) = optics.get s.world in
      let t = record s { world = w } in
      if not s.requested || not (id == s.session)
      then stop_finish id (value 0) s
      else if is_eagain rc
      then t
      else if is_fail rc
      then stop_finish id rc t
      else use_frame bytes id format due t

  -- A turn of `scanner_thread`, or of the loop within.
  abbrev pub turn_of : Thread → Scanner Q W → Scanner Q W
  turn_of waiting s = wake s
  turn_of (capturing id format due) s = frame id format due s

  unfoldable pub thread_turn : Scanner Q W → Scanner Q W
  thread_turn s = turn_of s.thread s
