-- ===== src/Imu/Acquisition.antt =====
-- imu/imu.c, without the statistics of CONFIG_OSKEY_LOG.
use oskey_firmware.Prelude.{
  ℕ, suc, Bool, true, false, not, ◌&&◌, ◌||◌, Option, none, some, List, [], ◌∷◌, ◌++◌, ◌==◌,
  if◌then◌else◌, ltb, leb, length, take, le32, Code, value, fail, is_fail, is_zero, einval, enodev,
  eoverflow, ebadmsg,
}
use oskey_firmware.Entropy.Source.{source_imu}
use oskey_firmware.Entropy.Client.{Collector, feed_awaited, fail_awaited}

-- `enum app_imu_state`
pub data ImuState : Type 0 where
  imu_disabled imu_initializing imu_idle imu_ready imu_error : ImuState

-- `enum app_imu_command_kind`
pub data ImuCommand : Type 0 where
  command_none command_start command_stop : ImuCommand

abbrev pub imu_index : ImuState → ℕ
imu_index imu_disabled = 0
imu_index imu_initializing = 1
imu_index imu_idle = 2
imu_index imu_ready = 3
imu_index imu_error = 4

-- `struct oskey_imu_source_sample`, with the axes as words of 32 bits.
pub record Sample : Type 0 where
  pub timestamp_ns : ℕ
  pub accel_ug : ℕ × ℕ × ℕ
  pub gyro_10udps : ℕ × ℕ × ℕ
  pub discontinuity : Bool

-- `struct oskey_imu_source_batch`
pub record Batch : Type 0 where
  pub count : ℕ
  pub samples : List Sample

-- `struct oskey_imu_source_info`
pub record SourceInfo : Type 0 where
  pub odr_millihz : ℕ
  pub poll_interval_us : ℕ
  pub gyro_fs_dps : ℕ

abbrev pub max_batch : ℕ
max_batch = 16

abbrev pub error_threshold : ℕ
error_threshold = 5

-- What the file calls: the fusion of the samples, over its state `F`; the sensor's driver, the two
-- channels and the entropy collector, over theirs, `W`.
pub record Ports (F W : Type 0) : Type 0 where
  pub restart : F → F
  pub update : Sample → F → F
  pub is_starting : F → Bool
  pub start : W → Code × W
  pub stop : W → Code × W
  pub read_batch : W → Code × Batch × W
  pub channel_pub : ImuState → W → Code × W
  pub publish_sample : Bool → F → W → W
  pub collector : Collector W

-- `struct imu_runtime`, `imu_state`, the timer, and ghosts: the samples processed since the last
-- start, newest first, and how often a failure was reported.
pub record Runtime (F W : Type 0) : Type 0 where
  pub fusion : F
  pub last_timestamp_ns : ℕ
  pub consecutive_errors : ℕ
  pub running : Bool
  pub state : ImuState
  pub timer : Bool
  pub world : W
  pub processed : List Sample
  pub reports : ℕ

-- `imu_clients`, a bit for each of the two clients.
pub record Clients : Type 0 where
  pub ui : Bool
  pub entropy : Bool

abbrev pub any_client : Clients → Bool
any_client c = c.ui || c.entropy

abbrev pub set_client : ℕ → Bool → Clients → Clients
set_client client on c = if client == 0 then record c { ui = on } else record c { entropy = on }

-- `imu_command_listener`, with whether it wakes the thread.
unfoldable pub command_listener : ImuCommand → ℕ → Clients → Clients × Bool
command_listener command_none client c = (c, false)
command_listener command_start client c =
    if leb 2 client then (c, false) else (set_client client true c, true)
command_listener command_stop client c =
    if leb 2 client then (c, false) else (set_client client false c, true)

abbrev pub sample_words : Sample → List ℕ
sample_words s =
    let (ax, ay, az) = s.accel_ug in
    let (gx, gy, gz) = s.gyro_10udps in
    le32 ax ++ le32 ay ++ le32 az ++ le32 gx ++ le32 gy ++ le32 gz

abbrev pub encode_samples : List Sample → List ℕ
encode_samples [] = []
encode_samples (s ∷ rest) = sample_words s ++ encode_samples rest

-- The first loop of `imu_process_batch`: the last time stamp, or none for -EBADMSG.
unfoldable pub check_samples : ℕ → List Sample → Option ℕ
check_samples last [] = some last
check_samples last (s ∷ rest) =
    let later = check_samples s.timestamp_ns rest in
    if s.timestamp_ns == 0 || not (last == 0) && not s.discontinuity && leb s.timestamp_ns last
    then none
    else later

module _ {F W : Type 0} (ports : Ports F W) where
  -- `imu_publish_state`
  unfoldable pub publish_imu_state : ImuState → Runtime F W → Runtime F W
  publish_imu_state state r =
      let (rc, w) = ports.channel_pub state r.world in
      if imu_index state == imu_index r.state
      then r
      else if is_fail rc
      then record r { world = w }
      else record r { world = w; state = state }

  -- `imu_feed_entropy`
  unfoldable pub feed_entropy : List Sample → W → W
  feed_entropy samples w =
      let fed =
        feed_awaited ports.collector source_imu (encode_samples samples) (length samples) w in
      if length samples == 0 then w else fed

  -- `imu_process_sample`
  unfoldable pub process_sample : Sample → Runtime F W → Runtime F W
  unfolding publish_imu_state
  process_sample s r =
      let f = ports.update s (if s.discontinuity then ports.restart r.fusion else r.fusion) in
      let valid = not (ports.is_starting f) in
      publish_imu_state (if valid then imu_ready else imu_initializing) (record r {
        fusion = f;
        world = ports.publish_sample valid f r.world;
        processed = s ∷ r.processed;
      })

  -- The second loop of `imu_process_batch`.
  unfoldable pub process_samples : List Sample → Runtime F W → Runtime F W
  unfolding process_sample
  process_samples [] r = r
  process_samples (s ∷ rest) r = process_samples rest (process_sample s r)

  abbrev pub finish_batch : List Sample → Option ℕ → Runtime F W → Code × Runtime F W
  finish_batch samples none r = (fail ebadmsg, r)
  finish_batch samples (some last) r =
      let t = process_samples samples r in
      (value 0, record t { world = feed_entropy samples t.world; last_timestamp_ns = last })

  -- `imu_process_batch`
  unfoldable pub process_batch : Batch → Runtime F W → Code × Runtime F W
  unfolding process_samples feed_entropy check_samples
  process_batch batch r =
      let samples = take batch.count batch.samples in
      let finished = finish_batch samples (check_samples r.last_timestamp_ns samples) r in
      if ltb max_batch batch.count then (fail eoverflow, r) else finished

  -- `imu_report_error`
  unfoldable pub report_error : Code → Runtime F W → Runtime F W
  unfolding publish_imu_state
  report_error error r =
      let t = publish_imu_state imu_error r in
      record t {
        world = fail_awaited ports.collector source_imu error t.world;
        reports = suc t.reports;
      }

  abbrev pub restarted : W → Runtime F W → Runtime F W
  restarted w r = record r {
    running = true;
    last_timestamp_ns = 0;
    consecutive_errors = 0;
    fusion = ports.restart r.fusion;
    timer = true;
    world = w;
    processed = [];
  }

  -- `imu_start_source`
  unfoldable pub start_source : Runtime F W → Code × Runtime F W
  unfolding publish_imu_state
  start_source r =
      let (rc, w) = ports.start r.world in
      if is_fail rc
      then (rc, record r { world = w })
      else (value 0, publish_imu_state imu_initializing (restarted w r))

  -- `imu_stop_source`
  unfoldable pub stop_source : Runtime F W → Runtime F W
  stop_source r =
      let (rc, w) = ports.stop r.world in
      if r.running then record r { timer = false; world = w; running = false } else r

  -- The parts of `imu_handle_failure`: the count, the report, and what follows the count.
  abbrev pub one_more : Runtime F W → Runtime F W
  one_more r = record r { consecutive_errors = suc r.consecutive_errors }

  unfoldable pub count_error : Runtime F W → Runtime F W
  count_error r = if ltb r.consecutive_errors error_threshold then one_more r else r

  unfoldable pub report_once : Code → Runtime F W → Runtime F W
  report_once error r =
      if r.consecutive_errors == error_threshold then one_more (report_error error r) else r

  unfoldable pub settle_failure : Code → Runtime F W → Runtime F W
  settle_failure error r =
      if ltb r.consecutive_errors error_threshold then r else stop_source (report_once error r)

  -- `imu_handle_failure`
  unfoldable pub handle_failure : Code → Runtime F W → Runtime F W
  handle_failure error r = settle_failure error (count_error r)

  abbrev pub end_turn : Code × Runtime F W → Runtime F W
  end_turn (rc, r) = if is_fail rc then handle_failure rc r else record r { consecutive_errors = 0 }

  -- A turn of the loop of `imu_thread`; the flags are whether there are clients when it starts, and
  -- when a wait within it ends.
  unfoldable pub turn : Bool → Bool → Runtime F W → Runtime F W
  unfolding publish_imu_state stop_source start_source handle_failure process_batch
  turn wanted still r =
      let (started, t) = start_source r in
      let (rc, batch, w) = ports.read_batch r.world in
      let s = record r { world = w } in
      let ended = end_turn (if is_zero rc then process_batch batch s else (rc, s)) in
      if not wanted
      then publish_imu_state imu_idle (stop_source r)
      else if not r.running
      then if is_fail started then handle_failure started t else t
      else if still
      then ended
      else r

  -- `app_imu_init`: whether the source is ready, and what its driver tells of it.
  unfoldable pub imu_init : Bool → Code → SourceInfo → Runtime F W → Code × Runtime F W
  unfolding publish_imu_state
  imu_init ready rc info r =
      if not ready
      then (fail enodev, publish_imu_state imu_error r)
      else if is_fail rc
          || info.odr_millihz == 0
          || info.poll_interval_us == 0
          || info.gyro_fs_dps == 0
      then (if is_fail rc then rc else fail einval, publish_imu_state imu_error r)
      else (value 0, r)
