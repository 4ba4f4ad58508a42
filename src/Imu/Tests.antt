-- ===== src/Imu/Tests.antt =====
-- The motion sensor's theorems at concrete runs.
use oskey_firmware.Prelude.{
  ℕ, suc, ◌≡◌, ◌⊎◌, refl, true, false, none, [], ◌∷◌, value, fail, eio, length,
}
use oskey_firmware.Imu.Acquisition.{
  Sample, Batch, Ports, Runtime, process_batch, turn, imu_idle, encode_samples,
}
use oskey_firmware.Imu.History.{IsTimed, IsProcessed, IsRefused, process_batch_whole}
use oskey_firmware.Imu.Turns.{here, next, Reach-IsTimed}
use oskey_firmware.Imu.Failures.{failures, HasFailed, failures-HasFailed}

abbrev sample : ℕ → Sample
sample t = record {
  timestamp_ns = t;
  accel_ug = (1, 2, 3);
  gyro_10udps = (4, 5, 6);
  discontinuity = false;
}

abbrev batch : Batch
batch = record { count = 2; samples = sample 5 ∷ sample 9 ∷ [] }

-- Ports whose state counts what happens to it, and fusion of nothing.
abbrev ports : Ports ℕ ℕ
ports = record {
  restart = λ f. 0;
  update = λ s f. suc f;
  is_starting = λ f. false;
  start = λ w. (value 0, suc w);
  stop = λ w. (value 0, suc w);
  read_batch = λ w. (value 0, batch, suc w);
  channel_pub = λ s w. (value 0, w);
  publish_sample = λ v f w. w;
  collector = record {
    app_snapshot = λ w. (w, value 0, none);
    app_feed = λ session source bytes units w. (w, value 0);
    app_fail = λ session source error w. w;
  };
}

abbrev resting : Runtime ℕ ℕ
resting = record {
  fusion = 0;
  last_timestamp_ns = 0;
  consecutive_errors = 0;
  running = false;
  state = imu_idle;
  timer = false;
  world = 0;
  processed = [];
  reports = 0;
}

resting-IsTimed : IsTimed resting
resting-IsTimed = record { last_is = refl; ordered = tt }

encode_samples_test : length (encode_samples batch.samples) ≡ 48
encode_samples_test = refl

process_batch_whole_example :
    IsProcessed ports batch resting (process_batch ports batch resting)
    ⊎ IsRefused ports batch resting (process_batch ports batch resting)
process_batch_whole_example = process_batch_whole ports batch resting resting-IsTimed

Reach-IsTimed_example : IsTimed (turn ports true true (turn ports true true resting))
Reach-IsTimed_example = Reach-IsTimed ports resting-IsTimed (next true true (next true true here))

failures-HasFailed_example :
    HasFailed ports 6 resting (
      failures ports (fail eio ∷ fail eio ∷ fail eio ∷ fail eio ∷ fail eio ∷ fail eio ∷ []) resting)
failures-HasFailed_example =
    failures-HasFailed ports (fail eio ∷ fail eio ∷ fail eio ∷ fail eio ∷ fail eio ∷ fail eio ∷ [])
      resting refl
