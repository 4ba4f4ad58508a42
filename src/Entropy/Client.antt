-- ===== src/Entropy/Client.antt =====
-- What the drivers use of the entropy collector: the interface that Api implements, and the check of
-- the snapshot that each driver makes before it feeds or fails a source.
use oskey_firmware.Prelude.{
  ℕ, Bool, true, false, ◌&&◌, Option, none, some, List, ◌==◌, if◌then◌else◌, Code, is_zero,
}
use oskey_firmware.Entropy.Smf.{Smf}
use oskey_firmware.Entropy.Machine.{Context, Env}
use oskey_firmware.Entropy.Dispatch.{AppState, app_capturing}
use oskey_firmware.Entropy.Api.{Snapshot, feed, report_failure, snapshot_get}

-- `app_entropy_snapshot_get`, `app_entropy_feed` and `app_entropy_fail`, over their state `W`.
pub record Collector (W : Type 0) : Type 0 where
  pub app_snapshot : W → W × Code × Option Snapshot
  pub app_feed : ℕ → ℕ → Option (List ℕ) → ℕ → W → W × Code
  pub app_fail : ℕ → ℕ → Code → W → W

-- The collector itself.
abbrev pub collector_of : {Op : Type 0} → Smf → Env Op → Collector (Context Op)
collector_of smf env = record {
  app_snapshot = snapshot_get smf env true;
  app_feed = feed smf env;
  app_fail = report_failure smf env;
}

abbrev pub is_app_capturing : AppState → Bool
is_app_capturing app_capturing = true
is_app_capturing _ = false

-- The session that waits for a source, if it does.
abbrev pub awaiting : ℕ → Code × Option Snapshot → Option ℕ
awaiting source (rc, none) = none
awaiting source (rc, some s) =
    if is_zero rc && is_app_capturing s.state && s.current == source then some s.session else none

module _ {W : Type 0} (collector : Collector W) where
  abbrev pub feed_session : ℕ → List ℕ → ℕ → Option ℕ → W → W
  feed_session source bytes units none w = w
  feed_session source bytes units (some session) w =
      (collector.app_feed session source (some bytes) units w).0

  abbrev pub fail_session : ℕ → Code → Option ℕ → W → W
  fail_session source error none w = w
  fail_session source error (some session) w = collector.app_fail session source error w

  -- A feed, and a failure, if the collector waits for the source.
  abbrev pub feed_awaited : ℕ → List ℕ → ℕ → W → W
  feed_awaited source bytes units w =
      let (w1, rc, snapshot) = collector.app_snapshot w in
      feed_session source bytes units (awaiting source (rc, snapshot)) w1

  abbrev pub fail_awaited : ℕ → Code → W → W
  fail_awaited source error w =
      let (w1, rc, snapshot) = collector.app_snapshot w in
      fail_session source error (awaiting source (rc, snapshot)) w1
