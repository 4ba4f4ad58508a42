-- ===== src/Entropy/Tests.antt =====
-- Runs of the entropy collector, and its theorems at concrete inputs.
use oskey_firmware.Prelude.{
  ℕ, suc, ◌≡◌, ◌≢◌, ◌⊎◌, ◌≤◌, refl, true, false, none, some, List, [], ◌∷◌, arith, value, fail,
  einval, eio, ebusy, is_zero, ◌∙◌, replicate, length, codes, map, ◌++◌,
}
use oskey_firmware.Entropy.Source.{
  to_byte, mask_codes, overlaps, union, auxiliary, idle, active, touch, imu, ready, no_sources,
  bits, source_get, source_from_state, next_source, progress,
}
use oskey_firmware.Entropy.Smf.{IsHierarchical, reference_smf, exit_order, entry_order}
use oskey_firmware.Entropy.Machine.{
  Record, transcript_version, feed_event, Context, Env, Event, skip_event, cancel_event, set_state,
  initialize, transition_next, complete_source, hash_feed, hash_prologue, set_state_depth,
}
use oskey_firmware.Entropy.Dispatch.{
  app_ready, app_idle, app_state, source_feed, feed_outcome, source_run, active_run, idle_run,
  run_action, dispatch_locked,
}
use oskey_firmware.Entropy.Api.{
  begin, feed, skip, dispatch, transcript_get, required_size, transcript, records_bytes,
  plain_event, begin_refuses, next_session,
}
use oskey_firmware.Entropy.Invariant.{IsValid}
use oskey_firmware.Entropy.Transition.{set_state_depth_enough}
use oskey_firmware.Entropy.Calls.{IsSound, IsValid-IsSound, initialize-IsValid, dispatch-IsValid}
use oskey_firmware.Entropy.Sessions.{stale_unchanged}
use oskey_firmware.Entropy.Skipping.{skip_all, skips_reach_ready, pending}
use oskey_firmware.Entropy.Beginning.{IsBegun, begin_outcome}
use oskey_firmware.Entropy.Transcript.{transcript_get_fits, transcript_canonical}

reference_smf-IsHierarchical : IsHierarchical reference_smf
reference_smf-IsHierarchical = record {
  exits_lem = λ s t. refl;
  entries_lem = λ s t. refl;
  initial_lem = λ t. refl;
  runs_lem = λ s. refl;
}

-- A hash that counts its updates, and sensors that all start.
abbrev steady : Env ℕ
steady = record {
  hash_init = 0;
  hash_setup = λ h. (value 0, 1);
  hash_update = λ h bytes. (value 0, suc h);
  hash_finish = λ h. (value 0, replicate 32 h);
  start = λ k. value 0;
  run_ms = 1500;
  entry_ms = 1000;
}

abbrev power_on : Context ℕ
power_on = record {
  started = false;
  leaf = idle;
  hash = 0;
  records = [];
  session = 0;
  units = 0;
  started_ms = 0;
  event_result = value 0;
  last_error = value 0;
  words = 0;
  selected = no_sources;
  completed = no_sources;
  skipped = no_sources;
  current = 0;
  hash_active = false;
  hooks = [];
}

-- Touch and IMU.
abbrev begun : Context ℕ
begun = (begin reference_smf steady (bits 31) (value 0) 12 6 true power_on).0

abbrev touched : Context ℕ
touched = (feed reference_smf steady 1 2 (some (7 ∷ [])) 64 begun).0

abbrev finished : Context ℕ
finished = skip reference_smf steady 1 touched

scenario :
    (begun.leaf ≡ touch)
    × (touched.leaf ≡ imu)
    × (touched.current ≡ 4)
    × (finished.leaf ≡ ready)
    × (app_state finished ≡ app_ready)
unfolding begin feed skip dispatch dispatch_locked run_action source_run source_feed feed_outcome
    active_run initialize idle_run transition_next set_state complete_source hash_feed hash_prologue
    source_get source_from_state next_source progress app_state exit_order entry_order
scenario = (refl, refl, refl, refl, refl)

power_on-IsSound : IsSound power_on
power_on-IsSound = record { valid = λ p. cc; fresh = λ p. refl }

IsBegun-begin : IsBegun 12 6 1 (begin reference_smf steady (bits 31) (value 0) 12 6 true power_on)
unfolding begin dispatch_locked run_action idle_run initialize transition_next set_state
    hash_prologue source_get source_from_state next_source app_state exit_order entry_order
IsBegun-begin = record {
  valid = record {
    initialized = refl;
    accounted = record {
      no_rng = (refl, refl);
      disjoint = refl;
      completed_selected = refl;
      skipped_selected = refl;
      record_slots = refl;
      digests = (refl, (refl, (refl, (refl, tt))));
      later_untouched = refl;
      records_are = refl;
    };
    current_leaf = (refl, omega arith);
    in_order = refl;
    hash_live = refl;
    imu_live = refl;
    microphone_live = refl;
    idle_clear = λ p. cc;
  };
  answer = refl;
  number = refl;
  number_ne = λ p. omega arith;
  session_is = refl;
  words_are = refl;
  selected_are = refl;
  none_completed = refl;
  none_skipped = refl;
  has_source = λ p. omega arith;
}

begun_not_idle : begun.leaf ≢ idle
unfolding begin dispatch_locked run_action idle_run initialize transition_next set_state
    hash_prologue source_get source_from_state next_source app_state exit_order entry_order
begun_not_idle p = cc

begun_not_active : begun.leaf ≢ active
unfolding begin dispatch_locked run_action idle_run initialize transition_next set_state
    hash_prologue source_get source_from_state next_source app_state exit_order entry_order
begun_not_active p = cc

start_pending : pending begun ≤ 2
unfolding begin dispatch_locked run_action idle_run initialize transition_next set_state
    hash_prologue source_get source_from_state next_source app_state exit_order entry_order
start_pending = omega arith

nine-ne : ◌≡◌ {A = ℕ} 9 1 → ⊥
nine-ne p = omega arith

abbrev skip_now : Event
skip_now = plain_event skip_event 1

dispatch-IsValid_example : IsValid (dispatch reference_smf steady skip_now power_on)
dispatch-IsValid_example =
    dispatch-IsValid steady reference_smf-IsHierarchical skip_now power_on power_on-IsSound

begin_outcome_example :
    let r = begin reference_smf steady (bits 31) (value 0) 12 6 true power_on in
    let opened = initialize steady reference_smf power_on in
    ((begin_refuses (bits 31) 12 6 true ≡ false)
      × (is_zero (value 0) ≡ true)
      × (app_state opened ≡ app_idle)
      × IsBegun 12 6 (next_session opened.session) r)
    ⊎ ((r ≡ (power_on, fail einval, none)) × (begin_refuses (bits 31) 12 6 true ≡ true))
    ⊎ ((r ≡ (power_on, fail eio, none))
        × (begin_refuses (bits 31) 12 6 true ≡ false)
        × (is_zero (value 0) ≡ false))
    ⊎ ((r ≡ (opened, fail ebusy, none))
        × (begin_refuses (bits 31) 12 6 true ≡ false)
        × (is_zero (value 0) ≡ true)
        × (app_state opened ≢ app_idle))
begin_outcome_example =
    begin_outcome steady reference_smf-IsHierarchical (bits 31) (value 0) 12 6 true power_on
      power_on-IsSound

-- A cancellation of session 9, while session 1 collects.
stale_unchanged_example :
    dispatch_locked reference_smf steady (plain_event cancel_event 9) begun
    ≡ record begun { event_result = fail einval }
stale_unchanged_example =
    stale_unchanged steady reference_smf-IsHierarchical (plain_event cancel_event 9) begun (λ p. cc)
      (λ p. nine-ne (p ∙ IsBegun-begin.session_is))

skips_reach_ready_example :
    app_state (skip_all reference_smf (steady ∷ steady ∷ []) begun) ≡ app_ready
skips_reach_ready_example =
    skips_reach_ready reference_smf-IsHierarchical (steady ∷ steady ∷ []) begun IsBegun-begin.valid
      begun_not_idle start_pending

set_state_depth_enough_example :
    set_state_depth steady reference_smf 7 begun ready ≡ set_state steady reference_smf begun ready
set_state_depth_enough_example =
    set_state_depth_enough steady reference_smf-IsHierarchical 5 ready begun begun_not_active
      (λ p. cc)

touched-IsValid : IsValid touched
unfolding feed
touched-IsValid =
    dispatch-IsValid steady reference_smf-IsHierarchical
      (record (plain_event feed_event 1) { payload = 7 ∷ []; units = 64; source = 2 }) begun
      (IsValid-IsSound IsBegun-begin.valid)

finished-IsValid : IsValid finished
unfolding skip
finished-IsValid =
    dispatch-IsValid steady reference_smf-IsHierarchical (plain_event skip_event 1) touched
      (IsValid-IsSound touched-IsValid)

finished_ready : finished.leaf ≡ ready
finished_ready = scenario.3

transcript_canonical_example :
    (rs : List Record) × (transcript finished
      ≡ codes "OSEM"
        ++ transcript_version
          ∷ finished.words
          ∷ to_byte finished.selected
          ∷ to_byte finished.completed
          ∷ to_byte finished.skipped
          ∷ length rs
          ∷ records_bytes rs)
    × (map (λ r. r.source) rs ≡ mask_codes finished.completed)
    × (overlaps finished.completed finished.skipped ≡ false)
    × (union finished.completed finished.skipped ≡ auxiliary finished.selected)
transcript_canonical_example = transcript_canonical finished finished-IsValid finished_ready

stored :
    (transcript_get reference_smf steady 1 true 174 true finished).2
    ≡ some (transcript finished, required_size finished)
unfolding begin feed skip dispatch dispatch_locked run_action source_run source_feed feed_outcome
    active_run initialize idle_run transition_next set_state complete_source hash_feed hash_prologue
    source_get source_from_state next_source progress app_state exit_order entry_order
    transcript_get transcript
stored = refl

transcript_get_fits_example :
    (length (transcript finished) ≡ required_size finished)
    × (required_size finished ≤ 174)
    × (required_size finished ≤ 174)
transcript_get_fits_example =
    transcript_get_fits reference_smf steady 1 174 finished
      (initialize-IsValid steady reference_smf-IsHierarchical finished
        (IsValid-IsSound finished-IsValid))
      stored
