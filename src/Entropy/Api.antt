-- ===== src/Entropy/Api.antt =====
-- entropy.c: the functions that the display and the drivers call.
use oskey_firmware.Prelude.{
  ℕ, ◌+◌, ◌*◌, Bool, true, false, not, ◌||◌, Option, none, some, List, [], ◌∷◌, ◌++◌, ◌==◌, ltb,
  leb, if◌then◌else◌, u32, length, take, Code, value, fail, is_zero, einval, eio, ebusy, eagain,
  enospc, codes, le32,
}
use oskey_firmware.Entropy.Source.{
  Mask, bits, union, without, auxiliary, is_nonempty, to_byte, popcount, progress,
}
use oskey_firmware.Entropy.Smf.{Smf}
use oskey_firmware.Entropy.Machine.{
  Record, Context, Env, Event, EventKind, begin_event, feed_event, fail_event, retry_event,
  skip_event, cancel_event, initialize, transcript_version,
}
use oskey_firmware.Entropy.Dispatch.{AppState, app_idle, app_ready, app_state, dispatch_locked}

abbrev pub is_idle : AppState → Bool
is_idle app_idle = true
is_idle _ = false

abbrev pub is_ready : AppState → Bool
is_ready app_ready = true
is_ready _ = false

-- `struct app_entropy_snapshot`
pub record Snapshot : Type 0 where
  pub session : ℕ
  pub progress_permille : ℕ
  pub completed : Mask
  pub skipped : Mask
  pub current : ℕ
  pub state : AppState

-- The checks of `app_entropy_begin` on its arguments. `sources & ~AUXILIARY_MASK` is the lowest bit
-- and the bits from 32 up.
abbrev pub begin_refuses : Mask → ℕ → ℕ → Bool → Bool
begin_refuses available words sources has_out =
    not has_out
    || not (words == 12 || words == 18 || words == 24)
    || not (is_nonempty (auxiliary (bits sources)))
    || ((bits sources).rng || leb 32 sources)
    || not available.rng
    || is_nonempty (without (bits sources) available)

-- The next session number: it skips 0 when the counter wraps.
abbrev pub next_session : ℕ → ℕ
next_session n = if u32 (n + 1) == 0 then 1 else u32 (n + 1)

-- An event with the fields that a caller leaves out at zero.
abbrev pub plain_event : EventKind → ℕ → Event
plain_event kind session = record {
  payload = [];
  session = session;
  units = 0;
  error = value 0;
  source = 0;
  kind = kind;
}

-- The bytes of one record of the transcript.
abbrev pub record_bytes : Record → List ℕ
record_bytes r = r.source ∷ le32 r.units ++ le32 r.duration_ms ++ r.digest

abbrev pub records_bytes : List Record → List ℕ
records_bytes [] = []
records_bytes (r ∷ rest) = record_bytes r ++ records_bytes rest

module _ {Op : Type 0} (smf : Smf) (env : Env Op) where
  -- `entropy_dispatch`
  unfoldable pub dispatch : Event → Context Op → Context Op
  unfolding dispatch_locked initialize
  dispatch e c = dispatch_locked smf env e (initialize env smf c)

  -- `app_entropy_begin`: `available` is what `app_entropy_capabilities` gives, `crypto` the status
  -- of `psa_crypto_init`, and the option what is stored through `session`.
  unfoldable pub begin : Mask → Code → ℕ → ℕ → Bool → Context Op → Context Op × Code × Option ℕ
  begin available crypto words sources has_out c =
      let opened = initialize env smf c in
      let n = next_session opened.session in
      let begun =
        dispatch_locked smf env (plain_event begin_event n) (record opened {
          session = n;
          words = words;
          selected = union (bits sources) (bits 1);
        }) in
      if begin_refuses available words sources has_out
      then (c, fail einval, none)
      else if not (is_zero crypto)
      then (c, fail eio, none)
      else if not (is_idle (app_state opened))
      then (opened, fail ebusy, none)
      else (begun, begun.event_result, some n)

  -- `app_entropy_feed`; `payload` is `none` for a NULL pointer.
  unfoldable pub feed : ℕ → ℕ → Option (List ℕ) → ℕ → Context Op → Context Op × Code
  unfolding dispatch
  feed session source none units c = (c, fail einval)
  feed session source (some payload) units c =
      let c' =
        dispatch
          (record (plain_event feed_event session) {
            payload = payload;
            units = units;
            source = source;
          })
          c in
      if length payload == 0 || units == 0 then (c, fail einval) else (c', c'.event_result)

  -- `app_entropy_fail`, `app_entropy_retry`, `app_entropy_skip`, `app_entropy_cancel`
  unfoldable pub report_failure : ℕ → ℕ → Code → Context Op → Context Op
  unfolding dispatch
  report_failure session source error c =
      dispatch (record (plain_event fail_event session) { error = error; source = source }) c

  unfoldable pub retry : ℕ → Context Op → Context Op
  unfolding dispatch
  retry session c = dispatch (plain_event retry_event session) c

  unfoldable pub skip : ℕ → Context Op → Context Op
  unfolding dispatch
  skip session c = dispatch (plain_event skip_event session) c

  unfoldable pub cancel : ℕ → Context Op → Context Op
  unfolding dispatch
  cancel session c = dispatch (plain_event cancel_event session) c

  unfoldable pub snapshot_get : Bool → Context Op → Context Op × Code × Option Snapshot
  unfolding initialize app_state progress
  snapshot_get has_out c =
      let opened = initialize env smf c in
      if not has_out then (c, fail einval, none) else (
        opened,
        value 0,
        some (record {
          session = opened.session;
          progress_permille = progress opened.current opened.units;
          completed = opened.completed;
          skipped = opened.skipped;
          current = opened.current;
          state = app_state opened;
        }),
      )

-- The bytes that `app_entropy_transcript_get` writes.
unfoldable pub transcript : {Op : Type 0} → Context Op → List ℕ
transcript c =
    codes "OSEM"
    ++ transcript_version
      ∷ c.words
      ∷ to_byte c.selected
      ∷ to_byte c.completed
      ∷ to_byte c.skipped
      ∷ popcount c.completed
      ∷ records_bytes (take (popcount c.completed) c.records)

-- ENTROPY_TRANSCRIPT_HEADER_SIZE + record_count * ENTROPY_TRANSCRIPT_RECORD_SIZE
abbrev pub required_size : {Op : Type 0} → Context Op → ℕ
required_size c = 10 + popcount c.completed * 41

-- `app_entropy_transcript_get`: the options are the bytes stored through `buffer` (with `size`
-- bytes of room) and the number stored through `written`.
unfoldable pub transcript_get :
    {Op : Type 0}
    → Smf
    → Env Op
    → ℕ
    → Bool
    → ℕ
    → Bool
    → Context Op
    → Context Op × Code × Option (List ℕ × ℕ)
unfolding initialize app_state transcript
transcript_get smf env session has_buffer size has_written c =
    let opened = initialize env smf c in
    if not has_buffer || not has_written
    then (c, fail einval, none)
    else if not (opened.session == session) || not (is_ready (app_state opened))
    then (opened, fail eagain, none)
    else if ltb size (required_size opened)
    then (opened, fail enospc, none)
    else (opened, value 0, some (transcript opened, required_size opened))
