-- ===== src/Entropy/Dispatch.antt =====
-- entropy.c: the run actions of the states and the dispatch of an event.
use oskey_firmware.Prelude.{
  ◌+◌, Bool, true, false, not, ◌||◌, none, some, List, [], ◌∷◌, ◌==◌, if◌then◌else◌, u32, Code,
  value, fail, is_zero, is_fail, einval, eio, ecanceled,
}
use oskey_firmware.Entropy.Source.{
  SmfState, idle, active, source_error, ready, source_get, source_none, bits, union,
}
use oskey_firmware.Entropy.Smf.{Smf}
use oskey_firmware.Entropy.Machine.{
  Context, Env, Event, EventKind, begin_event, feed_event, fail_event, retry_event, skip_event,
  cancel_event, set_state, transition_next, complete_source, hash_feed, elapsed_ms,
}

-- `enum app_entropy_state`
pub data AppState : Type 0 where
  app_idle app_capturing app_ready app_error : AppState

abbrev pub leaf_state : SmfState → AppState
leaf_state idle = app_idle
leaf_state ready = app_ready
leaf_state source_error = app_error
leaf_state _ = app_capturing

-- `entropy_state_locked`
unfoldable pub app_state : {Op : Type 0} → Context Op → AppState
app_state c = if c.started then leaf_state c.leaf else app_idle

abbrev pub is_capturing : AppState → Bool
is_capturing app_capturing = true
is_capturing _ = false

-- the answer of a dispatch that no state handles
abbrev pub default_result : EventKind → Code
default_result feed_event = fail ecanceled
default_result fail_event = fail ecanceled
default_result _ = fail einval

module _ {Op : Type 0} (smf : Smf) (env : Env Op) where
  -- A run action gives the context and whether the event is handled; if not it goes to the parent.
  abbrev pub fails_source : Code → Context Op → Context Op × Bool
  fails_source code c =
      (set_state env smf (record c { last_error = code; event_result = code }) source_error, true)

  -- What a feed does with the result of `entropy_complete_source_locked`: negative, 0 or 1.
  unfoldable pub feed_outcome : Code × Context Op → Context Op × Bool
  feed_outcome (ret, c) =
      if is_fail ret
      then fails_source ret c
      else if is_zero ret
      then (record c { event_result = value 0 }, true)
      else (transition_next env smf (record c { event_result = value 1 }), true)

  unfoldable pub source_feed : Event → Context Op → Context Op × Bool
  source_feed e c =
      let (status, h) = hash_feed env e c in
      let fed = record c { hash = h; units = u32 (c.units + e.units) } in
      if not (is_zero status)
      then fails_source (fail eio) (record c { hash = h })
      else feed_outcome (complete_source env (elapsed_ms env c) fed)

  unfoldable pub source_run : Event → Context Op → EventKind → Context Op × Bool
  source_run e c feed_event =
      if not (e.session == c.session) || not (e.source == c.current)
      then (record c { event_result = fail ecanceled }, true)
      else source_feed e c
  source_run e c _ = (c, false)

  unfoldable pub error_run : Event → Context Op → EventKind → Context Op × Bool
  unfolding source_get
  error_run e c retry_event =
      if not (e.session == c.session)
      then (record c { event_result = fail einval }, true)
      else elim (source_get c.current) [
        | none ↦ (record c { event_result = fail einval }, true)
        | some ops ↦ (set_state env smf (record c { event_result = value 0 }) ops.state, true)
      ]
  error_run e c _ = (c, false)

  unfoldable pub active_fail : Event → Context Op → Context Op
  unfolding app_state
  active_fail e c =
      if not (is_capturing (app_state c)) || not (e.source == c.current)
      then record c { event_result = fail ecanceled }
      else set_state env smf (record c { last_error = e.error; event_result = value 0 })
          source_error

  unfoldable pub active_skip : Context Op → Context Op
  active_skip c =
      if c.current == source_none
      then record c { event_result = fail einval }
      else transition_next env smf
          (record c { skipped = union c.skipped (bits c.current); event_result = value 0 })

  -- the `switch` of `entropy_active_run`
  unfoldable pub active_switch : Event → Context Op → EventKind → Context Op × Bool
  unfolding active_fail active_skip
  active_switch e c fail_event = (active_fail e c, true)
  active_switch e c skip_event = (active_skip c, true)
  active_switch e c cancel_event =
      (set_state env smf (record c { event_result = value 0 }) idle, true)
  active_switch e c _ = (c, false)

  unfoldable pub active_run : Event → Context Op → Context Op × Bool
  unfolding active_switch
  active_run e c = if not (e.session == c.session) then (c, true) else active_switch e c e.kind

  unfoldable pub idle_run : Context Op → EventKind → Context Op × Bool
  idle_run c begin_event = (transition_next env smf (record c { event_result = value 0 }), true)
  idle_run c _ = (c, true)

  unfoldable pub ready_run : Event → Context Op → EventKind → Context Op × Bool
  ready_run e c cancel_event =
      if e.session == c.session
      then (set_state env smf (record c { event_result = value 0 }) idle, true)
      else (c, true)
  ready_run e c _ = (c, true)

  -- the run column of `entropy_states`
  unfoldable pub run_action : Event → SmfState → Context Op → Context Op × Bool
  unfolding source_run error_run active_run idle_run ready_run
  run_action e idle c = idle_run c e.kind
  run_action e active c = active_run e c
  run_action e source_error c = error_run e c e.kind
  run_action e ready c = ready_run e c e.kind
  run_action e _ c = source_run e c e.kind

  abbrev pub run_all : Event → List SmfState → Context Op → Context Op
  run_all e [] c = c
  run_all e (s ∷ rest) c =
      let (c', handled) = run_action e s c in
      let up = run_all e rest c' in if handled then c' else up

  -- `entropy_dispatch_locked`: the new context holds the result.
  unfoldable pub dispatch_locked : Event → Context Op → Context Op
  dispatch_locked e c =
      run_all e (smf.runs c.leaf) (record c { event_result = default_result e.kind })
