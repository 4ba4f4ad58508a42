-- ===== src/Imu/Turns.antt =====
-- The motion sensor's history stays in order over the turns of its thread.
use mathlib.Core.Path.{subst}
use oskey_firmware.Prelude.{
  inl, inr, refl, sym, ap, ◌∙◌, Bool, not, ◌==◌, if◌then◌else◌, ltb, Code, is_fail, is_zero,
  if_both,
}
use oskey_firmware.Imu.Acquisition.{
  Batch, Ports, Runtime, restarted, process_batch, report_error, start_source, stop_source,
  count_error, report_once, handle_failure, settle_failure, end_turn, turn, imu_initializing,
  imu_idle, error_threshold, imu_error,
}
use oskey_firmware.Imu.History.{
  latest, IsChronological, IsTimed, HasSame, publish-HasSame, process_batch_whole,
}

module _ {F W : Type 0} (ports : Ports F W) where
  -- The thread's turns, and whatever others do to the state behind it in between.
  pub data Reach (start : Runtime F W) : Runtime F W → Type 0 where
    here : Reach start start
    next :
        {r : Runtime F W} (wanted still : Bool)
        → Reach start r
        → Reach start (turn ports wanted still r)
    elsewhere : {r : Runtime F W} (w : W) → Reach start r → Reach start (record r { world = w })

  HasSame-IsTimed : {r t : Runtime F W} → HasSame r t → IsTimed r → IsTimed t
  HasSame-IsTimed h i = record {
    last_is = h.same_last ∙ i.last_is ∙ ap latest (sym h.same_processed);
    ordered = subst IsChronological (sym h.same_processed) i.ordered;
  }

  world-IsTimed : (r : Runtime F W) (w : W) → IsTimed r → IsTimed (record r { world = w })
  world-IsTimed r w i = record { last_is = i.last_is; ordered = i.ordered }

  stop-IsTimed : (r : Runtime F W) → IsTimed r → IsTimed (stop_source ports r)
  unfolding stop_source
  stop-IsTimed r i =
      if_both IsTimed r.running (record { last_is = i.last_is; ordered = i.ordered }) i

  report_error-IsTimed : (e : Code) (r : Runtime F W) → IsTimed r → IsTimed (report_error ports e r)
  unfolding report_error
  report_error-IsTimed e r i =
      let t = HasSame-IsTimed (publish-HasSame ports imu_error r) i in
      record { last_is = t.last_is; ordered = t.ordered }

  failure-IsTimed : (e : Code) (r : Runtime F W) → IsTimed r → IsTimed (handle_failure ports e r)
  unfolding handle_failure count_error settle_failure report_once
  failure-IsTimed e r i =
      let t = count_error ports r in
      let counted : IsTimed t =
        if_both IsTimed (ltb r.consecutive_errors error_threshold)
          (record { last_is = i.last_is; ordered = i.ordered }) i in
      let u = report_error-IsTimed e t counted in
      if_both IsTimed (ltb t.consecutive_errors error_threshold) counted (
        stop-IsTimed (report_once ports e t) (
          if_both IsTimed (t.consecutive_errors == error_threshold)
            (record { last_is = u.last_is; ordered = u.ordered }) counted))

  start-IsTimed : (r : Runtime F W) → IsTimed r → IsTimed (start_source ports r).1
  unfolding start_source
  start-IsTimed r i =
      let (rc, w) = ports.start r.world in
      if_both (λ (p : Code × Runtime F W). IsTimed p.1) (is_fail rc) (world-IsTimed r w i)
        (HasSame-IsTimed (publish-HasSame ports imu_initializing (restarted ports w r))
          (record { last_is = refl; ordered = tt }))

  batch-IsTimed :
      (batch : Batch) (r : Runtime F W) → IsTimed r → IsTimed (process_batch ports batch r).1
  batch-IsTimed batch r i = elim (process_batch_whole ports batch r i) [
    | inl (h, c, e, p, t) ↦ t
    | inr (h, e, same) ↦ subst IsTimed (sym same) i
  ]

  end_turn-IsTimed : (p : Code × Runtime F W) → IsTimed p.1 → IsTimed (end_turn ports p)
  end_turn-IsTimed (rc, r) i =
      if_both IsTimed (is_fail rc) (failure-IsTimed rc r i)
        (record { last_is = i.last_is; ordered = i.ordered })

  turn-IsTimed :
      (wanted still : Bool) (r : Runtime F W) → IsTimed r → IsTimed (turn ports wanted still r)
  unfolding turn
  turn-IsTimed wanted still r i =
      let (started, t) = start_source ports r in
      let (rc, batch, w) = ports.read_batch r.world in
      let s = record r { world = w } in
      let j = world-IsTimed r w i in
      if_both IsTimed (not wanted)
        (HasSame-IsTimed (publish-HasSame ports imu_idle _) (stop-IsTimed r i))
        (if_both IsTimed (not r.running)
          (if_both IsTimed (is_fail started) (failure-IsTimed started t (start-IsTimed r i))
            (start-IsTimed r i))
          (if_both IsTimed still
            (end_turn-IsTimed (if is_zero rc then process_batch ports batch s else (rc, s)) (
              if_both (λ (p : Code × Runtime F W). IsTimed p.1) (is_zero rc)
                (batch-IsTimed batch s j) j))
            i))

  -- In every state that the thread reaches, whatever the sensor and the clients do: the samples
  -- processed since the source started are in the order of their time stamps, but for marked
  -- discontinuities, and the next batch is checked against the newest of them.
  pub Reach-IsTimed : {start r : Runtime F W} → IsTimed start → Reach start r → IsTimed r
  Reach-IsTimed i here = i
  Reach-IsTimed i (next {r = r} wanted still h) = turn-IsTimed wanted still r (Reach-IsTimed i h)
  Reach-IsTimed i (elsewhere {r = r} w h) = world-IsTimed r w (Reach-IsTimed i h)
