-- ===== src/Entropy/Preserved.antt =====
-- Every event, in every state, keeps the entropy context valid.
use mathlib.Core.Path.{subst}
use oskey_firmware.Prelude.{
  ◌≡◌, ◌≢◌, ◌⊎◌, inl, inr, refl, sym, ◌∙◌, Bool, true, not, ◌||◌, none, some, ◌==◌, Code, value,
  fail, Bool-cases, einval, ecanceled,
}
use oskey_firmware.Entropy.Source.{
  SmfState, active, touch, imu, camera, microphone, source_error, next_source, source_get, bits,
  union, source_none,
}
use oskey_firmware.Entropy.Smf.{reference_smf}
use oskey_firmware.Entropy.Machine.{
  Context, Env, Event, EventKind, nothing, begin_event, feed_event, fail_event, retry_event,
  skip_event, cancel_event, set_state,
}
use oskey_firmware.Entropy.Dispatch.{
  source_run, error_run, active_fail, active_skip, active_switch, active_run, idle_run, ready_run,
  app_state, is_capturing,
}
use oskey_firmware.Entropy.Invariant.{
  IsValid, IsLeavable, MatchesLeaf, is_source, source_code, IsValid-IsLeavable, leaf-ne-active,
}
use oskey_firmware.Entropy.Order.{next_source_cases, union-skipped, later-skipped}
use oskey_firmware.Entropy.Entering.{
  transition_next-IsValid, to_error-IsValid, to_idle-IsValid, transition_next-IsValid_at,
}
use oskey_firmware.Entropy.Feeding.{current-ne-none, source_feed-IsValid}

-- The result and the last error are no part of the invariant.
pub relabel-IsValid :
    {Op : Type 0} {c : Context Op} (r x : Code)
    → IsValid c
    → IsValid (record c { event_result = r; last_error = x })
relabel-IsValid r x v = record {
  initialized = v.initialized;
  accounted = v.accounted;
  current_leaf = v.current_leaf;
  in_order = v.in_order;
  hash_live = v.hash_live;
  imu_live = v.imu_live;
  microphone_live = v.microphone_live;
  idle_clear = v.idle_clear;
}

error_current-ne :
    {Op : Type 0} (c : Context Op) → IsValid c → c.leaf ≡ source_error → c.current ≢ 0
error_current-ne c v s = (subst (λ t. MatchesLeaf t c.current c.units) s v.current_leaf).0

module _ {Op : Type 0} (env : Env Op) where
  pub source_run-IsValid :
      (e : Event) (c : Context Op) (k : EventKind)
      → IsValid c
      → is_source c.leaf ≡ true
      → IsValid (source_run reference_smf env e c k).0
  unfolding source_run
  source_run-IsValid e c nothing v s = v
  source_run-IsValid e c feed_event v s =
      elim (Bool-cases (not (e.session == c.session) || not (e.source == c.current))) [
        | inl stale ↦ rw stale (relabel-IsValid (fail ecanceled) c.last_error v)
        | inr fresh ↦ rw fresh (source_feed-IsValid env e c v s)
      ]
  source_run-IsValid e c _ v s = v

  -- RETRY enters the current source again.
  error_retry-IsValid :
      (c : Context Op)
      → IsValid c
      → c.leaf ≡ source_error
      → IsValid
          (elim (source_get c.current) as (λ o. Context Op × Bool) [
            | none ↦ (record c { event_result = fail einval }, true)
            | some ops ↦
                (set_state env reference_smf (record c { event_result = value 0 }) ops.state, true)
          ]).0
  unfolding source_get
  error_retry-IsValid c v s = elim (next_source_cases c.selected c.completed c.skipped) [
    | inl n ↦ absurd (error_current-ne c v s (sym v.in_order ∙ n))
    | inr (inl n) ↦ rw (sym v.in_order ∙ n) (again touch refl (λ p. cc) n)
    | inr (inr (inl n)) ↦ rw (sym v.in_order ∙ n) (again imu refl (λ p. cc) n)
    | inr (inr (inr (inl n))) ↦ rw (sym v.in_order ∙ n) (again camera refl (λ p. cc) n)
    | inr (inr (inr (inr n))) ↦ rw (sym v.in_order ∙ n) (again microphone refl (λ p. cc) n)
  ]
    where
      d : Context Op
      d = record c { event_result = value 0 }

      again :
          (t : SmfState)
          → is_source t ≡ true
          → t ≢ active
          → next_source c.selected c.completed c.skipped ≡ source_code t
          → IsValid (set_state env reference_smf d t)
      again t h a n =
          let w = relabel-IsValid (value 0) c.last_error v in
          transition_next-IsValid_at env d t (IsValid-IsLeavable d w) (leaf-ne-active d w) h a n

  pub error_run-IsValid :
      (e : Event) (c : Context Op) (k : EventKind)
      → IsValid c
      → c.leaf ≡ source_error
      → IsValid (error_run reference_smf env e c k).0
  unfolding error_run
  error_run-IsValid e c nothing v s = v
  error_run-IsValid e c retry_event v s = elim (Bool-cases (not (e.session == c.session))) [
    | inl stale ↦ rw stale (relabel-IsValid (fail einval) c.last_error v)
    | inr fresh ↦ rw fresh (error_retry-IsValid c v s)
  ]
  error_run-IsValid e c _ v s = v

  -- A leaf below ACTIVE has a current source.
  pub below_current-ne :
      (c : Context Op)
      → IsValid c
      → (is_source c.leaf ≡ true) ⊎ (c.leaf ≡ source_error)
      → c.current ≢ 0
  below_current-ne c v (inl s) = current-ne-none env c v s
  below_current-ne c v (inr s) = error_current-ne c v s

  active_fail-IsValid :
      (e : Event) (c : Context Op)
      → IsValid c
      → c.current ≢ 0
      → IsValid (active_fail reference_smf env e c)
  unfolding active_fail
  active_fail-IsValid e c v n =
      elim (Bool-cases (not (is_capturing (app_state c)) || not (e.source == c.current))) [
        | inl refused ↦ rw refused (relabel-IsValid (fail ecanceled) c.last_error v)
        | inr taken ↦ rw taken (
            let w = relabel-IsValid (value 0) e.error v in
            to_error-IsValid env (record c { last_error = e.error; event_result = value 0 })
              (IsValid-IsLeavable _ w) (leaf-ne-active c v) v.in_order n)
      ]

  skipping-IsLeavable :
      (c : Context Op)
      → IsValid c
      → c.current ≢ 0
      → IsLeavable (record c { skipped = union c.skipped (bits c.current); event_result = value 0 })
  skipping-IsLeavable c v n =
      let a = v.accounted in
      let w = IsValid-IsLeavable c v in
      let (d, q, g) =
        union-skipped c.current c.selected c.completed c.skipped v.in_order n a.disjoint
          a.skipped_selected in
      record {
        initialized = v.initialized;
        accounted = record {
          no_rng = (a.no_rng.0, g ∙ a.no_rng.1);
          disjoint = d;
          completed_selected = a.completed_selected;
          skipped_selected = q;
          record_slots = a.record_slots;
          digests = a.digests;
          later_untouched =
              later-skipped c.current c.selected c.completed c.skipped v.in_order n
                a.later_untouched;
          records_are = a.records_are;
        };
        quiet_outside = w.quiet_outside;
        imu_live = v.imu_live;
        microphone_live = v.microphone_live;
      }

  active_skip-IsValid :
      (c : Context Op) → IsValid c → c.current ≢ 0 → IsValid (active_skip reference_smf env c)
  unfolding active_skip
  active_skip-IsValid c v n = elim (Bool-cases (c.current == source_none)) [
    | inl none_left ↦ rw none_left (relabel-IsValid (fail einval) c.last_error v)
    | inr some_left ↦
        rw some_left
          (transition_next-IsValid env skipping (skipping-IsLeavable c v n) (leaf-ne-active c v))
  ]
    where
      skipping : Context Op
      skipping = record c { skipped = union c.skipped (bits c.current); event_result = value 0 }

  active_switch-IsValid :
      (e : Event) (c : Context Op) (k : EventKind)
      → IsValid c
      → c.current ≢ 0
      → IsValid (active_switch reference_smf env e c k).0
  unfolding active_switch
  active_switch-IsValid e c fail_event v n = active_fail-IsValid e c v n
  active_switch-IsValid e c skip_event v n = active_skip-IsValid c v n
  active_switch-IsValid e c cancel_event v n =
      let w = relabel-IsValid (value 0) c.last_error v in
      to_idle-IsValid env (record c { event_result = value 0 }) (IsValid-IsLeavable _ w)
        (leaf-ne-active c v)
  active_switch-IsValid e c _ v n = v

  pub active_run-IsValid :
      (e : Event) (c : Context Op)
      → IsValid c
      → c.current ≢ 0
      → IsValid (active_run reference_smf env e c).0
  unfolding active_run
  active_run-IsValid e c v n = elim (Bool-cases (not (e.session == c.session))) [
    | inl stale ↦ rw stale v
    | inr fresh ↦ rw fresh (active_switch-IsValid e c e.kind v n)
  ]

  pub idle_run-IsValid :
      (c : Context Op) (k : EventKind) → IsValid c → IsValid (idle_run reference_smf env c k).0
  unfolding idle_run
  idle_run-IsValid c nothing v = v
  idle_run-IsValid c begin_event v =
      let w = relabel-IsValid (value 0) c.last_error v in
      transition_next-IsValid env (record c { event_result = value 0 }) (IsValid-IsLeavable _ w)
        (leaf-ne-active c v)
  idle_run-IsValid c _ v = v

  pub ready_run-IsValid :
      (e : Event) (c : Context Op) (k : EventKind)
      → IsValid c
      → IsValid (ready_run reference_smf env e c k).0
  unfolding ready_run
  ready_run-IsValid e c nothing v = v
  ready_run-IsValid e c cancel_event v = elim (Bool-cases (e.session == c.session)) [
    | inl fresh ↦ rw fresh (
        let w = relabel-IsValid (value 0) c.last_error v in
        to_idle-IsValid env (record c { event_result = value 0 }) (IsValid-IsLeavable _ w)
          (leaf-ne-active c v))
    | inr stale ↦ rw stale v
  ]
  ready_run-IsValid e c _ v = v
