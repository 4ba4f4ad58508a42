-- ===== src/Entropy/Calls.antt =====
-- A dispatch keeps the entropy context valid, whatever the event and the environment.
use mathlib.Core.Path.{subst}
use oskey_firmware.Prelude.{
  ◌≡◌, ◌≢◌, inl, inr, refl, sym, ap, ◌∙◌, Bool, true, false, [], if◌then◌else◌, arith, Bool-cases,
}
use oskey_firmware.Entropy.Source.{
  SmfState, idle, active, touch, source_error, ready, source_get, next_source,
}
use oskey_firmware.Entropy.Smf.{Smf, IsHierarchical, reference_smf, lineage}
use oskey_firmware.Entropy.Machine.{
  Context, Env, Event, EventKind, nothing, feed_event, retry_event, initialize, entry_action,
}
use oskey_firmware.Entropy.Dispatch.{
  source_feed, feed_outcome, source_run, error_run, active_run, idle_run, ready_run, run_action,
  run_all, dispatch_locked, default_result,
}
use oskey_firmware.Entropy.Invariant.{IsValid, is_source, leaf-ne-active}
use oskey_firmware.Entropy.Transition.{smf-eq-reference}
use oskey_firmware.Entropy.Preserved.{
  relabel-IsValid, source_run-IsValid, error_run-IsValid, active_run-IsValid, idle_run-IsValid,
  ready_run-IsValid, below_current-ne,
}
use oskey_firmware.Entropy.Api.{dispatch}

module _ {Op : Type 0} (env : Env Op) where
  source_run_passes :
      (e : Event) (c : Context Op) (k : EventKind)
      → (source_run reference_smf env e c k).1 ≡ false
      → (source_run reference_smf env e c k).0 ≡ c
  unfolding source_run source_feed feed_outcome
  source_run_passes e c nothing h = refl
  source_run_passes e c feed_event h = ground arith
  source_run_passes e c _ h = refl

  error_run_passes :
      (e : Event) (c : Context Op) (k : EventKind)
      → (error_run reference_smf env e c k).1 ≡ false
      → (error_run reference_smf env e c k).0 ≡ c
  unfolding error_run source_get
  error_run_passes e c nothing h = refl
  error_run_passes e c retry_event h = ground arith
  error_run_passes e c _ h = refl

  -- What a leaf leaves to ACTIVE.
  up-IsValid :
      (e : Event) (c : Context Op) (own : Context Op × Bool)
      → IsValid own.0
      → (own.1 ≡ false → own.0 ≡ c)
      → c.current ≢ 0
      → IsValid (
          if own.1
          then own.0
          else (let (d, handled) = active_run reference_smf env e own.0 in
              if handled then d else d))
  up-IsValid e c (d, true) w f n = w
  up-IsValid e c (d, false) w f n =
      ground (arith, active_run-IsValid env e d w (λ p. n (sym (ap (λ x. x.current) (f refl)) ∙ p)))

  last-IsValid :
      (own : Context Op × Bool) → IsValid own.0 → IsValid (if own.1 then own.0 else own.0)
  last-IsValid (d, true) w = w
  last-IsValid (d, false) w = w

  source_all-IsValid :
      (e : Event) (c : Context Op)
      → IsValid c
      → is_source c.leaf ≡ true
      → IsValid (
          if (source_run reference_smf env e c e.kind).1
          then (source_run reference_smf env e c e.kind).0
          else (let (d, handled) =
                active_run reference_smf env e (source_run reference_smf env e c e.kind).0 in
              if handled then d else d))
  source_all-IsValid e c v s =
      up-IsValid e c (source_run reference_smf env e c e.kind)
        (source_run-IsValid env e c e.kind v s) (source_run_passes e c e.kind)
        (below_current-ne env c v (inl s))

  run_all-IsValid :
      (s : SmfState) (e : Event) (c : Context Op)
      → IsValid c
      → c.leaf ≡ s
      → IsValid (run_all reference_smf env e (lineage s) c)
  unfolding run_action
  run_all-IsValid idle e c v l =
      last-IsValid (idle_run reference_smf env c e.kind) (idle_run-IsValid env c e.kind v)
  run_all-IsValid active e c v l = absurd (leaf-ne-active c v l)
  run_all-IsValid source_error e c v l =
      up-IsValid e c (error_run reference_smf env e c e.kind) (error_run-IsValid env e c e.kind v l)
        (error_run_passes e c e.kind) (below_current-ne env c v (inr l))
  run_all-IsValid ready e c v l =
      last-IsValid (ready_run reference_smf env e c e.kind) (ready_run-IsValid env e c e.kind v)
  run_all-IsValid touch e c v l = source_all-IsValid e c v (ap is_source l)
  run_all-IsValid _ e c v l = source_all-IsValid e c v (ap is_source l)

  dispatch_locked-IsValid_reference :
      (e : Event) (c : Context Op) → IsValid c → IsValid (dispatch_locked reference_smf env e c)
  unfolding dispatch_locked
  dispatch_locked-IsValid_reference e c v =
      run_all-IsValid c.leaf e (record c { event_result = default_result e.kind })
        (relabel-IsValid (default_result e.kind) c.last_error v) refl

  -- Any event, in any valid context and environment, leaves the context valid.
  pub dispatch_locked-IsValid :
      {smf : Smf}
      → IsHierarchical smf
      → (e : Event) (c : Context Op) → IsValid c
      → IsValid (dispatch_locked smf env e c)
  dispatch_locked-IsValid h e c v =
      subst (λ m. IsValid (dispatch_locked m env e c)) (sym (smf-eq-reference h))
        (dispatch_locked-IsValid_reference e c v)

started-fresh : {b : Bool} → b ≡ true → b ≡ false → ⊥
started-fresh p q = cc

-- A context before or after its first use: the static storage starts with no state, and no sensor
-- was started.
pub record IsSound {Op : Type 0} (c : Context Op) : Type 0 where
  pub valid : c.started ≡ true → IsValid c
  pub fresh : c.started ≡ false → c.hooks ≡ []

pub IsValid-IsSound : {Op : Type 0} {c : Context Op} → IsValid c → IsSound c
IsValid-IsSound v = record { valid = λ p. v; fresh = λ p. absurd (started-fresh v.initialized p) }

module _ {Op : Type 0} (env : Env Op) {smf : Smf} (h : IsHierarchical smf) where
  pub initialize-started : (c : Context Op) → c.started ≡ true → initialize env smf c ≡ c
  unfolding initialize
  initialize-started c p = rw p

  initialize-fresh :
      (c : Context Op) → c.started ≡ false → c.hooks ≡ [] → IsValid (initialize env reference_smf c)
  unfolding initialize entry_action next_source
  initialize-fresh c p q = ground arith

  -- The first call of any function puts the machine into IDLE.
  pub initialize-IsValid : (c : Context Op) → IsSound c → IsValid (initialize env smf c)
  initialize-IsValid c s = elim (Bool-cases c.started) [
    | inl p ↦ subst IsValid (sym (initialize-started c p)) (s.valid p)
    | inr p ↦
        subst (λ m. IsValid (initialize env m c)) (sym (smf-eq-reference h))
          (initialize-fresh c p (s.fresh p))
  ]

  -- Feeds, failures, retries, skips and cancellations keep a context valid, the first call of all
  -- included: exactly a source state has an open hash, exactly the state of a sensor has it running,
  -- the current source is the lowest selected one that is neither completed nor skipped, and the
  -- masks are disjoint parts of the selection.
  pub dispatch-IsValid : (e : Event) (c : Context Op) → IsSound c → IsValid (dispatch smf env e c)
  unfolding dispatch
  dispatch-IsValid e c s =
      dispatch_locked-IsValid env h e (initialize env smf c) (initialize-IsValid c s)
