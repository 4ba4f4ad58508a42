-- ===== src/Entropy/Sessions.antt =====
-- Sessions of the entropy collector: how one begins, that other sessions' events change nothing, and
-- that a session can always be brought to READY.
use mathlib.Core.Path.{subst}
use oskey_firmware.Prelude.{◌≡◌, ◌≢◌, refl, sym, ◌∙◌, false, arith}
use oskey_firmware.Entropy.Source.{
  SmfState, idle, ready, next_source, Mask, union, auxiliary, without, is_nonempty,
}
use oskey_firmware.Entropy.Smf.{Smf, IsHierarchical, reference_smf}
use oskey_firmware.Entropy.Machine.{Context, Env, Event, begin_event}
use oskey_firmware.Entropy.Dispatch.{
  source_run, error_run, active_run, idle_run, ready_run, run_action, dispatch_locked,
  default_result,
}
use oskey_firmware.Entropy.Invariant.{IsValid, MatchesLeaf}
use oskey_firmware.Entropy.Transition.{smf-eq-reference}

-- In READY every selected auxiliary source has been completed or skipped, and no other.
booked_ready :
    (selected completed skipped : Mask)
    → (completed.rng ≡ false) × (skipped.rng ≡ false)
    → is_nonempty (without completed selected) ≡ false
    → is_nonempty (without skipped selected) ≡ false
    → next_source selected completed skipped ≡ 0
    → union completed skipped ≡ auxiliary selected
unfolding next_source
booked_ready a b c r p q n = ground arith

-- In READY, and in no other state of a session, every selected auxiliary source has been completed
-- or skipped; what was completed or skipped is never more than the selection.
pub ready_accounts :
    {Op : Type 0} (c : Context Op)
    → IsValid c
    → c.leaf ≡ ready
    → union c.completed c.skipped ≡ auxiliary c.selected
ready_accounts c v l =
    let a = v.accounted in
    booked_ready c.selected c.completed c.skipped a.no_rng a.completed_selected a.skipped_selected
      (v.in_order ∙ (subst (λ t. MatchesLeaf t c.current c.units) l v.current_leaf).0)

module _ {Op : Type 0} (env : Env Op) where
  stale_reference :
      (s : SmfState) (e : Event) (c : Context Op)
      → c.leaf ≡ s
      → e.kind ≢ begin_event
      → e.session ≢ c.session
      → dispatch_locked reference_smf env e c ≡ record c { event_result = default_result e.kind }
  unfolding dispatch_locked run_action source_run error_run active_run idle_run ready_run
  stale_reference idle e c l h n = ground arith
  stale_reference _ e c l h n = ground arith

  -- An event of another session, a late feed or a cancellation, leaves the context as it was, in
  -- every state, and answers -ECANCELED to a feed or a failure and -EINVAL to the rest. (A
  -- beginning is no such event: it makes its own session.)
  pub stale_unchanged :
      {smf : Smf}
      → IsHierarchical smf
      → (e : Event) (c : Context Op) → e.kind ≢ begin_event
      → e.session ≢ c.session
      → dispatch_locked smf env e c ≡ record c { event_result = default_result e.kind }
  stale_unchanged h e c k n =
      subst (λ m. dispatch_locked m env e c ≡ record c { event_result = default_result e.kind })
        (sym (smf-eq-reference h)) (stale_reference c.leaf e c refl k n)
