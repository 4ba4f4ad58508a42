-- ===== src/Entropy/Skipping.antt =====
-- A session of the entropy collector can always be brought to READY by skipping.
use oskey_firmware.Prelude.{
  ℕ, suc, ◌≤◌, ◌≡◌, ◌≢◌, inl, inr, refl, sym, ap, ◌∙◌, List, [], ◌∷◌, ◌==◌, arith, value, fail,
  Bool-cases, length, einval, ==_iff,
}
use oskey_firmware.Entropy.Source.{
  SmfState, idle, active, ready, next_source, Mask, union, auxiliary, without, popcount, bits,
}
use oskey_firmware.Entropy.Smf.{Smf, IsHierarchical, reference_smf}
use oskey_firmware.Entropy.Machine.{Context, Env, skip_event, transition_next}
use oskey_firmware.Entropy.Dispatch.{
  app_ready, app_state, source_run, error_run, active_run, active_switch, active_skip, idle_run,
  ready_run, run_action, dispatch_locked,
}
use oskey_firmware.Entropy.Api.{plain_event, skip, dispatch}
use oskey_firmware.Entropy.Invariant.{IsValid, MatchesLeaf, leaf-ne-active}
use oskey_firmware.Entropy.Transition.{smf-eq-reference}
use oskey_firmware.Entropy.Entering.{transition_next-Continues}
use oskey_firmware.Entropy.Calls.{IsValid-IsSound, dispatch-IsValid, initialize-started}

-- The selected sources that are neither completed nor skipped.
abbrev pub pending_count : Mask → Mask → Mask → ℕ
pending_count selected completed skipped =
    popcount (without (auxiliary selected) (union completed skipped))

pending_count-skip :
    (n : ℕ) (selected completed skipped : Mask)
    → next_source selected completed skipped ≡ n
    → n ≢ 0
    → suc (pending_count selected completed (union skipped (bits n)))
      ≡ pending_count selected completed skipped
unfolding next_source
pending_count-skip n a b c e h = ground arith

pending_count-none : (a b c : Mask) → pending_count a b c ≡ 0 → next_source a b c ≡ 0
unfolding next_source
pending_count-none a b c h = ground arith

none-pending_count : (a b c : Mask) → next_source a b c ≡ 0 → pending_count a b c ≡ 0
unfolding next_source
none-pending_count a b c h = ground arith

abbrev pub pending : {Op : Type 0} → Context Op → ℕ
pending c = pending_count c.selected c.completed c.skipped

-- `app_entropy_skip` of the current session, once for each environment.
abbrev pub skip_all : {Op : Type 0} → Smf → List (Env Op) → Context Op → Context Op
skip_all smf [] c = c
skip_all smf (env ∷ rest) c = skip_all smf rest (skip smf env c.session c)

module _ {Op : Type 0} (env : Env Op) where
  abbrev skipping : Context Op → Context Op
  skipping c = record c { skipped = union c.skipped (bits c.current); event_result = value 0 }

  skip_reference :
      (s : SmfState) (c : Context Op)
      → c.leaf ≡ s
      → MatchesLeaf s c.current c.units
      → c.current ≢ 0
      → dispatch_locked reference_smf env (plain_event skip_event c.session) c
        ≡ transition_next env reference_smf (skipping c)
  unfolding dispatch_locked run_action source_run error_run active_run active_switch active_skip
      idle_run
  skip_reference idle c l m n = absurd (n m.0)
  skip_reference active c l m n = absurd m
  skip_reference ready c l m n = absurd (n m.0)
  skip_reference _ c l m n = ground arith

  skip_ready_reference :
      (c : Context Op)
      → c.leaf ≡ ready
      → dispatch_locked reference_smf env (plain_event skip_event c.session) c
        ≡ record c { event_result = fail einval }
  unfolding dispatch_locked run_action ready_run
  skip_ready_reference c l = ground arith

ready_of_none : (s : SmfState) (n u : ℕ) → MatchesLeaf s n u → n ≡ 0 → s ≢ idle → s ≡ ready
ready_of_none idle n u m e i = absurd (i refl)
ready_of_none _ n u m e i = ground arith

module _ {Op : Type 0} {smf : Smf} (h : IsHierarchical smf) (env : Env Op) where
  skip-unfold :
      (c : Context Op)
      → IsValid c
      → skip smf env c.session c
        ≡ dispatch_locked reference_smf env (plain_event skip_event c.session) c
  unfolding skip dispatch
  skip-unfold c v =
      ap (dispatch_locked smf env (plain_event skip_event c.session))
        (initialize-started env h c v.initialized)
      ∙ ap (λ m. dispatch_locked m env (plain_event skip_event c.session) c) (smf-eq-reference h)

  skip-IsValid : (c : Context Op) → IsValid c → IsValid (skip smf env c.session c)
  unfolding skip
  skip-IsValid c v = dispatch-IsValid env h (plain_event skip_event c.session) c (IsValid-IsSound v)

  skip-step :
      (c : Context Op)
      → IsValid c
      → c.current ≢ 0
      → (suc (pending (skip smf env c.session c)) ≡ pending c)
        × ((skip smf env c.session c).leaf ≢ idle)
  skip-step c v n =
      let e = skip-unfold c v ∙ skip_reference env c.leaf c refl v.current_leaf n in
      let (b, i) = transition_next-Continues env (skipping env c) (leaf-ne-active c v) in
      (
        rw (e, b.same_selected, b.same_completed, b.same_skipped)
            (pending_count-skip c.current c.selected c.completed c.skipped v.in_order n),
        rw e i,
      )

  skip-ready :
      (c : Context Op)
      → IsValid c
      → c.leaf ≡ ready
      → (pending (skip smf env c.session c) ≡ pending c) × ((skip smf env c.session c).leaf ≡ ready)
  skip-ready c v l = rw (skip-unfold c v ∙ skip_ready_reference env c l) (refl, l)

module _ {Op : Type 0} {smf : Smf} (h : IsHierarchical smf) where
  current_ready : (c : Context Op) → IsValid c → c.leaf ≢ idle → c.current ≡ 0 → c.leaf ≡ ready
  current_ready c v i e = ready_of_none c.leaf c.current c.units v.current_leaf e i

  skip_all-ready :
      (envs : List (Env Op)) (c : Context Op)
      → IsValid c
      → c.leaf ≢ idle
      → pending c ≤ length envs
      → IsValid (skip_all smf envs c) × ((skip_all smf envs c).leaf ≡ ready)
  skip_all-ready [] c v i p =
      (v, current_ready c v i (sym v.in_order ∙ pending_count-none _ _ _ (omega arith)))
  skip_all-ready (env ∷ rest) c v i p = elim (Bool-cases (c.current == 0)) [
    | inl z ↦
        let e : c.current ≡ 0 = (==_iff c.current 0).0 z in
        let l = current_ready c v i e in
        let (q, r) = skip-ready h env c v l in
        skip_all-ready rest (skip smf env c.session c) (skip-IsValid h env c v) (λ j. cc)
          (omega (arith, q, none-pending_count _ _ _ (v.in_order ∙ e)))
    | inr nz ↦
        let (q, j) = skip-step h env c v (ground arith) in
        skip_all-ready rest (skip smf env c.session c) (skip-IsValid h env c v) j (omega arith)
  ]

  -- From any state of a session, failed sources included, as many skips as there are selected
  -- sources left bring the collector to READY, whatever the hash, the sensors and the clock do.
  pub skips_reach_ready :
      (envs : List (Env Op)) (c : Context Op)
      → IsValid c
      → c.leaf ≢ idle
      → pending c ≤ length envs
      → app_state (skip_all smf envs c) ≡ app_ready
  unfolding app_state
  skips_reach_ready envs c v i p = let (w, l) = skip_all-ready envs c v i p in rw (w.initialized, l)
