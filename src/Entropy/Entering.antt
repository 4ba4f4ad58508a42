-- ===== src/Entropy/Entering.antt =====
-- Transitions of the entropy machine lead from a context that may be left to a valid one.
use mathlib.Core.Path.{subst}
use oskey_firmware.Prelude.{ℕ, ◌≡◌, ◌≢◌, inl, inr, refl, sym, ap, ◌∙◌, true, false, arith, is_zero}
use oskey_firmware.Entropy.Source.{
  SmfState, idle, active, touch, imu, camera, microphone, source_error, ready, same_state,
  next_source, source_get, source_from_state,
}
use oskey_firmware.Entropy.Smf.{reference_smf}
use oskey_firmware.Entropy.Machine.{
  Context, Env, exit_action, entry_action, hash_prologue, transition_next, set_state,
}
use oskey_firmware.Entropy.Order.{next_source_cases}
use oskey_firmware.Entropy.Transition.{leave_for, set_state_lem}
use oskey_firmware.Entropy.Invariant.{
  SameBooks, SameBooks-trans, IsAccounted-SameBooks, IsValid, IsQuiet, IsLeavable, MatchesLeaf,
  is_source, source_code, imu_running, microphone_running,
}

-- The part of the invariant that depends on the leaf, with its current source.
record IsLive {Op : Type 0} (n : ℕ) (c : Context Op) : Type 0 where
  initialized : c.started ≡ true
  current_is : c.current ≡ n
  current_leaf : MatchesLeaf c.leaf c.current c.units
  hash_live : c.hash_active ≡ is_source c.leaf
  imu_live : imu_running c.hooks ≡ same_state c.leaf imu
  microphone_live : microphone_running c.hooks ≡ same_state c.leaf microphone
  not_idle : c.leaf ≢ idle

ready-ne-idle : ready ≢ idle
ready-ne-idle p = cc

error-ne-idle : source_error ≢ idle
error-ne-idle p = cc

module _ {Op : Type 0} (env : Env Op) where
  leave_for-IsQuiet : (c : Context Op) (t : SmfState) → IsLeavable c → IsQuiet (leave_for env c t)
  unfolding exit_action
  leave_for-IsQuiet c t v = ground arith

  hash_prologue_live :
      (n : ℕ) → is_zero (hash_prologue env n).0 ≡ true → (hash_prologue env n).2 ≡ true
  unfolding hash_prologue
  hash_prologue_live n h = ground arith

  -- Entering a source, with the error path of its entry action.
  enter_source-IsLive :
      (t : SmfState) (c : Context Op)
      → is_source t ≡ true
      → c.started ≡ true
      → c.hash_active ≡ false
      → imu_running c.hooks ≡ false
      → microphone_running c.hooks ≡ false
      → c.leaf ≡ t
      → IsLive (source_code t) (entry_action env (leave_for env) t c)
  unfolding entry_action exit_action source_from_state
  enter_source-IsLive idle c h s a i m l = cc
  enter_source-IsLive touch c h s a i m l = ground (arith, hash_prologue_live 2)
  enter_source-IsLive imu c h s a i m l = ground (arith, hash_prologue_live 4)
  enter_source-IsLive camera c h s a i m l = ground (arith, hash_prologue_live 8)
  enter_source-IsLive microphone c h s a i m l = ground (arith, hash_prologue_live 16)
  enter_source-IsLive _ c h s a i m l = cc

  enter_source-SameBooks :
      (t : SmfState) (c : Context Op)
      → is_source t ≡ true
      → SameBooks c (entry_action env (leave_for env) t c)
  unfolding entry_action exit_action source_from_state
  enter_source-SameBooks idle c h = cc
  enter_source-SameBooks _ c h = ground arith

  enter_source-IsValid :
      (t : SmfState) (c : Context Op)
      → is_source t ≡ true
      → IsQuiet c
      → c.leaf ≡ t
      → next_source c.selected c.completed c.skipped ≡ source_code t
      → IsValid (entry_action env (leave_for env) t c)
  enter_source-IsValid t c h q l n =
      let b = enter_source-SameBooks t c h in
      let v = enter_source-IsLive t c h q.initialized q.hash_dead q.imu_dead q.microphone_dead l in
      record {
        initialized = v.initialized;
        accounted = IsAccounted-SameBooks b q.accounted;
        current_leaf = v.current_leaf;
        in_order = rw (b.same_completed, b.same_skipped, b.same_selected) (n ∙ sym v.current_is);
        hash_live = v.hash_live;
        imu_live = v.imu_live;
        microphone_live = v.microphone_live;
        idle_clear = λ p. absurd (v.not_idle p);
      }

  enter_ready-IsValid :
      (c : Context Op)
      → IsQuiet c
      → c.leaf ≡ ready
      → next_source c.selected c.completed c.skipped ≡ 0
      → IsValid (entry_action env (leave_for env) ready c)
  unfolding entry_action
  enter_ready-IsValid c q l n = record {
    initialized = q.initialized;
    accounted = q.accounted;
    current_leaf = subst (λ s. MatchesLeaf s 0 0) (sym l) (refl, refl);
    in_order = n;
    hash_live = q.hash_dead ∙ sym (ap is_source l);
    imu_live = q.imu_dead ∙ sym (ap (λ s. same_state s imu) l);
    microphone_live = q.microphone_dead ∙ sym (ap (λ s. same_state s microphone) l);
    idle_clear = λ p. absurd (ready-ne-idle (sym l ∙ p));
  }

  enter_idle-IsValid :
      (c : Context Op)
      → c.started ≡ true
      → imu_running c.hooks ≡ false
      → microphone_running c.hooks ≡ false
      → c.leaf ≡ idle
      → IsValid (entry_action env (leave_for env) idle c)
  unfolding entry_action next_source
  enter_idle-IsValid c s i m l = ground arith

  enter_error-IsValid :
      (c : Context Op)
      → IsQuiet c
      → c.leaf ≡ source_error
      → next_source c.selected c.completed c.skipped ≡ c.current
      → c.current ≢ 0
      → IsValid c
  enter_error-IsValid c q l n h = record {
    initialized = q.initialized;
    accounted = q.accounted;
    current_leaf = subst (λ s. MatchesLeaf s c.current c.units) (sym l) (h, q.no_units);
    in_order = n;
    hash_live = q.hash_dead ∙ sym (ap is_source l);
    imu_live = q.imu_dead ∙ sym (ap (λ s. same_state s imu) l);
    microphone_live = q.microphone_dead ∙ sym (ap (λ s. same_state s microphone) l);
    idle_clear = λ p. absurd (error-ne-idle (sym l ∙ p));
  }

  leave_for-next :
      (c : Context Op) (t : SmfState)
      → next_source
          (leave_for env c t).selected
          (leave_for env c t).completed
          (leave_for env c t).skipped
        ≡ next_source c.selected c.completed c.skipped
  unfolding exit_action
  leave_for-next c t = ground arith

  leave_for-current : (c : Context Op) (t : SmfState) → (leave_for env c t).current ≡ c.current
  unfolding exit_action
  leave_for-current c t = ground arith

  IsLeavable-transition :
      (t : SmfState) (c : Context Op)
      → IsLeavable c
      → c.leaf ≢ active
      → t ≢ active
      → IsQuiet (leave_for env c t)
        × (set_state env reference_smf c t ≡ entry_action env (leave_for env) t (leave_for env c t))
  IsLeavable-transition t c v l h = (leave_for-IsQuiet c t v, set_state_lem env t c l h)

  -- Going on to the next source, from any context that may be left.
  pub transition_next-IsValid_at :
      (c : Context Op) (t : SmfState)
      → IsLeavable c
      → c.leaf ≢ active
      → is_source t ≡ true
      → t ≢ active
      → next_source c.selected c.completed c.skipped ≡ source_code t
      → IsValid (set_state env reference_smf c t)
  unfolding exit_action
  transition_next-IsValid_at c t v l s a n =
      let (q, e) = IsLeavable-transition t c v l a in
      rw e (enter_source-IsValid t (leave_for env c t) s q refl (leave_for-next c t ∙ n))

  pub transition_next-IsValid :
      (c : Context Op)
      → IsLeavable c
      → c.leaf ≢ active
      → IsValid (transition_next env reference_smf c)
  unfolding transition_next source_get
  transition_next-IsValid c v l = elim (next_source_cases c.selected c.completed c.skipped) [
    | inl n ↦
        let (q, e) = IsLeavable-transition ready c v l (λ p. cc) in
        rw (n, transition_next, e)
          (enter_ready-IsValid (leave_for env c ready) q refl (leave_for-next c ready ∙ n))
    | inr (inl n) ↦
        rw (n, transition_next) (transition_next-IsValid_at c touch v l refl (λ p. cc) n)
    | inr (inr (inl n)) ↦
        rw (n, transition_next) (transition_next-IsValid_at c imu v l refl (λ p. cc) n)
    | inr (inr (inr (inl n))) ↦
        rw (n, transition_next) (transition_next-IsValid_at c camera v l refl (λ p. cc) n)
    | inr (inr (inr (inr n))) ↦
        rw (n, transition_next) (transition_next-IsValid_at c microphone v l refl (λ p. cc) n)
  ]

  pub to_idle-IsValid :
      (c : Context Op)
      → IsLeavable c
      → c.leaf ≢ active
      → IsValid (set_state env reference_smf c idle)
  to_idle-IsValid c v l =
      let (q, e) = IsLeavable-transition idle c v l (λ p. cc) in
      rw e
        (enter_idle-IsValid (leave_for env c idle) q.initialized q.imu_dead q.microphone_dead refl)

  pub to_error-IsValid :
      (c : Context Op)
      → IsLeavable c
      → c.leaf ≢ active
      → next_source c.selected c.completed c.skipped ≡ c.current
      → c.current ≢ 0
      → IsValid (set_state env reference_smf c source_error)
  unfolding entry_action
  to_error-IsValid c v l n h =
      let (q, e) = IsLeavable-transition source_error c v l (λ p. cc) in
      rw e (
        enter_error-IsValid (leave_for env c source_error) q refl
          (leave_for-next c source_error ∙ n ∙ sym (leave_for-current c source_error))
          (λ p. h (sym (leave_for-current c source_error) ∙ p)))

  leave_for-SameBooks : (c : Context Op) (t : SmfState) → SameBooks c (leave_for env c t)
  unfolding exit_action
  leave_for-SameBooks c t = ground arith

  enter_ready-SameBooks : (c : Context Op) → SameBooks c (entry_action env (leave_for env) ready c)
  unfolding entry_action
  enter_ready-SameBooks c = ground arith

  enter_source-ne-idle :
      (t : SmfState) (c : Context Op)
      → is_source t ≡ true
      → c.leaf ≡ t
      → (entry_action env (leave_for env) t c).leaf ≢ idle
  unfolding entry_action exit_action source_from_state
  enter_source-ne-idle idle c h l = cc
  enter_source-ne-idle _ c h l = ground arith

  -- A transition to the next source or to READY stays in the session.
  abbrev pub Continues : Context Op → Context Op → Type 0
  Continues c d = SameBooks c d × (d.leaf ≢ idle)

  to_source-Continues :
      (c : Context Op) (t : SmfState)
      → c.leaf ≢ active
      → is_source t ≡ true
      → t ≢ active
      → Continues c (set_state env reference_smf c t)
  unfolding exit_action
  to_source-Continues c t l s a = rw (set_state_lem env t c l a) (
    SameBooks-trans (leave_for-SameBooks c t) (enter_source-SameBooks t (leave_for env c t) s),
    enter_source-ne-idle t (leave_for env c t) s refl,
  )

  to_ready-Continues :
      (c : Context Op) → c.leaf ≢ active → Continues c (set_state env reference_smf c ready)
  unfolding entry_action
  to_ready-Continues c l = rw (set_state_lem env ready c l (λ p. cc)) (
    SameBooks-trans (leave_for-SameBooks c ready) (enter_ready-SameBooks (leave_for env c ready)),
    ready-ne-idle,
  )

  pub transition_next-Continues :
      (c : Context Op) → c.leaf ≢ active → Continues c (transition_next env reference_smf c)
  unfolding transition_next source_get
  transition_next-Continues c l = elim (next_source_cases c.selected c.completed c.skipped) [
    | inl n ↦ rw (n, transition_next) (to_ready-Continues c l)
    | inr (inl n) ↦ rw (n, transition_next) (to_source-Continues c touch l refl (λ p. cc))
    | inr (inr (inl n)) ↦ rw (n, transition_next) (to_source-Continues c imu l refl (λ p. cc))
    | inr (inr (inr (inl n))) ↦
        rw (n, transition_next) (to_source-Continues c camera l refl (λ p. cc))
    | inr (inr (inr (inr n))) ↦
        rw (n, transition_next) (to_source-Continues c microphone l refl (λ p. cc))
  ]
