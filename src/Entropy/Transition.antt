-- ===== src/Entropy/Transition.antt =====
-- Where the framework follows its documentation, `smf_set_state` leaves the leaf state and enters
-- the target, and the depth bound of the model is never met.
use mathlib.Core.Path.{fun_ext, subst}
use oskey_firmware.Prelude.{ℕ, suc, ◌≡◌, ◌≢◌, refl, sym, ap, ◌∙◌, arith}
use oskey_firmware.Entropy.Source.{SmfState, idle, active}
use oskey_firmware.Entropy.Smf.{Smf, IsHierarchical, reference_smf, exit_order, entry_order}
use oskey_firmware.Entropy.Machine.{
  Context, Env, exit_action, entry_action, exit_all, enter_all, set_state_depth, set_state,
  source_entry,
}

pub smf-eq-reference : {smf : Smf} → IsHierarchical smf → smf ≡ reference_smf
smf-eq-reference h = λ i. record {
  exits = fun_ext (λ s. fun_ext (λ t. h.exits_lem s t)) i;
  entries = fun_ext (λ s. fun_ext (λ t. h.entries_lem s t)) i;
  initial = fun_ext (λ t. h.initial_lem t) i;
  runs = fun_ext (λ s. h.runs_lem s) i;
}

module _ {Op : Type 0} (env : Env Op) where
  -- What `smf_set_state` does when it is called again by the entry action of a source.
  abbrev pub leave_for : Context Op → SmfState → Context Op
  leave_for c t = record (exit_action env c.leaf c) { leaf = t }

  exit_all-order :
      (s t : SmfState) (c : Context Op)
      → s ≢ active
      → exit_all env (exit_order s t) c ≡ exit_action env s c
  unfolding exit_order exit_action
  exit_all-order s t c h = ground arith

  enter_all-order :
      (goto : Context Op → SmfState → Context Op) (s t : SmfState) (c : Context Op)
      → t ≢ active
      → enter_all env goto (entry_order s t) c ≡ entry_action env goto t c
  unfolding entry_order entry_action
  enter_all-order goto s t c h = ground arith

  set_state_depth_lem :
      (depth : ℕ) (t : SmfState) (c : Context Op)
      → c.leaf ≢ active
      → t ≢ active
      → set_state_depth env reference_smf (suc depth) c t
        ≡ entry_action env (set_state_depth env reference_smf depth) t (leave_for c t)
  unfolding set_state_depth
  set_state_depth_lem depth t c hc ht =
      enter_all-order (set_state_depth env reference_smf depth) c.leaf t
        (record (exit_all env (exit_order c.leaf t) c) { leaf = t }) ht
      ∙ ap
          (λ d.
            entry_action env (set_state_depth env reference_smf depth) t (record d { leaf = t }))
          (exit_all-order c.leaf t c hc)

  -- Two levels are enough: the entry of a source calls `smf_set_state` at most once more.
  entry_action-goto :
      (depth : ℕ) (t : SmfState) (c : Context Op)
      → c.leaf ≡ t
      → entry_action env (set_state_depth env reference_smf (suc depth)) t c
        ≡ entry_action env leave_for t c
  unfolding entry_action set_state_depth entry_order exit_order source_entry
  entry_action-goto depth idle c h = refl
  entry_action-goto depth _ c h = ground arith

  pub set_state_lem :
      (t : SmfState) (c : Context Op)
      → c.leaf ≢ active
      → t ≢ active
      → set_state env reference_smf c t ≡ entry_action env leave_for t (leave_for c t)
  unfolding set_state
  set_state_lem t c hc ht =
      set_state_depth_lem 1 t c hc ht ∙ entry_action-goto 0 t (leave_for c t) refl

  -- A transition gives the same context at every depth bound from 2 up.
  pub set_state_depth_enough :
      {smf : Smf}
      → IsHierarchical smf
      → (depth : ℕ) (t : SmfState) (c : Context Op) → c.leaf ≢ active
      → t ≢ active
      → set_state_depth env smf (suc (suc depth)) c t ≡ set_state env smf c t
  unfolding set_state
  set_state_depth_enough h depth t c hc ht =
      subst (λ m. set_state_depth env m (suc (suc depth)) c t ≡ set_state env m c t)
        (sym (smf-eq-reference h))
        (set_state_depth_lem (suc depth) t c hc ht
          ∙ entry_action-goto depth t (leave_for c t) refl
          ∙ sym (set_state_depth_lem 1 t c hc ht ∙ entry_action-goto 0 t (leave_for c t) refl))
