-- ===== src/Entropy/Beginning.antt =====
-- How `app_entropy_begin` ends, on every branch.
use mathlib.Core.Path.{subst}
use oskey_firmware.Prelude.{
  ℕ, ◌≡◌, ◌≢◌, ◌⊎◌, inl, inr, refl, sym, ◌∙◌, Bool, true, false, Option, none, some, arith, Code,
  value, fail, Bool-cases, einval, eio, ebusy, is_zero,
}
use oskey_firmware.Entropy.Source.{
  SmfState, idle, no_sources, next_source, Mask, union, without, bits, overlaps, is_nonempty,
}
use oskey_firmware.Entropy.Smf.{Smf, IsHierarchical, reference_smf}
use oskey_firmware.Entropy.Machine.{Context, Env, begin_event, initialize, transition_next}
use oskey_firmware.Entropy.Dispatch.{
  AppState, app_idle, leaf_state, app_state, idle_run, run_action, dispatch_locked,
}
use oskey_firmware.Entropy.Api.{plain_event, begin, begin_refuses, next_session, is_idle}
use oskey_firmware.Entropy.Invariant.{IsValid, IsLeavable, IsValid-IsLeavable, leaf-ne-active}
use oskey_firmware.Entropy.Order.{LaterUntouched}
use oskey_firmware.Entropy.Transition.{smf-eq-reference}
use oskey_firmware.Entropy.Entering.{transition_next-Continues, transition_next-IsValid}
use oskey_firmware.Entropy.Calls.{IsSound, initialize-IsValid}

-- The session `n` has begun, over exactly the asked sources and the hardware generator.
pub record IsBegun {Op : Type 0} (words sources n : ℕ) (r : Context Op × Code × Option ℕ)
    : Type 0 where
  pub valid : IsValid r.0
  pub answer : r.1 ≡ value 0
  pub number : r.2 ≡ some n
  pub number_ne : n ≢ 0
  pub session_is : r.0.session ≡ n
  pub words_are : r.0.words ≡ words
  pub selected_are : r.0.selected ≡ union (bits sources) (bits 1)
  pub none_completed : r.0.completed ≡ no_sources
  pub none_skipped : r.0.skipped ≡ no_sources
  pub has_source : r.0.current ≢ 0

next_session-ne : (n : ℕ) → next_session n ≢ 0
next_session-ne n = ground arith

idle_leaf : (s : SmfState) → leaf_state s ≡ app_idle → s ≡ idle
idle_leaf idle e = refl
idle_leaf _ e = ground arith

first_source-ne :
    (available : Mask) (words sources : ℕ) (has_out : Bool)
    → begin_refuses available words sources has_out ≡ false
    → next_source (union (bits sources) (bits 1)) no_sources no_sources ≢ 0
unfolding next_source
first_source-ne a w s o h = ground arith

next_source-cong :
    {a b c a' b' c' : Mask} → a ≡ a' → b ≡ b' → c ≡ c' → next_source a b c ≡ next_source a' b' c'
next_source-cong p q r = cc

is_idle-eq : (s : AppState) → is_idle s ≡ true → s ≡ app_idle
is_idle-eq s e = ground arith

is_idle-ne : (s : AppState) → is_idle s ≡ false → s ≢ app_idle
is_idle-ne s e p = ground arith

module _ {Op : Type 0} (env : Env Op) where
  begin_reference :
      (n : ℕ) (c : Context Op)
      → c.leaf ≡ idle
      → dispatch_locked reference_smf env (plain_event begin_event n) c
        ≡ transition_next env reference_smf (record c { event_result = value 0 })
  unfolding dispatch_locked run_action idle_run
  begin_reference n c l = ground arith

  -- The context that `app_entropy_begin` dispatches the event to.
  abbrev armed : ℕ → ℕ → Mask → Context Op → Context Op
  armed n words sel c = record c {
    session = n;
    words = words;
    selected = sel;
    event_result = value 0;
  }

  later_clear : (sel a b : Mask) → a ≡ no_sources → b ≡ no_sources → LaterUntouched sel a b
  later_clear sel a b p q = rw (p, q)

  clear_booked :
      (sel a b : Mask)
      → a ≡ no_sources
      → b ≡ no_sources
      → (overlaps a b ≡ false)
        × (is_nonempty (without a sel) ≡ false)
        × (is_nonempty (without b sel) ≡ false)
        × (a.rng ≡ false)
        × (b.rng ≡ false)
  clear_booked sel a b p q = rw (p, q) (refl, refl, refl, refl, refl)

  armed-IsLeavable :
      (n words : ℕ) (sel : Mask) (c : Context Op)
      → IsValid c
      → c.leaf ≡ idle
      → IsLeavable (armed n words sel c)
  armed-IsLeavable n words sel c v l =
      let w = IsValid-IsLeavable c v in
      let b = clear_booked sel c.completed c.skipped (v.idle_clear l).0 (v.idle_clear l).1 in
      record {
        initialized = v.initialized;
        accounted = record {
          no_rng = (b.3, b.4);
          disjoint = b.0;
          completed_selected = b.1;
          skipped_selected = b.2;
          record_slots = v.accounted.record_slots;
          digests = v.accounted.digests;
          later_untouched =
              later_clear sel c.completed c.skipped (v.idle_clear l).0 (v.idle_clear l).1;
          records_are = v.accounted.records_are;
        };
        quiet_outside = w.quiet_outside;
        imu_live = v.imu_live;
        microphone_live = v.microphone_live;
      }

  IsBegun-reference :
      (n words sources : ℕ) (c : Context Op)
      → IsValid c
      → c.leaf ≡ idle
      → n ≢ 0
      → next_source (union (bits sources) (bits 1)) no_sources no_sources ≢ 0
      → let d =
          dispatch_locked reference_smf env
            (plain_event begin_event n)
            (record c { session = n; words = words; selected = union (bits sources) (bits 1) }) in
        IsBegun words sources n (d, d.event_result, some n)
  IsBegun-reference n words sources c v l m f =
      let a = armed n words (union (bits sources) (bits 1)) c in
      let w =
        transition_next-IsValid env a (armed-IsLeavable n words _ c v l) (leaf-ne-active c v) in
      let (b, i) = transition_next-Continues env a (leaf-ne-active c v) in
      let (p, q) = v.idle_clear l in
      rw
        (begin_reference n
          (record c { session = n; words = words; selected = union (bits sources) (bits 1) }) l)
        (record {
          valid = w;
          answer = b.same_result;
          number = refl;
          number_ne = m;
          session_is = b.same_session;
          words_are = b.same_words;
          selected_are = b.same_selected;
          none_completed = b.same_completed ∙ p;
          none_skipped = b.same_skipped ∙ q;
          has_source = λ e. f (
              sym (next_source-cong b.same_selected (b.same_completed ∙ p) (b.same_skipped ∙ q))
              ∙ w.in_order
              ∙ e);
        })

opened_idle : {Op : Type 0} (c : Context Op) → IsValid c → app_state c ≡ app_idle → c.leaf ≡ idle
unfolding app_state
opened_idle c v e = idle_leaf c.leaf (rw v.initialized at e)

module _ {Op : Type 0} (env : Env Op) {smf : Smf} (h : IsHierarchical smf) where
  -- `app_entropy_begin` either begins a session, and then is in a valid context with a source of
  -- that session current, or it fails, stores no session number, and leaves the context as it was
  -- but for its first initialisation. Arguments that fail the checks end it with -EINVAL, whatever
  -- the crypto library and the state are; a crypto library that does not start ends it with -EIO,
  -- whatever the state is; an open session ends it with -EBUSY; else the session begins.
  pub begin_outcome :
      (available : Mask) (crypto : Code) (words sources : ℕ) (has_out : Bool) (c : Context Op)
      → IsSound c
      → let r = begin smf env available crypto words sources has_out c in
        let opened = initialize env smf c in
        ((begin_refuses available words sources has_out ≡ false)
          × (is_zero crypto ≡ true)
          × (app_state opened ≡ app_idle)
          × IsBegun words sources (next_session opened.session) r)
        ⊎ ((r ≡ (c, fail einval, none)) × (begin_refuses available words sources has_out ≡ true))
        ⊎ ((r ≡ (c, fail eio, none))
            × (begin_refuses available words sources has_out ≡ false)
            × (is_zero crypto ≡ false))
        ⊎ ((r ≡ (opened, fail ebusy, none))
            × (begin_refuses available words sources has_out ≡ false)
            × (is_zero crypto ≡ true)
            × (app_state opened ≢ app_idle))
  unfolding begin
  begin_outcome available crypto words sources has_out c s =
      elim (Bool-cases (begin_refuses available words sources has_out)) [
        | inl bad ↦ inr (inl (rw bad, bad))
        | inr good ↦ elim (Bool-cases (is_zero crypto)) [
          | inr broken ↦ inr (inr (inl (rw (good, broken), good, broken)))
          | inl fine ↦ elim (Bool-cases (is_idle (app_state opened))) [
            | inr busy ↦
                inr (
                  inr (inr (rw (good, fine, busy), good, fine, is_idle-ne (app_state opened) busy)))
            | inl free ↦ inl (
              good,
              fine,
              is_idle-eq (app_state opened) free,
              rw (good, fine, free) (begun (is_idle-eq (app_state opened) free) good),
            )
          ]
        ]
      ]
    where
      opened : Context Op
      opened = initialize env smf c

      opened_valid : IsValid opened
      opened_valid = initialize-IsValid env h c s

      begun :
          app_state opened ≡ app_idle
          → begin_refuses available words sources has_out ≡ false
          → let n = next_session opened.session in
            let d = dispatch_locked smf env (plain_event begin_event n) (record opened {
              session = n;
              words = words;
              selected = union (bits sources) (bits 1);
            }) in
            IsBegun words sources n (d, d.event_result, some n)
      begun free good =
          let n = next_session opened.session in
          subst
            (λ m.
              let d = dispatch_locked m env (plain_event begin_event n) (record opened {
                session = n;
                words = words;
                selected = union (bits sources) (bits 1);
              }) in
              IsBegun words sources n (d, d.event_result, some n))
            (sym (smf-eq-reference h))
            (IsBegun-reference env n words sources opened opened_valid
              (opened_idle opened opened_valid free) (next_session-ne opened.session)
              (first_source-ne available words sources has_out good))
