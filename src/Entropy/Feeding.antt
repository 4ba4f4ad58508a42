-- ===== src/Entropy/Feeding.antt =====
-- Feeding a source keeps the context valid: on every branch, errors of the hash included.
use mathlib.Core.List.{map-append}
use oskey_firmware.Prelude.{
  ℕ, ◌+◌, ◌<◌, ◌≡◌, ◌≢◌, ◌⊎◌, inl, inr, refl, sym, ap, ◌∙◌, true, false, not, ◌||◌, map, take, ◌==◌,
  arith, length, length-set, All-set, take-set_self, take-suc-set, set, u32, Code, value, fail, eio,
  is_zero, Bool-cases,
}
use oskey_firmware.Entropy.Source.{
  SmfState, idle, active, touch, imu, camera, microphone, source_error, same_state, popcount,
  next_source, progress, source_get, mask_codes, bits, union,
}
use oskey_firmware.Entropy.Smf.{reference_smf}
use oskey_firmware.Entropy.Machine.{
  Context, Env, Event, Record, zero_record, complete_source, hash_feed, elapsed_ms,
}
use oskey_firmware.Entropy.Dispatch.{source_feed, fails_source, feed_outcome}
use oskey_firmware.Entropy.Invariant.{
  HasDigest, IsBooked, IsAccounted, IsValid, IsLeavable, MatchesLeaf, is_source, imu_running,
  microphone_running,
}
use oskey_firmware.Entropy.Order.{union-next, later-union, mask_codes-union}
use oskey_firmware.Entropy.Entering.{transition_next-IsValid, to_error-IsValid}

pub progress_lt :
    (n u : ℕ)
    → MatchesLeaf source_error n 0
    → progress n u ≢ 1000
    → (n ≡ 2 → u < 64) × (n ≡ 4 → u < 256) × (n ≡ 8 → u < 8) × (n ≡ 16 → u < 48000)
unfolding progress source_get
progress_lt n u h p = ground arith

source_current-ne : (s : SmfState) (n u : ℕ) → MatchesLeaf s n u → is_source s ≡ true → n ≢ 0
source_current-ne idle n u m h = cc
source_current-ne _ n u m h = ground arith

-- The leaf's claim on the units, from a progress that is not complete.
MatchesLeaf-progress :
    (s : SmfState) (n u u' : ℕ)
    → MatchesLeaf s n u
    → is_source s ≡ true
    → progress n u' ≢ 1000
    → MatchesLeaf s n u'
MatchesLeaf-progress idle n u u' m h p = cc
MatchesLeaf-progress touch n u u' m h p = (m.0, (progress_lt n u' (ground arith) p).0 m.0)
MatchesLeaf-progress imu n u u' m h p = (m.0, (progress_lt n u' (ground arith) p).1 m.0)
MatchesLeaf-progress camera n u u' m h p = (m.0, (progress_lt n u' (ground arith) p).2 m.0)
MatchesLeaf-progress microphone n u u' m h p = (m.0, (progress_lt n u' (ground arith) p).3 m.0)
MatchesLeaf-progress _ n u u' m h p = cc

source-ne-active : (s : SmfState) → is_source s ≡ true → s ≢ active
source-ne-active idle h e = cc
source-ne-active _ h e = ground arith

relabel-IsLeavable :
    {Op : Type 0} (code : Code) {d : Context Op}
    → IsLeavable d
    → IsLeavable (record d { last_error = code; event_result = code })
relabel-IsLeavable code w = record {
  initialized = w.initialized;
  accounted = w.accounted;
  quiet_outside = w.quiet_outside;
  imu_live = w.imu_live;
  microphone_live = w.microphone_live;
}

module _ {Op : Type 0} (env : Env Op) where
  abbrev pub closed : Context Op → Context Op
  closed c = record c { hash = env.hash_init; hash_active = false }

  abbrev pub completed_record : ℕ → Context Op → Record
  completed_record d c = record {
    source = c.current;
    units = c.units;
    duration_ms = d;
    digest = (env.hash_finish c.hash).1;
  }

  -- The three ways in which a feed leaves the hash of its source.
  pub complete_source_cases :
      (d : ℕ) (c : Context Op)
      → ((progress c.current c.units ≢ 1000) × (complete_source env d c ≡ (value 0, c)))
        ⊎ (complete_source env d c ≡ (
          fail eio,
          record (closed c) { records = set c.records (popcount c.completed) zero_record },
        ))
        ⊎ ((length (env.hash_finish c.hash).1 ≡ 32)
            × (complete_source env d c ≡ (
              value 1,
              record (closed c) {
                records = set c.records (popcount c.completed) (completed_record d c);
                completed = union c.completed (bits c.current);
              },
            )))
  unfolding complete_source
  complete_source_cases d c = elim (Bool-cases (progress c.current c.units == 1000)) [
    | inl p ↦
        elim (Bool-cases (
          not (is_zero (env.hash_finish c.hash).0)
          || not (length (env.hash_finish c.hash).1 == 32))) [
            | inl q ↦ inr (inl (rw (p, q)))
            | inr q ↦ inr (inr (ground arith, rw (p, q)))
          ]
    | inr p ↦ inl (ground arith, rw p)
  ]

  -- The context in a source state during a feed: the hash may be open or closed, the masks and
  -- records are as before.
  pub feeding-IsLeavable :
      {c : Context Op} (d : Context Op)
      → IsValid c
      → is_source c.leaf ≡ true
      → IsAccounted d
      → d.started ≡ c.started
      → d.leaf ≡ c.leaf
      → d.hooks ≡ c.hooks
      → IsLeavable d
  feeding-IsLeavable d v s a b l h = record {
    initialized = b ∙ v.initialized;
    accounted = a;
    quiet_outside = λ p. cc;
    imu_live = ap imu_running h ∙ v.imu_live ∙ sym (ap (λ x. same_state x imu) l);
    microphone_live =
        ap microphone_running h ∙ v.microphone_live ∙ sym (ap (λ x. same_state x microphone) l);
  }

  pub current-ne-none : (c : Context Op) → IsValid c → is_source c.leaf ≡ true → c.current ≢ 0
  current-ne-none c v s = source_current-ne c.leaf c.current c.units v.current_leaf s

  fails_source-IsValid :
      (code : Code) (c d : Context Op)
      → IsValid c
      → is_source c.leaf ≡ true
      → IsLeavable d
      → d.leaf ≡ c.leaf
      → next_source d.selected d.completed d.skipped ≡ c.current
      → d.current ≡ c.current
      → IsValid (fails_source reference_smf env code d).0
  fails_source-IsValid code c d v s w l n k =
      to_error-IsValid env (record d { last_error = code; event_result = code })
        (relabel-IsLeavable code w) (λ p. source-ne-active c.leaf s (sym l ∙ p)) (n ∙ sym k)
        (λ p. current-ne-none c v s (sym k ∙ p))

  -- The three outcomes of a feed whose hash was updated; `h` and `u` are its hash and units.
  module _ (c : Context Op) (v : IsValid c) (s : is_source c.leaf ≡ true) (h : Op) (u : ℕ) where
    abbrev fed : Context Op
    fed = record c { hash = h; units = u }

    unfinished-IsValid :
        progress c.current u ≢ 1000 → IsValid (feed_outcome reference_smf env (value 0, fed)).0
    unfolding feed_outcome
    unfinished-IsValid p = record {
      initialized = v.initialized;
      accounted = v.accounted;
      current_leaf = MatchesLeaf-progress c.leaf c.current c.units u v.current_leaf s p;
      in_order = v.in_order;
      hash_live = v.hash_live;
      imu_live = v.imu_live;
      microphone_live = v.microphone_live;
      idle_clear = v.idle_clear;
    }

    rebook :
        (r : Record)
        → HasDigest r
        → IsBooked c.selected c.completed c.skipped (set c.records (popcount c.completed) r)
    rebook r d = record {
      no_rng = v.accounted.no_rng;
      disjoint = v.accounted.disjoint;
      completed_selected = v.accounted.completed_selected;
      skipped_selected = v.accounted.skipped_selected;
      record_slots = length-set c.records (popcount c.completed) r ∙ v.accounted.record_slots;
      digests = All-set HasDigest c.records (popcount c.completed) r v.accounted.digests d;
      later_untouched = v.accounted.later_untouched;
      records_are =
          ap (map (λ x. x.source)) (take-set_self c.records (popcount c.completed) r)
          ∙ v.accounted.records_are;
    }

    advance_records :
        (r : Record)
        → r.source ≡ c.current
        → map
            (λ x. x.source)
            (take
              (popcount (union c.completed (bits c.current)))
              (set c.records (popcount c.completed) r))
          ≡ mask_codes (union c.completed (bits c.current))
    advance_records r src =
        let a = v.accounted in
        let (m, p, q) =
          mask_codes-union c.current c.selected c.completed c.skipped v.in_order
            (current-ne-none c v s) a.later_untouched a.no_rng.0 in
        rw (
          p,
          take-suc-set c.records (popcount c.completed) r (rw a.record_slots q),
          map-append,
          m,
          src,
          a.records_are,
        )

    advance :
        (r : Record)
        → r.source ≡ c.current
        → HasDigest r
        → IsBooked c.selected
            (union c.completed (bits c.current))
            c.skipped
            (set c.records (popcount c.completed) r)
    advance r src d32 =
        let a = v.accounted in
        let (d, q, g) =
          union-next c.current c.selected c.completed c.skipped v.in_order (current-ne-none c v s)
            a.disjoint a.completed_selected in
        record {
          no_rng = (g ∙ a.no_rng.0, a.no_rng.1);
          disjoint = d;
          completed_selected = q;
          skipped_selected = a.skipped_selected;
          record_slots = length-set c.records (popcount c.completed) r ∙ a.record_slots;
          digests = All-set HasDigest c.records (popcount c.completed) r a.digests d32;
          later_untouched =
              later-union c.current c.selected c.completed c.skipped v.in_order
                (current-ne-none c v s) a.later_untouched;
          records_are = advance_records r src;
        }

    failed-IsValid :
        (r : Record)
        → HasDigest r
        → IsValid
            (feed_outcome reference_smf env (
              fail eio,
              record (closed fed) { records = set c.records (popcount c.completed) r },
            )).0
    unfolding feed_outcome
    failed-IsValid r d =
        fails_source-IsValid (fail eio) c
          (record (closed fed) { records = set c.records (popcount c.completed) r }) v s
          (feeding-IsLeavable
            (record (closed fed) { records = set c.records (popcount c.completed) r }) v s
            (rebook r d) refl refl refl)
          refl v.in_order refl

    done-IsValid :
        (r : Record)
        → r.source ≡ c.current
        → HasDigest r
        → IsValid
            (feed_outcome reference_smf env (
              value 1,
              record (closed fed) {
                records = set c.records (popcount c.completed) r;
                completed = union c.completed (bits c.current);
              },
            )).0
    unfolding feed_outcome
    done-IsValid r src d32 =
        let d : Context Op = record (closed fed) {
          records = set c.records (popcount c.completed) r;
          completed = union c.completed (bits c.current);
          event_result = value 1;
        } in
        transition_next-IsValid env d (feeding-IsLeavable d v s (advance r src d32) refl refl refl)
          (source-ne-active c.leaf s)

  -- `entropy_source_run` on an event of the current session and source.
  pub source_feed-IsValid :
      (e : Event) (c : Context Op)
      → IsValid c
      → is_source c.leaf ≡ true
      → IsValid (source_feed reference_smf env e c).0
  unfolding source_feed
  source_feed-IsValid e c v s = elim (Bool-cases (not (is_zero (hash_feed env e c).0))) [
    | inl bad ↦ rw bad (
        fails_source-IsValid (fail eio) c (record c { hash = (hash_feed env e c).1 }) v s
          (feeding-IsLeavable (record c { hash = (hash_feed env e c).1 }) v s v.accounted refl refl
            refl)
          refl v.in_order refl)
    | inr good ↦ rw good (elim (complete_source_cases (elapsed_ms env c) fed) [
      | inl (p, q) ↦ rw q (unfinished-IsValid c v s h u p)
      | inr (inl q) ↦ rw q (failed-IsValid c v s h u zero_record refl)
      | inr (inr (l, q)) ↦
          rw q (done-IsValid c v s h u (completed_record (elapsed_ms env c) fed) refl l)
    ])
  ]
    where
      h : Op
      h = (hash_feed env e c).1

      u : ℕ
      u = u32 (c.units + e.units)

      fed : Context Op
      fed = record c { hash = h; units = u }
