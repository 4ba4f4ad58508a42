-- ===== src/Imu/Failures.antt =====
-- The count of failures in a row, their report, and the sensor's stop.
use mathlib.Core.Path.{subst}
use oskey_firmware.Prelude.{
  ℕ, suc, ◌+◌, ◌≤◌, ◌<◌, ◌≡◌, refl, sym, ap, ◌∙◌, Bool, true, false, List, [], ◌∷◌, ◌==◌,
  if◌then◌else◌, ltb, length, arith, Bool-cases, inl, inr, Code,
}
use oskey_firmware.Imu.Acquisition.{
  Ports, Runtime, error_threshold, report_error, stop_source, count_error, report_once,
  handle_failure, imu_error, one_more, settle_failure,
}
use oskey_firmware.Imu.History.{publish-HasSame}

module _ {F W : Type 0} (ports : Ports F W) where
  -- Failures that come one after the other.
  abbrev pub failures : List Code → Runtime F W → Runtime F W
  failures [] r = r
  failures (e ∷ rest) r = failures rest (handle_failure ports e r)

  -- The state after `n` failures in a row from the state `before`: below the threshold nothing but
  -- the count has changed; from it on one failure has been reported, and the sensor is stopped.
  pub record HasFailed (n : ℕ) (before : Runtime F W) (r : Runtime F W) : Type 0 where
    pub kept : n < error_threshold → r ≡ record before { consecutive_errors = n }
    pub counted : r.consecutive_errors ≡ (if ltb n error_threshold then n else suc error_threshold)
    pub reported :
        r.reports ≡ (if ltb n error_threshold then before.reports else suc before.reports)
    pub stopped : error_threshold ≤ n → r.running ≡ false

  stop_source-stopped :
      (r : Runtime F W)
      → let t = stop_source ports r in
        (t.running ≡ false)
        × (t.reports ≡ r.reports)
        × (t.consecutive_errors ≡ r.consecutive_errors)
  unfolding stop_source
  stop_source-stopped r = go r.running refl
    where
      go :
          (b : Bool)
          → r.running ≡ b
          → let stopped = record r {
            timer = false;
            world = (ports.stop r.world).1;
            running = false;
          } in
            let t = if b then stopped else r in
            (t.running ≡ false)
            × (t.reports ≡ r.reports)
            × (t.consecutive_errors ≡ r.consecutive_errors)
      go true e = (refl, refl, refl)
      go false e = (e, refl, refl)

  report_error-reports :
      (e : Code) (r : Runtime F W)
      → ((report_error ports e r).reports ≡ suc r.reports)
        × ((report_error ports e r).consecutive_errors ≡ r.consecutive_errors)
  unfolding report_error
  report_error-reports e r =
      let s = publish-HasSame ports imu_error r in (ap suc s.same_reports, s.same_errors)

  -- Below the threshold: a failure is counted.
  failure_counted :
      (e : Code) (r : Runtime F W)
      → suc r.consecutive_errors < error_threshold
      → handle_failure ports e r ≡ one_more ports r
  unfolding handle_failure count_error settle_failure
  failure_counted e r h =
      let a : ltb r.consecutive_errors error_threshold ≡ true = ground arith in
      let b : ltb (suc r.consecutive_errors) error_threshold ≡ true = ground arith in rw (a, b) refl

  count_error_low :
      (r : Runtime F W)
      → ltb r.consecutive_errors error_threshold ≡ true
      → count_error ports r ≡ one_more ports r
  unfolding count_error
  count_error_low r a = rw a refl

  count_error_high :
      (r : Runtime F W) → ltb r.consecutive_errors error_threshold ≡ false → count_error ports r ≡ r
  unfolding count_error
  count_error_high r a = rw a refl

  settle_failure_stops :
      (e : Code) (r : Runtime F W)
      → ltb r.consecutive_errors error_threshold ≡ false
      → settle_failure ports e r ≡ stop_source ports (report_once ports e r)
  unfolding settle_failure
  settle_failure_stops e r b = rw b refl

  report_once_reports :
      (e : Code) (r : Runtime F W)
      → (r.consecutive_errors == error_threshold) ≡ true
      → report_once ports e r ≡ one_more ports (report_error ports e r)
  unfolding report_once
  report_once_reports e r c = rw c refl

  report_once_silent :
      (e : Code) (r : Runtime F W)
      → (r.consecutive_errors == error_threshold) ≡ false
      → report_once ports e r ≡ r
  unfolding report_once
  report_once_silent e r c = rw c refl

  -- At it: the failure is reported, and the sensor stopped.
  abbrev HasReported : Runtime F W → Runtime F W → Type 0
  HasReported r t =
      (t.consecutive_errors ≡ suc error_threshold)
      × (t.reports ≡ suc r.reports)
      × (t.running ≡ false)

  failure_reported :
      (e : Code) (r : Runtime F W)
      → suc r.consecutive_errors ≡ error_threshold
      → HasReported r (handle_failure ports e r)
  unfolding handle_failure
  failure_reported e r h =
      let a : ltb r.consecutive_errors error_threshold ≡ true = ground arith in
      let b : ltb (suc r.consecutive_errors) error_threshold ≡ false = ground arith in
      let c : (suc r.consecutive_errors == error_threshold) ≡ true = ground arith in
      let t = one_more ports r in
      let (x, y) = report_error-reports e t in
      let (p, q, s) = stop_source-stopped (one_more ports (report_error ports e t)) in
      subst (HasReported r)
        (sym (
          ap (settle_failure ports e) (count_error_low r a)
          ∙ settle_failure_stops e t b
          ∙ ap (stop_source ports) (report_once_reports e t c)))
        (s ∙ ap suc (y ∙ h), q ∙ x, p)

  -- Above it: the sensor is stopped.
  failure_ignored :
      (e : Code) (r : Runtime F W)
      → error_threshold < r.consecutive_errors
      → handle_failure ports e r ≡ stop_source ports r
  unfolding handle_failure
  failure_ignored e r h =
      let a : ltb r.consecutive_errors error_threshold ≡ false = ground arith in
      let c : (r.consecutive_errors == error_threshold) ≡ false = ground arith in
      ap (settle_failure ports e) (count_error_high r a)
      ∙ settle_failure_stops e r a
      ∙ ap (stop_source ports) (report_once_silent e r c)

  handle_failure-HasFailed :
      (n : ℕ) (before : Runtime F W) (e : Code) (r : Runtime F W)
      → HasFailed n before r
      → HasFailed (suc n) before (handle_failure ports e r)
  handle_failure-HasFailed n before e r h = elim (Bool-cases (ltb n error_threshold)) [
    | inl low ↦
        let c : r.consecutive_errors ≡ n = h.counted ∙ rw low refl in
        let k : r.reports ≡ before.reports = h.reported ∙ rw low refl in
        elim (Bool-cases (ltb (suc n) error_threshold)) [
          | inl x ↦
              subst (HasFailed (suc n) before) (sym (failure_counted e r (ground arith))) (record {
                kept = λ m. ap (one_more ports) (h.kept (ground arith));
                counted = rw x (ap suc c);
                reported = rw x k;
                stopped = λ m. absurd (ground arith);
              })
          | inr x ↦
              let (p, q, s) = failure_reported e r (ground arith) in
              record {
                kept = λ m. absurd (ground arith);
                counted = rw x p;
                reported = rw x (q ∙ ap suc k);
                stopped = λ m. s;
              }
        ]
    | inr high ↦
        let c : r.consecutive_errors ≡ suc error_threshold = h.counted ∙ rw high refl in
        let k : r.reports ≡ suc before.reports = h.reported ∙ rw high refl in
        let x : ltb (suc n) error_threshold ≡ false = ground arith in
        let (p, q, s) = stop_source-stopped r in
        subst (HasFailed (suc n) before) (sym (failure_ignored e r (omega arith))) (record {
          kept = λ m. absurd (ground arith);
          counted = rw x (s ∙ c);
          reported = rw x (q ∙ k);
          stopped = λ m. p;
        })
  ]

  -- Failures in a row, from none on: the first four change nothing but the count; with the fifth the
  -- failure is reported once and the sensor stopped; later ones, however many, report nothing more
  -- and leave it stopped.
  pub failures-HasFailed :
      (errors : List Code) (r : Runtime F W)
      → r.consecutive_errors ≡ 0
      → HasFailed (length errors) r (failures errors r)
  failures-HasFailed errors r h = go errors 0 (length errors) r (omega arith) (record {
    kept = λ m. ap (λ k. record r { consecutive_errors = k }) h;
    counted = h;
    reported = refl;
    stopped = λ k. absurd (omega arith);
  })
    where
      go :
          (rest : List Code) (n m : ℕ) (t : Runtime F W)
          → n + length rest ≡ m
          → HasFailed n r t
          → HasFailed m r (failures rest t)
      go [] n m t e f = subst (λ i. HasFailed i r t) (omega arith) f
      go (x ∷ rest) n m t e f =
          go rest (suc n) m (handle_failure ports x t) (omega arith)
            (handle_failure-HasFailed n r x t f)
