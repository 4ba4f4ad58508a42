-- ===== src/Camera/Results.antt =====
-- A result that the scanner hands out was decoded in the session it is asked for.
use mathlib.Core.Path.{subst}
use oskey_firmware.Prelude.{
  ℕ, ◌≡◌, ◌≢◌, ◌⊎◌, inl, inr, refl, sym, ◌∙◌, Bool, true, false, not, ◌||◌, Option, none, some,
  List, [], ◌∷◌, ◌==◌, if_both, if_cases, arith, Code, value, is_fail, leb,
}
use oskey_firmware.Camera.Capture.{Format}
use oskey_firmware.Camera.Scanner.{
  Optics, Scanner, Thread, waiting, capturing, is_busy, is_over, is_underway, is_result, is_eagain,
  qr_found, scanner_start, scanner_stop, result_copy, prepare, decoder_start, finish_session,
  stop_finish, prepare_from, turn_of, begin_loop, begin_decoder, begin_capture, wake, show,
  use_frame, frame, thread_turn,
}

module _ {Q : Type 0} where
  -- The decoder reported the code in the session.
  abbrev pub IsReported : ℕ × Q → List (ℕ × Q) → Type 0
  IsReported r [] = ⊥
  IsReported r (x ∷ xs) = (x ≡ r) ⊎ IsReported r xs

  module _ {W : Type 0} where
    -- The result stored, if any, is of the present session, and was reported in it.
    abbrev pub IsHonest : Scanner Q W → Type 0
    IsHonest s =
        (s.result_session ≡ 0)
        ⊎ ((s.result_session ≡ s.session) × IsReported (s.result_session, s.result_code) s.reports)

    IsHonest-report :
        (id : ℕ) (code : Q) (s : Scanner Q W)
        → IsHonest s
        → IsHonest (record s { reports = (id, code) ∷ s.reports })
    IsHonest-report id code s (inl e) = inl e
    IsHonest-report id code s (inr (e, m)) = inr (e, inr m)

    qr_found-IsHonest :
        (code : Q) (id : ℕ) (s : Scanner Q W) → IsHonest s → IsHonest (qr_found code id s)
    unfolding qr_found
    qr_found-IsHonest code id s i =
        if_cases IsHonest (not (id == s.session) || not s.requested)
          (λ e. IsHonest-report id code s i) (λ e. inr (ground arith, inl refl))

    scanner_start-IsHonest :
        (has_out : Bool) (cleared : Q) (s : Scanner Q W)
        → IsHonest s
        → IsHonest (scanner_start has_out cleared s).2
    unfolding scanner_start
    scanner_start-IsHonest has_out cleared s i =
        let P : Code × Option ℕ × Scanner Q W → Type 0 = λ r. IsHonest r.2 in
        if_both P (not has_out) i (if_both P (is_busy s.state) i (inl refl))

    scanner_stop-IsHonest : (s : Scanner Q W) → IsHonest s → IsHonest (scanner_stop s)
    unfolding scanner_stop
    scanner_stop-IsHonest s i =
        if_both IsHonest (is_over s.state) i (if_both IsHonest (is_underway s.state) i i)

  module _ {W : Type 0} (optics : Optics W) where
    finish_session-IsHonest :
        (id : ℕ) (rc : Code) (s : Scanner Q W)
        → IsHonest s
        → IsHonest (finish_session optics id rc s)
    unfolding finish_session
    finish_session-IsHonest id rc s i = if_both IsHonest (is_fail rc) i i

    prepare-IsHonest :
        (format : Format) (s : Scanner Q W) → IsHonest s → IsHonest (prepare optics format s).1
    unfolding prepare
    prepare-IsHonest format s i = go s.preview
      where
        go : (o : Option (List ℕ)) → IsHonest (prepare_from optics o format s).1
        go (some bytes) = i
        go none =
            let P : Code × Scanner Q W → Type 0 = λ r. IsHonest r.1 in
            if_both P (not (optics.alloc_snapshot format.size s.world).0) i i

    decoder_start-IsHonest :
        (format : Format) (s : Scanner Q W)
        → IsHonest s
        → IsHonest (decoder_start optics format s).1
    unfolding decoder_start
    decoder_start-IsHonest format s i =
        let P : Code × Scanner Q W → Type 0 = λ r. IsHonest r.1 in if_both P s.decoder_ready i i

    stop_finish-IsHonest :
        (id : ℕ) (rc : Code) (s : Scanner Q W) → IsHonest s → IsHonest (stop_finish optics id rc s)
    stop_finish-IsHonest id rc s i =
        finish_session-IsHonest id _ (record s { world = (optics.stop s.world).1 }) i

    begin_decoder-IsHonest :
        (id : ℕ) (format : Format) (r : Code × Scanner Q W)
        → IsHonest r.1
        → IsHonest (begin_decoder optics id format r)
    unfolding begin_decoder begin_loop
    begin_decoder-IsHonest id format (rc, s) i =
        let (rc', t) = decoder_start optics format s in
        let d = decoder_start-IsHonest format s i in
        if_both IsHonest (is_fail rc) (stop_finish-IsHonest id rc s i)
          (if_both IsHonest (is_fail rc') (stop_finish-IsHonest id rc' t d) d)

    begin_capture-IsHonest :
        (id : ℕ) (s : Scanner Q W) → IsHonest s → IsHonest (begin_capture optics id s)
    unfolding begin_capture
    begin_capture-IsHonest id s i =
        let (selected, format, w) = optics.select_format 320 240 s.world in
        let (started, format', w') = optics.start format w in
        if_both IsHonest (is_fail selected)
          (finish_session-IsHonest id selected (record s { world = w }) i)
          (if_both IsHonest (is_fail started)
            (finish_session-IsHonest id started (record s { world = w' }) i)
            (begin_decoder-IsHonest id format' _
              (prepare-IsHonest format' (record s { world = w' }) i)))

    wake-IsHonest : (s : Scanner Q W) → IsHonest s → IsHonest (wake optics s)
    unfolding wake
    wake-IsHonest s i = if_both IsHonest (not s.control) i (
        if_both IsHonest (not s.requested) i
          (begin_capture-IsHonest s.session (record s { control = false }) i))

    use_frame-IsHonest :
        (bytes : List ℕ) (id : ℕ) (format : Format) (due : ℕ) (s : Scanner Q W)
        → IsHonest s
        → IsHonest (use_frame optics bytes id format due s)
    use_frame-IsHonest bytes id format due s i =
        let shown : IsHonest (show optics bytes id format due s) =
          if_both IsHonest (leb due (optics.uptime s.world)) i i in
        let t = show optics bytes id format due s in
        let u = record t { world = optics.decoder_submit bytes format id t.world } in
        let (rc, w) = optics.frame_done u.world in
        if_both IsHonest (is_fail rc) (stop_finish-IsHonest id rc (record u { world = w }) shown)
          shown

    frame-IsHonest :
        (id : ℕ) (format : Format) (due : ℕ) (s : Scanner Q W)
        → IsHonest s
        → IsHonest (frame optics id format due s)
    unfolding frame
    frame-IsHonest id format due s i =
        let (rc, bytes, w) = optics.get s.world in
        let t = record s { world = w } in
        if_both IsHonest (not s.requested || not (id == s.session))
          (stop_finish-IsHonest id (value 0) s i)
          (if_both IsHonest (is_eagain rc) i (
            if_both IsHonest (is_fail rc) (stop_finish-IsHonest id rc t i)
              (use_frame-IsHonest bytes id format due t i)))

    thread_turn-IsHonest : (s : Scanner Q W) → IsHonest s → IsHonest (thread_turn optics s)
    unfolding thread_turn
    thread_turn-IsHonest s i = go s.thread
      where
        go : (t : Thread) → IsHonest (turn_of optics t s)
        go waiting = wake-IsHonest s i
        go (capturing id format due) = frame-IsHonest id format due s i

    -- What happens: a turn of the thread, a report of the decoder, a start or a stop, or something
    -- behind the scanner.
    pub data Step (s : Scanner Q W) : Scanner Q W → Type 0 where
      turns : Step s (thread_turn optics s)
      found : (code : Q) (id : ℕ) → Step s (qr_found code id s)
      started : (has_out : Bool) (cleared : Q) → Step s (scanner_start has_out cleared s).2
      stopped : Step s (scanner_stop s)
      elsewhere : (w : W) → Step s (record s { world = w })

    pub data Reach (start : Scanner Q W) : Scanner Q W → Type 0 where
      here : Reach start start
      next : {s t : Scanner Q W} → Reach start s → Step s t → Reach start t

    Step-IsHonest : {s t : Scanner Q W} → Step s t → IsHonest s → IsHonest t
    Step-IsHonest {s = s} turns i = thread_turn-IsHonest s i
    Step-IsHonest {s = s} (found code id) i = qr_found-IsHonest code id s i
    Step-IsHonest {s = s} (started has_out cleared) i = scanner_start-IsHonest has_out cleared s i
    Step-IsHonest {s = s} stopped i = scanner_stop-IsHonest s i
    Step-IsHonest {s = s} (elsewhere w) i = i

    Reach-IsHonest : {start s : Scanner Q W} → IsHonest start → Reach start s → IsHonest s
    Reach-IsHonest i here = i
    Reach-IsHonest i (next r t) = Step-IsHonest t (Reach-IsHonest i r)

    -- What a copy of a session's result gives.
    abbrev pub IsTrue : ℕ → Scanner Q W → Code × Option Q → Type 0
    IsTrue id s (rc, none) = is_fail rc ≡ true
    IsTrue id s (rc, some code) =
        (rc ≡ value 0) × (id ≡ s.session) × IsReported (id, code) s.reports

    -- In any interleaving of the thread, the decoder, starts and stops: a copy of the result of a
    -- session, with a number other than 0, fails, or gives a code that the decoder reported in that
    -- session, which is the present one. A late report of an earlier session is never handed out.
    pub result_copy-IsTrue :
        {start s : Scanner Q W} (there : Bool) (id : ℕ)
        → IsHonest start
        → Reach start s
        → id ≢ 0
        → IsTrue id s (result_copy there id s)
    unfolding result_copy
    result_copy-IsTrue {s = s} there id i r n = if_both (IsTrue id s) (not there) refl (
        if_cases (IsTrue id s) (not (id == s.result_session) || not (is_result s.state)) (λ e. refl)
          (λ e. genuine (ground arith) (Reach-IsHonest i r)))
      where
        genuine : id ≡ s.result_session → IsHonest s → IsTrue id s (value 0, some s.result_code)
        genuine e (inl z) = absurd (n (e ∙ z))
        genuine e (inr (x, m)) =
            (refl, e ∙ x, subst (λ k. IsReported (k, s.result_code) s.reports) (sym e) m)
