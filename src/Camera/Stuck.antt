-- ===== src/Camera/Stuck.antt =====
-- A camera that is not in use but still has a buffer stays so.
use oskey_firmware.Prelude.{
  ℕ, ◌≡◌, refl, true, false, not, Option, none, some, if_both, if_cases, arith, Code, fail, is_fail,
  ebusy,
}
use oskey_firmware.Camera.Capture.{
  Video, Camera, Format, any_taken, camera_init, camera_start, frame_get, frame_release,
  camera_stop, start_failed, start_undone, start_stream,
}

module _ {W : Type 0} (video : Video W) where
  -- A failed start leaves the camera free, and a good one in use.
  abbrev pub IsSettled : Code × Camera W → Type 0
  IsSettled (rc, c) = c.in_use ≡ not (is_fail rc)

  start_failed-IsSettled :
      (rc : Code) (c : Camera W) → is_fail rc ≡ true → IsSettled (start_failed video rc c)
  unfolding start_failed
  start_failed-IsSettled rc c e = rw e refl

  start_undone-IsSettled :
      (rc : Code) (c : Camera W) → is_fail rc ≡ true → IsSettled (start_undone video rc c)
  unfolding start_undone
  start_undone-IsSettled rc c e = start_failed-IsSettled rc _ e

  start_stream-IsSettled : (c : Camera W) → c.in_use ≡ true → IsSettled (start_stream video c)
  unfolding start_stream
  start_stream-IsSettled c u =
      let (rc, w) = video.stream_start c.world in
      if_cases IsSettled (not (is_fail rc)) (λ e. u)
        (λ e.
          if_both IsSettled (is_fail (video.stream_stop w).0)
            (start_failed-IsSettled rc _ (ground arith))
            (start_undone-IsSettled rc _ (ground arith)))

  -- What cannot be undone: not in use, with a buffer in a slot.
  pub record IsStuck (c : Camera W) : Type 0 where
    pub unused : c.in_use ≡ false
    pub kept : any_taken c.buffers ≡ true

  -- The calls that others make.
  pub data Step (c : Camera W) : Camera W → Type 0 where
    inits : Step c (camera_init video c).1
    starts : (format : Option Format) → Step c (camera_start video format c).1
    gets : Step c (frame_get video c).2
    releases : (b : Option ℕ) → Step c (frame_release video b c).1
    stops : Step c (camera_stop video c).1
    elsewhere : (w : W) → Step c (record c { world = w })

  pub data Reach (start : Camera W) : Camera W → Type 0 where
    here : Reach start start
    next : {c d : Camera W} → Reach start c → Step c d → Reach start d

  camera_start-IsStuck :
      (format : Format) (c : Camera W)
      → IsStuck c
      → let r = camera_start video (some format) c in (r.0 ≡ fail ebusy) × IsStuck r.1
  unfolding camera_start start_failed
  camera_start-IsStuck format c s =
      let e = s.kept in rw (s.unused, e) (refl, record { unused = refl; kept = e })

  Step-IsStuck : {c d : Camera W} → Step c d → IsStuck c → IsStuck d
  unfolding camera_init frame_get frame_release camera_stop camera_start
  Step-IsStuck {c = c} inits i =
      if_both (λ (r : Code × Camera W). IsStuck r.1) (not (video.is_ready c.world))
        (record { unused = i.unused; kept = i.kept }) (record { unused = i.unused; kept = i.kept })
  Step-IsStuck (starts none) i = i
  Step-IsStuck {c = c} (starts (some format)) i = (camera_start-IsStuck format c i).1
  Step-IsStuck {c = c} gets i =
      let u = i.unused in
      if_cases (λ (r : Code × Option ℕ × Camera W). IsStuck r.2) (not c.in_use) (λ e. i)
        (λ e. absurd (ground arith))
  Step-IsStuck (releases none) i = i
  Step-IsStuck {c = c} (releases (some b)) i =
      let u = i.unused in
      if_cases (λ (r : Code × Camera W). IsStuck r.1) (not c.in_use) (λ e. i)
        (λ e. absurd (ground arith))
  Step-IsStuck {c = c} stops i =
      let u = i.unused in
      if_cases (λ (r : Code × Camera W). IsStuck r.1) (not c.in_use) (λ e. i)
        (λ e. absurd (ground arith))
  Step-IsStuck {c = c} (elsewhere w) i = record { unused = i.unused; kept = i.kept }

  -- Once the camera is not in use while a buffer is in a slot, every later start fails with -EBUSY,
  -- whatever is called in between: no call releases the buffer any more.
  pub stuck_for_good :
      {start c : Camera W} (format : Format)
      → IsStuck start
      → Reach start c
      → (camera_start video (some format) c).0 ≡ fail ebusy
  stuck_for_good {c = c} format s r = (camera_start-IsStuck format c (reached s r)).0
    where
      reached : {a b : Camera W} → IsStuck a → Reach a b → IsStuck b
      reached s here = s
      reached s (next r t) = Step-IsStuck t (reached s r)
