-- ===== src/Camera/Cropping.antt =====
-- The crop reads within the frame and fills the snapshot.
use oskey_firmware.Prelude.{
  ℕ, zero, suc, ◌+◌, ◌*◌, ◌/◌, ◌≤◌, ◌<◌, ◌≡◌, ◌∙◌, Bool, false, List, ltb, length, drop,
  length-take, length-append, arith, u32,
}
use oskey_firmware.Prelude.Windows.{length-drop}
use oskey_firmware.Camera.Capture.{Format}
use oskey_firmware.Camera.Decoder.{
  Decoder, size_max, format_refused, crop_side, crop_start, cropped, crop_row, crop_rows,
  frame_refused,
}

le-mul : (a b p : ℕ) → a ≤ b → a * p ≤ b * p
le-mul a b p h = grind arith

guard_mul : (p h m : ℕ) → ltb (m / p) h ≡ false → 0 < p → p * h ≤ m
guard_mul p h m e k = grind arith

row_within :
    (start y height pitch x wide : ℕ)
    → start + suc y ≤ height
    → x + wide ≤ pitch
    → start * pitch + x + y * pitch + wide ≤ height * pitch
row_within start y height pitch x wide a b =
    let l = le-mul (start + suc y) height pitch a in grind arith

-- What `app_qr_decoder_init` has checked of a format.
record IsSized (f : Format) : Type 0 where
  tall : 0 < f.height
  wide : f.width * 2 ≤ f.pitch
  small : f.pitch * f.height < 4294967296
  narrow : f.pitch < 4294967296

format_refused-IsSized : (known : Bool) (f : Format) → format_refused known f ≡ false → IsSized f
format_refused-IsSized known f e =
    let t : 0 < f.height = ground arith in
    let w : 0 < f.width = ground arith in
    let p : ltb (f.pitch / 2) f.width ≡ false = ground arith in
    let k : f.width * 2 ≤ f.pitch = ground arith in
    let g : ltb (size_max / f.pitch) f.height ≡ false = ground arith in
    let m = guard_mul f.pitch f.height size_max g (omega arith) in
    let n = le-mul 1 f.height f.pitch t in
    record { tall = t; wide = k; small = omega arith; narrow = grind arith }

crop_side_fits : (side : ℕ) → crop_start side + crop_side side ≤ side
crop_side_fits side = omega arith

-- Each row of the crop is there, and the rows together fill the snapshot.
crop_row-length :
    (y : ℕ) (f : Format) (d : Decoder) (bytes : List ℕ)
    → d.crop_y * f.pitch + d.crop_x * 2 + y * f.pitch + d.snapshot_pitch ≤ length bytes
    → length (crop_row y f d bytes) ≡ d.snapshot_pitch
crop_row-length y f d bytes h =
    let n = d.crop_y * f.pitch + d.crop_x * 2 + y * f.pitch in
    let l = length-drop n bytes in length-take d.snapshot_pitch (drop n bytes) ∙ omega arith

crop_rows-length :
    (n y : ℕ) (f : Format) (d : Decoder) (bytes : List ℕ)
    → ((z : ℕ) → z < y + n → length (crop_row z f d bytes) ≡ d.snapshot_pitch)
    → length (crop_rows n y f d bytes) ≡ n * d.snapshot_pitch
unfolding crop_rows
crop_rows-length zero y f d bytes h = omega arith
crop_rows-length (suc n) y f d bytes h =
    let r = h y (omega arith) in
    let later = crop_rows-length n (suc y) f d bytes (λ z k. h z (omega arith)) in
    let l = length-append (crop_row y f d bytes) (crop_rows n (suc y) f d bytes) in grind arith

below : {a : ℕ} (h p n : ℕ) → a ≤ h * p → p * h ≤ n → a ≤ n
below h p n a b = grind arith

snapshot_size_is :
    (n wide h p : ℕ) → n ≤ h → wide ≤ p → p * h < 4294967296 → n * wide ≡ u32 (wide * n)
snapshot_size_is n wide h p a b c =
    let k = le-mul n h p a in
    let l = le-mul wide p n b in
    let m : wide * n < 4294967296 = grind arith in
    let e : u32 (wide * n) ≡ wide * n = omega arith in rw e (grind arith)

-- For a format that `app_qr_decoder_init` accepts and a frame that `app_qr_decoder_submit` then
-- accepts, every row of the crop lies within the frame, and the rows fill the snapshot exactly.
pub crop_rows-fill :
    (known : Bool) (f : Format) (d : Decoder) (bytes : List ℕ)
    → format_refused known f ≡ false
    → frame_refused f (cropped f d) bytes ≡ false
    → let c = cropped f d in
      ((y : ℕ) → y < c.crop_height → length (crop_row y f c bytes) ≡ c.snapshot_pitch)
      × (length (crop_rows c.crop_height 0 f c bytes) ≡ c.snapshot_size)
crop_rows-fill known f d bytes e g =
    let s = format_refused-IsSized known f e in
    let c = cropped f d in
    let small = s.small in
    let narrow = s.narrow in
    let wide = s.wide in
    let held : f.pitch * f.height ≤ length bytes =
      held_of f.pitch f.height (length bytes) s.small (ground arith) in
    let sp : u32 (crop_side f.width * 2) ≡ crop_side f.width * 2 = omega arith in
    let row_read : (y : ℕ)
        → y < crop_side f.height
        → crop_start f.height * f.pitch
            + crop_start f.width * 2
            + y * f.pitch
            + u32 (crop_side f.width * 2)
          ≤ length bytes =
      λ y h.
        below f.height f.pitch (length bytes)
          (row_within (crop_start f.height) y f.height f.pitch (crop_start f.width * 2)
            (u32 (crop_side f.width * 2)) (omega arith) (omega arith))
          held in
    let rows : (y : ℕ) → y < c.crop_height → length (crop_row y f c bytes) ≡ c.snapshot_pitch =
      λ y h. crop_row-length y f c bytes (row_read y h) in
    (
      rows,
      crop_rows-length c.crop_height 0 f c bytes (λ z k. rows z (omega arith))
          ∙ snapshot_size_is (crop_side f.height) (u32 (crop_side f.width * 2)) f.height f.pitch
              (omega arith) (omega arith) s.small,
    )
  where
    held_of : (p h n : ℕ) → p * h < 4294967296 → ltb n (u32 (p * h)) ≡ false → p * h ≤ n
    held_of p h n a b = ground arith
