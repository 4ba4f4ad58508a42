-- ===== src/Entropy/Source.antt =====
-- entropy.c: the auxiliary sources, their masks and their progress.
use oskey_firmware.Prelude.{
  ℕ, ◌+◌, ◌*◌, ◌/◌, ◌%◌, min, Bool, true, false, not, ◌&&◌, ◌||◌, Option, none, some, List, [], ◌∷◌,
  ◌==◌, if◌then◌else◌, u32,
}

-- `enum entropy_smf_state`
pub data SmfState : Type 0 where
  idle active touch imu camera microphone source_error ready : SmfState

-- The position in `entropy_states`, which tells the addresses of its elements apart.
abbrev pub index : SmfState → ℕ
index idle = 0
index active = 1
index touch = 2
index imu = 3
index camera = 4
index microphone = 5
index source_error = 6
index ready = 7

abbrev pub same_state : SmfState → SmfState → Bool
same_state s t = index s == index t

-- `enum app_entropy_source`
abbrev pub source_none : ℕ
source_none = 0

abbrev pub source_touch : ℕ
source_touch = 2

abbrev pub source_imu : ℕ
source_imu = 4

abbrev pub source_camera : ℕ
source_camera = 8

abbrev pub source_microphone : ℕ
source_microphone = 16

-- The functions that `struct entropy_source_ops` points to.
pub data Hook : Type 0 where
  imu_start imu_stop camera_start microphone_start microphone_stop : Hook

pub record SourceOps : Type 0 where
  pub state : SmfState
  pub start : Option Hook
  pub stop : Option Hook
  pub target_units : ℕ
  pub source : ℕ

abbrev pub source_ops : SmfState → Option Hook → Option Hook → ℕ → ℕ → SourceOps
source_ops s a o n c = record { state = s; start = a; stop = o; target_units = n; source = c }

-- `entropy_sources`
abbrev pub sources : List SourceOps
sources =
    source_ops touch none none 64 source_touch
    ∷ source_ops imu (some imu_start) (some imu_stop) 256 source_imu
    ∷ source_ops camera (some camera_start) none 8 source_camera
    ∷ source_ops microphone (some microphone_start) (some microphone_stop) 48000 source_microphone
    ∷ []

abbrev pub find_source : ℕ → List SourceOps → Option SourceOps
find_source c [] = none
find_source c (ops ∷ rest) = if ops.source == c then some ops else find_source c rest

unfoldable pub source_get : ℕ → Option SourceOps
source_get c = find_source c sources

abbrev pub find_state : SmfState → List SourceOps → Option SourceOps
find_state s [] = none
find_state s (ops ∷ rest) = if same_state ops.state s then some ops else find_state s rest

unfoldable pub source_from_state : SmfState → Option SourceOps
source_from_state s = find_state s sources

-- A uint8_t mask of sources by its bits. No mask that is stored has another bit:
-- `app_entropy_begin` refuses them.
pub record Mask : Type 0 where
  pub rng : Bool
  pub touch_bit : Bool
  pub imu_bit : Bool
  pub camera_bit : Bool
  pub microphone_bit : Bool

abbrev pub no_sources : Mask
no_sources = record {
  rng = false;
  touch_bit = false;
  imu_bit = false;
  camera_bit = false;
  microphone_bit = false;
}

abbrev pub bits : ℕ → Mask
bits c = record {
  rng = c % 2 == 1;
  touch_bit = c / 2 % 2 == 1;
  imu_bit = c / 4 % 2 == 1;
  camera_bit = c / 8 % 2 == 1;
  microphone_bit = c / 16 % 2 == 1;
}

abbrev pub bit_value : Bool → ℕ → ℕ
bit_value true n = n
bit_value false n = 0

abbrev pub to_byte : Mask → ℕ
to_byte m =
    bit_value m.rng 1
    + bit_value m.touch_bit 2
    + bit_value m.imu_bit 4
    + bit_value m.camera_bit 8
    + bit_value m.microphone_bit 16

-- a | b
abbrev pub union : Mask → Mask → Mask
union a b = record {
  rng = a.rng || b.rng;
  touch_bit = a.touch_bit || b.touch_bit;
  imu_bit = a.imu_bit || b.imu_bit;
  camera_bit = a.camera_bit || b.camera_bit;
  microphone_bit = a.microphone_bit || b.microphone_bit;
}

-- a & ~b
abbrev pub without : Mask → Mask → Mask
without a b = record {
  rng = a.rng && not b.rng;
  touch_bit = a.touch_bit && not b.touch_bit;
  imu_bit = a.imu_bit && not b.imu_bit;
  camera_bit = a.camera_bit && not b.camera_bit;
  microphone_bit = a.microphone_bit && not b.microphone_bit;
}

-- m & APP_ENTROPY_SOURCE_AUXILIARY_MASK
abbrev pub auxiliary : Mask → Mask
auxiliary m = record m { rng = false }

-- m != 0
abbrev pub is_nonempty : Mask → Bool
is_nonempty m = m.rng || m.touch_bit || m.imu_bit || m.camera_bit || m.microphone_bit

-- (a & b) != 0
abbrev pub overlaps : Mask → Mask → Bool
overlaps a b =
    a.rng && b.rng
    || a.touch_bit && b.touch_bit
    || a.imu_bit && b.imu_bit
    || a.camera_bit && b.camera_bit
    || a.microphone_bit && b.microphone_bit

-- POPCOUNT
abbrev pub popcount : Mask → ℕ
popcount m =
    bit_value m.rng 1
    + bit_value m.touch_bit 1
    + bit_value m.imu_bit 1
    + bit_value m.camera_bit 1
    + bit_value m.microphone_bit 1

-- The sources of a mask, in the order of their bits.
abbrev pub mask_codes : Mask → List ℕ
mask_codes m =
    let r0 = if m.microphone_bit then source_microphone ∷ [] else [] in
    let r1 = if m.camera_bit then source_camera ∷ r0 else r0 in
    let r2 = if m.imu_bit then source_imu ∷ r1 else r1 in
    let r3 = if m.touch_bit then source_touch ∷ r2 else r2 in if m.rng then 1 ∷ r3 else r3

-- The loop of `entropy_next_source_locked` over the shifted bit.
abbrev pub first_of_mask : Mask → List ℕ → ℕ
first_of_mask pending [] = source_none
first_of_mask pending (c ∷ rest) =
    if overlaps pending (bits c) then c else first_of_mask pending rest

unfoldable pub next_source : Mask → Mask → Mask → ℕ
next_source selected completed skipped =
    first_of_mask (without (auxiliary selected) (union completed skipped))
      (source_touch ∷ source_imu ∷ source_camera ∷ source_microphone ∷ [])

-- `entropy_progress`, in permille; the last cast is to uint16_t.
unfoldable pub progress : ℕ → ℕ → ℕ
unfolding source_get
progress c units = elim (source_get c) [
  | none ↦ 0
  | some ops ↦ u32 (min units ops.target_units * 1000) / ops.target_units % 65536
]
