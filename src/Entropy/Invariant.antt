-- ===== src/Entropy/Invariant.antt =====
-- What holds of the entropy context between two calls.
use mathlib.Core.Path.{subst}
use oskey_firmware.Prelude.{
  ℕ, ◌-◌, ◌<◌, ◌≡◌, ◌≢◌, ◌∙◌, Bool, true, false, List, [], ◌∷◌, arith, length, All, map, take, ◌*◌,
}
use oskey_firmware.Entropy.Source.{
  SmfState, idle, active, touch, imu, camera, microphone, source_error, same_state, Mask, overlaps,
  bits, union, mask_codes, without, is_nonempty, popcount, next_source, Hook, imu_start, imu_stop,
  microphone_start, microphone_stop, no_sources,
}
use oskey_firmware.Entropy.Machine.{Context, Record}

abbrev pub is_source : SmfState → Bool
is_source touch = true
is_source imu = true
is_source camera = true
is_source microphone = true
is_source _ = false

abbrev pub source_code : SmfState → ℕ
source_code touch = 2
source_code imu = 4
source_code camera = 8
source_code microphone = 16
source_code _ = 0

-- Whether a sensor was told to start, and not yet to stop.
abbrev pub imu_running : List Hook → Bool
imu_running [] = false
imu_running (imu_start ∷ _) = true
imu_running (imu_stop ∷ _) = false
imu_running (_ ∷ rest) = imu_running rest

abbrev pub microphone_running : List Hook → Bool
microphone_running [] = false
microphone_running (microphone_start ∷ _) = true
microphone_running (microphone_stop ∷ _) = false
microphone_running (_ ∷ rest) = microphone_running rest

-- The source that a leaf state is about.
abbrev pub MatchesLeaf : SmfState → ℕ → ℕ → Type 0
MatchesLeaf touch c n = (c ≡ 2) × (n < 64)
MatchesLeaf imu c n = (c ≡ 4) × (n < 256)
MatchesLeaf camera c n = (c ≡ 8) × (n < 8)
MatchesLeaf microphone c n = (c ≡ 16) × (n < 48000)
MatchesLeaf source_error c n = (c ≢ 0) × (n ≡ 0)
MatchesLeaf active c n = ⊥
MatchesLeaf _ c n = (c ≡ 0) × (n ≡ 0)

abbrev pub HasDigest : Record → Type 0
HasDigest r = length r.digest ≡ 32

-- The invariants of the masks and records, which no transition but the one to IDLE touches.
pub record IsBooked (selected completed skipped : Mask) (records : List Record) : Type 0 where
  pub no_rng : (completed.rng ≡ false) × (skipped.rng ≡ false)
  pub disjoint : overlaps completed skipped ≡ false
  pub completed_selected : is_nonempty (without completed selected) ≡ false
  pub skipped_selected : is_nonempty (without skipped selected) ≡ false
  pub record_slots : length records ≡ 4
  pub digests : All HasDigest records
  -- No source above the next one has been completed or skipped: 32 - 2 * n are the bits above n.
  pub later_untouched :
      overlaps (union completed skipped) (bits (32 - 2 * next_source selected completed skipped))
      ≡ false
  pub records_are : map (λ r. r.source) (take (popcount completed) records) ≡ mask_codes completed

abbrev pub IsAccounted : {Op : Type 0} → Context Op → Type 0
IsAccounted c = IsBooked c.selected c.completed c.skipped c.records

pub record IsValid {Op : Type 0} (c : Context Op) : Type 0 where
  pub initialized : c.started ≡ true
  pub accounted : IsAccounted c
  pub current_leaf : MatchesLeaf c.leaf c.current c.units
  -- The current source is always the one that the masks leave to do next.
  pub in_order : next_source c.selected c.completed c.skipped ≡ c.current
  pub hash_live : c.hash_active ≡ is_source c.leaf
  pub imu_live : imu_running c.hooks ≡ same_state c.leaf imu
  pub microphone_live : microphone_running c.hooks ≡ same_state c.leaf microphone
  pub idle_clear : c.leaf ≡ idle → (c.completed ≡ no_sources) × (c.skipped ≡ no_sources)

-- Between two states: no hash is open and no sensor runs.
pub record IsQuiet {Op : Type 0} (c : Context Op) : Type 0 where
  pub initialized : c.started ≡ true
  pub accounted : IsAccounted c
  pub hash_dead : c.hash_active ≡ false
  pub imu_dead : imu_running c.hooks ≡ false
  pub microphone_dead : microphone_running c.hooks ≡ false
  pub no_units : c.units ≡ 0

-- What leaving a leaf state needs of the context.
pub record IsLeavable {Op : Type 0} (c : Context Op) : Type 0 where
  pub initialized : c.started ≡ true
  pub accounted : IsAccounted c
  pub quiet_outside : is_source c.leaf ≡ false → (c.hash_active ≡ false) × (c.units ≡ 0)
  pub imu_live : imu_running c.hooks ≡ same_state c.leaf imu
  pub microphone_live : microphone_running c.hooks ≡ same_state c.leaf microphone

-- The same session: its number, its words, its masks, its records and its last answer.
pub record SameBooks {Op : Type 0} (c d : Context Op) : Type 0 where
  pub same_completed : d.completed ≡ c.completed
  pub same_skipped : d.skipped ≡ c.skipped
  pub same_selected : d.selected ≡ c.selected
  pub same_records : d.records ≡ c.records
  pub same_session : d.session ≡ c.session
  pub same_words : d.words ≡ c.words
  pub same_result : d.event_result ≡ c.event_result

pub IsAccounted-SameBooks :
    {Op : Type 0} {c d : Context Op} → SameBooks c d → IsAccounted c → IsAccounted d
IsAccounted-SameBooks s a = record {
  no_rng = rw (s.same_completed, s.same_skipped) a.no_rng;
  disjoint = rw (s.same_completed, s.same_skipped) a.disjoint;
  completed_selected = rw (s.same_completed, s.same_selected) a.completed_selected;
  skipped_selected = rw (s.same_skipped, s.same_selected) a.skipped_selected;
  record_slots = rw s.same_records a.record_slots;
  digests = rw s.same_records a.digests;
  later_untouched = rw (s.same_completed, s.same_skipped, s.same_selected) a.later_untouched;
  records_are = rw (s.same_completed, s.same_records) a.records_are;
}

units_outside : (s : SmfState) (n u : ℕ) → MatchesLeaf s n u → is_source s ≡ false → u ≡ 0
units_outside idle n u m h = m.1
units_outside _ n u m h = ground arith

pub IsValid-IsLeavable : {Op : Type 0} (c : Context Op) → IsValid c → IsLeavable c
IsValid-IsLeavable c v = record {
  initialized = v.initialized;
  accounted = v.accounted;
  quiet_outside = λ p. (v.hash_live ∙ p, units_outside c.leaf c.current c.units v.current_leaf p);
  imu_live = v.imu_live;
  microphone_live = v.microphone_live;
}

pub leaf-ne-active : {Op : Type 0} (c : Context Op) → IsValid c → c.leaf ≢ active
leaf-ne-active c v p = subst (λ s. MatchesLeaf s c.current c.units) p v.current_leaf

pub SameBooks-trans :
    {Op : Type 0} {a b c : Context Op} → SameBooks a b → SameBooks b c → SameBooks a c
SameBooks-trans p q = record {
  same_completed = q.same_completed ∙ p.same_completed;
  same_skipped = q.same_skipped ∙ p.same_skipped;
  same_selected = q.same_selected ∙ p.same_selected;
  same_records = q.same_records ∙ p.same_records;
  same_session = q.same_session ∙ p.same_session;
  same_words = q.same_words ∙ p.same_words;
  same_result = q.same_result ∙ p.same_result;
}
