-- ===== src/Storage/Tests.antt =====
-- The theorems on storage.c at concrete records.
use oskey_firmware.Prelude.{
  suc, eio, ◌⊎◌, ℕ, ◌≡◌, refl, true, false, List, [], ◌∷◌, arith, value, fail, enodev, enoent,
}
use oskey_firmware.Storage.Flash.{Zms, Flash, storage_error, seed_record}
use oskey_firmware.Storage.Ram.{blank, ram_exists, ram_write, ram_read, ram_delete}
use oskey_firmware.Storage.Laws.{
  seed_round_trip, existing, deleting, writing, reading, is_fatal, perform, perform_all,
  failures_latch,
}

abbrev seed : List ℕ
seed = 7 ∷ 8 ∷ 9 ∷ []

seed_round_trip_example :
    let t = (ram_write true seed seed_record blank).1 in
    (ram_read true 64 seed_record t ≡ (value 3, seed))
    × (ram_exists seed_record t ≡ value 1)
    × (t.unlock_failures ≡ 0)
    × (ram_read true 64 seed_record (ram_delete seed_record t).1 ≡ (fail enoent, []))
seed_round_trip_example = seed_round_trip seed 64 blank (omega arith) (omega arith) (omega arith)

-- A flash that keeps one record of three bytes, and can write no other.
abbrev worn : Zms ℕ
worn = record {
  settings_init = λ f. (value 0, f);
  settings_storage = λ f. (value 0, f);
  has_storage = λ f. true;
  settings_load = λ f. (value 0, f);
  data_length = λ f id. (value 3, f);
  write_record = λ f id bytes. (fail eio, suc f);
  read_record = λ f id n. (value 3, seed, f);
  delete_record = λ f id. (value 0, f);
  clear = λ f. (value 0, f);
}

abbrev opened : Flash ℕ
opened = record { initialized = true; mounted = true; fs = 0; published = [] }

-- The write fails, and the flash is not asked again.
failures_latch_example :
    let (rc, t) = perform worn (writing true seed seed_record) opened in
    let later = existing seed_record ∷ reading true 64 seed_record ∷ deleting seed_record ∷ [] in
    ((is_fatal (fail eio) ≡ true)
      × (rc ≡ fail eio)
      × (t.published ≡ storage_error ∷ [])
      × (perform_all worn later t ≡ (fail enodev ∷ fail enodev ∷ fail enodev ∷ [], t)))
    ⊎ ((is_fatal (fail eio) ≡ false) × (t.initialized ≡ true) × (t.published ≡ []))
failures_latch_example =
    failures_latch worn (writing true seed seed_record)
      (existing seed_record ∷ reading true 64 seed_record ∷ deleting seed_record ∷ []) opened refl
      refl
