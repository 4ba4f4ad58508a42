-- ===== src/Storage/Ram.antt =====
-- storage.c without CONFIG_OSKEY_STORAGE: the seed and the count of failed unlocks in RAM.
use oskey_firmware.Prelude.{
  ℕ, Bool, not, ◌&&◌, ◌||◌, List, [], ◌∷◌, ◌++◌, ◌-◌, ◌==◌, if◌then◌else◌, length, ltb, take,
  replicate, Code, value, fail, einval, emsgsize, enoent,
}
use oskey_firmware.Storage.Flash.{seed_record, unlock_failures_record}

pub record Ram : Type 0 where
  pub seed_buffer : List ℕ
  pub seed_len : ℕ
  pub unlock_failures : ℕ

abbrev pub blank : Ram
blank = record { seed_buffer = replicate 256 0; seed_len = 0; unlock_failures = 0 }

abbrev pub ram_init : Ram → Code × Ram
ram_init s = (value 0, blank)

unfoldable pub ram_exists : ℕ → Ram → Code
ram_exists id s =
    if id == seed_record
    then (if s.seed_len == 0 then value 0 else value 1)
    else if id == unlock_failures_record
    then (if s.unlock_failures == 0 then value 0 else value 1)
    else value 0

abbrev pub first_byte : List ℕ → ℕ
first_byte [] = 0
first_byte (x ∷ xs) = x

unfoldable pub ram_write : Bool → List ℕ → ℕ → Ram → Code × Ram
ram_write has_data bytes id s =
    if not has_data || length bytes == 0
    then (fail einval, s)
    else if id == seed_record
    then if ltb 256 (length bytes) then (fail emsgsize, s) else (
      value 0,
      record s { seed_buffer = bytes ++ replicate (256 - length bytes) 0; seed_len = length bytes },
    )
    else if id == unlock_failures_record && length bytes == 1
    then (value 0, record s { unlock_failures = first_byte bytes })
    else (fail einval, s)

-- The result, and the bytes that the buffer of `len` bytes was filled with.
unfoldable pub ram_read : Bool → ℕ → ℕ → Ram → Code × List ℕ
ram_read has_data len id s =
    if not has_data || len == 0
    then (fail einval, [])
    else if id == seed_record
    then if s.seed_len == 0
      then (fail enoent, [])
      else if ltb len s.seed_len
      then (fail emsgsize, [])
      else (value s.seed_len, take s.seed_len s.seed_buffer)
    else if id == unlock_failures_record
    then (value 1, s.unlock_failures ∷ [])
    else (fail enoent, [])

unfoldable pub ram_delete : ℕ → Ram → Code × Ram
ram_delete id s =
    if id == seed_record
    then (value 0, record s { seed_buffer = replicate 256 0; seed_len = 0 })
    else if id == unlock_failures_record
    then (value 0, record s { unlock_failures = 0 })
    else (fail enoent, s)

abbrev pub ram_erase : Ram → Code × Ram
ram_erase s = (value 0, blank)
