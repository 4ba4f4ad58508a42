-- ===== src/Storage/Flash.antt =====
-- storage.c with CONFIG_OSKEY_STORAGE: the flash file system behind a flag that a failure clears.
use oskey_firmware.Prelude.{
  ℕ, Bool, true, false, not, ◌&&◌, ◌||◌, List, [], ◌∷◌, ◌==◌, if◌then◌else◌, length, ltb, Code,
  value, fail, enoent, enodev, einval, emsgsize, is_fail,
}

-- The members of `enum app_storage_state` that storage.c publishes.
pub data Published : Type 0 where
  storage_error storage_ready : Published

-- `storage_ids`
abbrev pub seed_record : ℕ
seed_record = 2

abbrev pub unlock_failures_record : ℕ
unlock_failures_record = 3

abbrev pub firmware_update_record : ℕ
firmware_update_record = 4

-- The flash file system and the settings of Zephyr, over its state `F`: a size or a number of bytes,
-- or a failure. `zms_read` fills the buffer that it is given.
pub record Zms (F : Type 0) : Type 0 where
  pub settings_init : F → Code × F
  pub settings_storage : F → Code × F
  pub has_storage : F → Bool
  pub settings_load : F → Code × F
  pub data_length : F → ℕ → Code × F
  pub write_record : F → ℕ → List ℕ → Code × F
  pub read_record : F → ℕ → ℕ → Code × List ℕ × F
  pub delete_record : F → ℕ → Code × F
  pub clear : F → Code × F

-- `storage_initialized`, whether `fs` is set, the file system, and what was published, newest first.
pub record Flash (F : Type 0) : Type 0 where
  pub initialized : Bool
  pub mounted : Bool
  pub fs : F
  pub published : List Published

abbrev pub publish : {F : Type 0} → Published → Flash F → Flash F
publish p s = record s { published = p ∷ s.published }

abbrev pub is_enoent : Code → Bool
is_enoent (fail enoent) = true
is_enoent _ = false

unfoldable pub init_result : {F : Type 0} → Code → Flash F → Code × Flash F
init_result rc s = (
  rc,
  publish (if is_fail rc then storage_error else storage_ready)
      (record s { initialized = not (is_fail rc) }),
)

unfoldable pub runtime_result : {F : Type 0} → Code → Flash F → Code × Flash F
runtime_result rc s =
    if is_fail rc && not (is_enoent rc)
    then (rc, publish storage_error (record s { initialized = false }))
    else (rc, s)

module _ {F : Type 0} (zms : Zms F) where
  unfoldable pub init : Flash F → Code × Flash F
  unfolding init_result
  init s =
      let (rc, f) = zms.settings_init s.fs in
      let (got, g) = zms.settings_storage f in
      if is_fail rc
      then init_result rc (record s { fs = f })
      else if is_fail got
      then init_result got (record s { fs = g })
      else if not (zms.has_storage g)
      then init_result (fail enodev) (record s { fs = g })
      else init_result (value 0) (record s { fs = g; mounted = true })

  unfoldable pub load_settings : Flash F → Code × Flash F
  load_settings s = let (rc, f) = zms.settings_load s.fs in runtime_result rc (record s { fs = f })

  abbrev pub some_bytes : Code → Code
  some_bytes (value n) = if n == 0 then value 0 else value 1
  some_bytes (fail e) = fail e

  -- `storage_exists`
  unfoldable pub exists_record : ℕ → Flash F → Code × Flash F
  unfolding runtime_result
  exists_record id s =
      let (len, f) = zms.data_length s.fs id in
      let after = record s { fs = f } in
      if not s.initialized
      then (fail enodev, s)
      else if is_enoent len
      then (value 0, after)
      else if is_fail len
      then runtime_result len after
      else (some_bytes len, after)

  -- `storage_write`; `has_data` is whether the pointer is there.
  unfoldable pub write : Bool → List ℕ → ℕ → Flash F → Code × Flash F
  unfolding runtime_result
  write has_data bytes id s =
      let (rc, f) = zms.write_record s.fs id bytes in
      let after = record s { fs = f } in
      if not s.initialized
      then (fail enodev, s)
      else if not has_data || length bytes == 0
      then (fail einval, s)
      else if is_fail rc
      then runtime_result rc after
      else (value 0, after)

  -- `storage_read` into a buffer of `len` bytes, with the bytes that it was filled with.
  unfoldable pub read_sized : ℕ → ℕ → Flash F → Code × List ℕ × Flash F
  unfolding runtime_result
  read_sized id n s =
      let (rc, bytes, f) = zms.read_record s.fs id n in
      let (out, t) = runtime_result rc (record s { fs = f }) in (out, bytes, t)

  unfoldable pub read_found : ℕ → ℕ → Code → Flash F → Code × List ℕ × Flash F
  unfolding read_sized
  read_found len id (fail e) s = let (out, t) = runtime_result (fail e) s in (out, [], t)
  read_found len id (value n) s = if ltb len n then (fail emsgsize, [], s) else read_sized id n s

  unfoldable pub read : Bool → ℕ → ℕ → Flash F → Code × List ℕ × Flash F
  unfolding read_found
  read has_data len id s =
      let (stored, f) = zms.data_length s.fs id in
      if not s.initialized
      then (fail enodev, [], s)
      else if not has_data || len == 0
      then (fail einval, [], s)
      else read_found len id stored (record s { fs = f })

  -- `storage_delete`
  unfoldable pub delete : ℕ → Flash F → Code × Flash F
  unfolding runtime_result
  delete id s =
      let (rc, f) = zms.delete_record s.fs id in
      if not s.initialized then (fail enodev, s) else runtime_result rc (record s { fs = f })

  -- `storage_erase_flash`
  unfoldable pub erase_flash : Flash F → Code × Flash F
  erase_flash s =
      let (rc, f) = zms.clear s.fs in
      let erased = record s { fs = f; initialized = false } in
      if not s.mounted
      then (fail enodev, s)
      else (rc, if is_fail rc then publish storage_error erased else erased)
