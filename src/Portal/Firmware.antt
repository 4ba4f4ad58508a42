-- ===== src/Portal/Firmware.antt =====
-- net/wifi_portal.c with CONFIG_OSKEY_MCUBOOT: the upload of a firmware image to the other slot.
use oskey_firmware.Prelude.{
  ℕ, suc, Bool, true, false, not, ◌&&◌, Option, none, some, List, [], ◌==◌, if◌then◌else◌, Code,
  value, is_zero,
}
use oskey_firmware.Portal.Endpoints.{
  Transaction, aborted, complete, more_data, final_data, HttpStatus, http_ok, bad_request,
  forbidden, server_error,
}
use oskey_firmware.Portal.Requests.{
  Part, headers_none, has_authorization, Portal, body_reset, forget,
}

-- The flash image writer and the boot loader's request, over their state `F`.
pub record Flash (F : Type 0) : Type 0 where
  pub image_init : F → Code × F
  pub image_write : List ℕ → Bool → F → Code × F
  pub bytes_written : F → ℕ
  pub request_upgrade : F → Code × F

-- `firmware_upload_open`, `firmware_upload_result`, `request_authorized`, the flash, and two ghosts:
-- whether every call of the writer for this image succeeded, and how often an upgrade was requested.
pub record Upload (F : Type 0) : Type 0 where
  pub is_open : Bool
  pub result : Code
  pub authorized : Bool
  pub flash : F
  pub sound : Bool
  pub upgrades : ℕ

module _ {F : Type 0} (flash : Flash F) where
  -- `firmware_upload_reset`
  unfoldable pub upload_reset : Upload F → Upload F
  upload_reset u = record u {
    flash = if u.is_open then (flash.image_write [] true u.flash).1 else u.flash;
    is_open = false;
    result = value 0;
    authorized = false;
  }

  -- The headers of an upload.
  unfoldable pub upload_authorize : Part → Upload F → Upload F
  upload_authorize p u =
      let granted = has_authorization p in
      let (rc, f) = flash.image_init u.flash in
      elim p.status [
        | headers_none ↦ u
        | _ ↦
            if granted
            then record u {
              authorized = true;
              result = rc;
              is_open = is_zero rc;
              flash = f;
              sound = is_zero rc;
            }
            else record u { authorized = false }
      ]

  -- A part of the image.
  unfoldable pub upload_write : Bool → Part → Upload F → Upload F
  upload_write final p u =
      let (rc, f) = flash.image_write p.bytes final u.flash in
      if u.authorized && is_zero u.result
      then record u { result = rc; is_open = not final; flash = f; sound = u.sound && is_zero rc }
      else u

  -- The response to the last part.
  unfoldable pub upload_finish : Upload F → HttpStatus × Upload F
  upload_finish u =
      let (rc, f) = flash.request_upgrade u.flash in
      if not u.authorized
      then (forbidden, u)
      else if not (is_zero u.result)
      then (server_error, u)
      else if flash.bytes_written u.flash == 0
      then (bad_request, u)
      else (
        if is_zero rc then http_ok else server_error,
        record u { flash = f; upgrades = suc u.upgrades },
      )

  unfoldable pub upload_part : Bool → Part → Upload F → Option HttpStatus × Upload F
  unfolding upload_write upload_finish
  upload_part final p u =
      let t = upload_write final p (upload_authorize p u) in
      let (answer, v) = upload_finish t in if final then (some answer, v) else (none, t)

  -- `firmware_upload_handler`
  unfoldable pub upload : Transaction → Part → Upload F → Option HttpStatus × Upload F
  unfolding upload_reset upload_part
  upload aborted p u = (none, upload_reset u)
  upload complete p u = (none, upload_reset u)
  upload more_data p u = upload_part false p u
  upload final_data p u = upload_part true p u

-- `wifi_portal_init`, without the callback, which is one of the services: what `http_server_start`
-- returns, and the state of both handlers.
unfoldable pub portal_init :
    {F W : Type 0} → Code → Portal W → Upload F → Code × Portal W × Upload F
portal_init started s u = (
  started,
  forget (body_reset s),
  record u { authorized = false; is_open = false; result = value 0 },
)
