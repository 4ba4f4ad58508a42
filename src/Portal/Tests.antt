-- ===== src/Portal/Tests.antt =====
-- The portal's theorems at concrete requests.
use oskey_firmware.Prelude.{
  ℕ, ◌+◌, ◌≡◌, refl, true, false, some, [], ◌∷◌, ◌++◌, arith, replicate, value, codes, length, All,
}
use oskey_firmware.Portal.Endpoints.{complete, final_data, Services, wifi_post, submit_credentials}
use oskey_firmware.Portal.Requests.{headers_ok, Part, Portal, has_authorization, post}
use oskey_firmware.Portal.Firmware.{Flash, Upload, upload}
use oskey_firmware.Portal.Guarded.{IsClean, IsWiped, ends_request, post_wipes}
use oskey_firmware.Portal.Forms.{
  reboot_endpoint, handler_of, IsRefusal, run_calls, unauthorized_refused, later_part, post_whole,
  IsAnswered, parts_reach_endpoint,
}
use oskey_firmware.Portal.Uploads.{
  IsSound, MayUpgrade, carries, upload-IsSound, wifi_post-join, wifi_post-colon,
}

-- Services that count the calls of each kind: credentials, and restarts.
abbrev counting : Services (ℕ × ℕ)
counting = record {
  name_max = 63;
  submit = some (λ ssid password w. (value 0, (w.0 + 1, w.1)));
  save_hostname = λ name w. (value 0, w);
  set_hostname = λ name w. (value 0, w);
  schedule_reboot = λ w. (w.0, w.1 + 1);
}

abbrev fresh : Portal (ℕ × ℕ)
fresh = record { buffer = replicate 96 0; len = 0; authorized = false; world = (0, 0) }

abbrev granted : Portal (ℕ × ℕ)
granted = record fresh { authorized = true }

abbrev plain_part : Part
plain_part = record {
  status = headers_ok;
  headers = (codes "X-OSKey-Request", codes "0") ∷ [];
  bytes = codes "home:";
}

fresh-IsClean : IsClean fresh
fresh-IsClean = record { sized = refl; within = omega arith; zeroed = refl }

granted-IsClean : IsClean granted
granted-IsClean = record { sized = refl; within = omega arith; zeroed = refl }

post_wipes_example :
    let r = post (wifi_post counting) final_data plain_part granted in
    IsClean r.2 × (ends_request final_data r.0 ≡ true → IsWiped r.2)
post_wipes_example = post_wipes (wifi_post counting) final_data plain_part granted granted-IsClean

unauthorized_refused_example :
    let r =
      run_calls
        (handler_of counting reboot_endpoint)
        ((final_data, plain_part) ∷ (complete, later_part []) ∷ [])
        ([], fresh) in
    (r.1.world ≡ (0, 0)) × All IsRefusal r.0
unfolding has_authorization
unauthorized_refused_example =
    unauthorized_refused counting reboot_endpoint
      ((final_data, plain_part) ∷ (complete, later_part []) ∷ []) [] fresh (refl, (refl, tt)) refl
      tt

abbrev form_part : Part
form_part = record {
  status = headers_ok;
  headers = (codes "x-oskey-request", codes "1") ∷ [];
  bytes = codes "ho";
}

parts_reach_endpoint_example :
    IsAnswered
      (wifi_post counting)
      ([] ++ (codes "ho" ++ (codes "me:" ++ codes "password" ++ [])))
      (0, 0)
      (post_whole (wifi_post counting) form_part (codes "me:" ∷ codes "password" ∷ []) fresh)
unfolding has_authorization
parts_reach_endpoint_example =
    parts_reach_endpoint (wifi_post counting) form_part (codes "me:" ∷ codes "password" ∷ []) fresh
      fresh-IsClean refl (omega arith)

-- A flash that counts the bytes of the image.
abbrev slot : Flash ℕ
slot = record {
  image_init = λ n. (value 0, 0);
  image_write = λ bytes final n. (value 0, n + length bytes);
  bytes_written = λ n. n;
  request_upgrade = λ n. (value 0, n);
}

abbrev waiting : Upload ℕ
waiting = record {
  is_open = false;
  result = value 0;
  authorized = false;
  flash = 0;
  sound = true;
  upgrades = 0;
}

abbrev image_part : Part
image_part = record {
  status = headers_ok;
  headers = (codes "x-oskey-request", codes "1") ∷ [];
  bytes = 1 ∷ 2 ∷ [];
}

upload-IsSound_example :
    IsSound (carries false (final_data, image_part)) (upload slot final_data image_part waiting).1
    × MayUpgrade final_data
        (carries false (final_data, image_part))
        waiting
        (upload slot final_data image_part waiting).1
upload-IsSound_example =
    upload-IsSound slot final_data image_part false waiting
      (record { carried = refl; sound_is = λ h k. refl })

wifi_post-join_test :
    wifi_post counting final_data (codes "home" ++ b':' ∷ codes "password") (0, 0)
    ≡ submit_credentials counting (codes "home") (codes "password") (0, 0)
wifi_post-join_test = wifi_post-join counting (codes "home") (codes "password") (0, 0) refl refl

wifi_post-colon_example :
    wifi_post counting final_data
      ((codes "a" ++ b':' ∷ codes "b") ++ b':' ∷ codes "password")
      (0, 0)
    ≡ submit_credentials counting (codes "a") (codes "b" ++ b':' ∷ codes "password") (0, 0)
wifi_post-colon_example =
    wifi_post-colon counting (codes "a") (codes "b") (codes "password") (0, 0) refl refl
