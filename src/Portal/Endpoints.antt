-- ===== src/Portal/Endpoints.antt =====
-- net/wifi_portal.c: the checks of the forms, and the handlers of the three POST endpoints.
use oskey_firmware.Prelude.{
  ℕ, Bool, true, false, not, ◌&&◌, ◌||◌, Option, none, some, List, [], ◌∷◌, ◌==◌, if◌then◌else◌,
  ltb, leb, length, Code, fail, ebusy, einval, enoent, is_fail, is_zero, codes,
}
use oskey_firmware.Media.Card.{same_text}

-- `enum http_transaction_status` of the server, and the statuses of the responses.
pub data Transaction : Type 0 where
  aborted complete more_data final_data : Transaction

pub data HttpStatus : Type 0 where
  http_ok bad_request forbidden conflict server_error : HttpStatus

-- WIFI_SSID_MAX_LEN, and the size of `request_body`.
abbrev pub ssid_max : ℕ
ssid_max = 32

abbrev pub body_max : ℕ
body_max = 96

abbrev pub is_name_char : ℕ → Bool
is_name_char c =
    leb b'a' c && leb c b'z' || leb b'A' c && leb c b'Z' || leb b'0' c && leb c b'9' || c == b'-'

abbrev pub all_name_chars : List ℕ → Bool
all_name_chars [] = true
all_name_chars (c ∷ rest) = is_name_char c && all_name_chars rest

abbrev pub starts_with_dash : List ℕ → Bool
starts_with_dash [] = false
starts_with_dash (c ∷ rest) = c == b'-'

abbrev pub ends_with_dash : List ℕ → Bool
ends_with_dash [] = false
ends_with_dash (c ∷ []) = c == b'-'
ends_with_dash (c ∷ d ∷ rest) = ends_with_dash (d ∷ rest)

-- `hostname_is_valid`; `name_max` is NET_HOSTNAME_MAX_LEN of the network stack.
unfoldable pub hostname_is_valid : ℕ → List ℕ → Bool
hostname_is_valid name_max name =
    not (length name == 0)
    && not (ltb name_max (length name))
    && not (starts_with_dash name)
    && not (ends_with_dash name)
    && all_name_chars name

-- What the handlers call: the callback of the Wi-Fi module, the settings and the host name of the
-- network, and the delayed restart, over their state `W`.
pub record Services (W : Type 0) : Type 0 where
  pub name_max : ℕ
  pub submit : Option (List ℕ → List ℕ → W → Code × W)
  pub save_hostname : List ℕ → W → Code × W
  pub set_hostname : List ℕ → W → Code × W
  pub schedule_reboot : W → W

-- `memchr(body, ':', len)`: the parts before and behind the first colon.
abbrev pub split_colon : List ℕ → Option (List ℕ × List ℕ)
split_colon [] = none
split_colon (c ∷ rest) =
    if c == b':'
    then some ([], rest)
    else elim (split_colon rest) [ none ↦ none | some (a, b) ↦ some (c ∷ a, b) ]

abbrev pub credentials_fit : List ℕ → List ℕ → Bool
credentials_fit ssid password = not (
    length ssid == 0
    || ltb ssid_max (length ssid)
    || ltb 0 (length password) && ltb (length password) 8
    || ltb 63 (length password))

abbrev pub is_ebusy : Code → Bool
is_ebusy (fail ebusy) = true
is_ebusy _ = false

abbrev pub submit_status : Code → HttpStatus
submit_status rc = if is_fail rc then (if is_ebusy rc then conflict else server_error) else http_ok

module _ {W : Type 0} (services : Services W) where
  -- The call of `portal_submit_cb`, if it is set.
  unfoldable pub submit_credentials : List ℕ → List ℕ → W → HttpStatus × W
  submit_credentials ssid password w = elim services.submit [
    | none ↦ (http_ok, w)
    | some call ↦ let (rc, w') = call ssid password w in (submit_status rc, w')
  ]

  unfoldable pub wifi_form : Option (List ℕ × List ℕ) → W → HttpStatus × W
  wifi_form none w = (bad_request, w)
  wifi_form (some (ssid, password)) w =
      if credentials_fit ssid password then submit_credentials ssid password w else (bad_request, w)

  -- `wifi_post`. The server calls it with a complete or aborted transaction, or with the final data.
  unfoldable pub wifi_post : Transaction → List ℕ → W → HttpStatus × W
  unfolding wifi_form
  wifi_post aborted body w = (http_ok, w)
  wifi_post complete body w = (http_ok, w)
  wifi_post final_data body w = wifi_form (split_colon body) w
  wifi_post more_data body w = (
    elim (split_colon body) [
      | none ↦ bad_request
      | some (ssid, password) ↦ if credentials_fit ssid password then http_ok else bad_request
    ],
    w,
  )

  -- `hostname_post`
  unfoldable pub hostname_post : Transaction → List ℕ → W → HttpStatus × W
  hostname_post final_data body w =
      let (saved, w1) = services.save_hostname body w in
      let (set, w2) = services.set_hostname body w1 in
      if not (hostname_is_valid services.name_max body)
      then (bad_request, w)
      else if not (is_zero saved)
      then (server_error, w1)
      else (if is_zero set then http_ok else server_error, w2)
  hostname_post _ body w = (http_ok, w)

  -- `reboot_post`
  unfoldable pub reboot_post : Transaction → List ℕ → W → HttpStatus × W
  reboot_post complete body w = (http_ok, services.schedule_reboot w)
  reboot_post _ body w = (http_ok, w)

-- `hostname_settings_set`: the name of the setting, its length, and what its reader returns with the
-- bytes it read.
unfoldable pub hostname_settings_set :
    {W : Type 0} → Services W → List ℕ → ℕ → Code → List ℕ → W → Code × W
hostname_settings_set services name len rc bytes w =
    if not (same_text name (codes "hostname"))
    then (fail enoent, w)
    else if ltb services.name_max len
    then (fail einval, w)
    else if is_fail rc
    then (rc, w)
    else if not (hostname_is_valid services.name_max bytes)
    then (fail einval, w)
    else services.set_hostname bytes w
