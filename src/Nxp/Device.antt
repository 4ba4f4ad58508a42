-- ===== src/Nxp/Device.antt =====
-- security/nxp/device.c and device.h: the commands to the chip, over one protected exchange.
use oskey_firmware.Prelude.{
  ℕ, ◌-◌, ◌/◌, ◌%◌, Bool, true, false, not, ◌&&◌, ◌||◌, Option, none, some, List, [], ◌∷◌, ◌++◌,
  ◌==◌, ltb, if◌then◌else◌, length, take, drop, replicate,
}

-- `enum nxp_result`
pub data Result : Type 0 where
  nxp_ok nxp_error pin_rejected credentials_missing : Result

abbrev pub is_ok : Result → Bool
is_ok nxp_ok = true
is_ok _ = false

-- `struct nxp_credentials`
pub record Credentials : Type 0 where
  pub enc : List ℕ
  pub mac : List ℕ
  pub dek : List ℕ
  pub reset : List ℕ

abbrev pub wiped_keys : Credentials
wiped_keys = record {
  enc = replicate 16 0;
  mac = replicate 16 0;
  dek = replicate 16 0;
  reset = replicate 16 0;
}

-- What device.c calls outside the repository, over the state `W` of the bus and the chip: the PSA
-- start, the provisioned credentials of the build, the vendor's session and the reset of the
-- contexts that host_crypto_psa.c keeps for it, its protected transfer of a command (header and
-- data; `none` when encryption or transport fails), and its check and decryption of a response.
pub record Vendor (W : Type 0) : Type 0 where
  pub crypto_init : W → Bool
  pub provisioned : Option Credentials
  pub session_open : Credentials → W → Bool × Bool × W
  pub session_close : W → W
  pub crypto_reset : W → W
  pub transceive : List ℕ → List ℕ → W → Option (List ℕ) × W
  pub decrypt : ℕ → List ℕ → W → Option (List ℕ) × W

-- A command as it goes to the vendor's transfer; a ghost, with the object authenticated then.
pub record Sent : Type 0 where
  pub ins : ℕ
  pub p1 : ℕ
  pub p2 : ℕ
  pub body : List ℕ
  pub authenticated : ℕ

-- The static variables of device.c, the state outside, and the ghost log, newest first. `live` is
-- whether `session.scp03_session` is set.
pub record Device (W : Type 0) : Type 0 where
  pub live : Bool
  pub keys : Credentials
  pub user_session : List ℕ
  pub in_user_session : Bool
  pub opened : Bool
  pub authenticated_id : ℕ
  pub outside : W
  pub log : List Sent

abbrev pub pin_id : ℕ
pin_id = 0x4f534b01

abbrev pub seed_id : ℕ
seed_id = 0x4f534b02

abbrev pub salt_id : ℕ
salt_id = 0x4f534b03

abbrev pub reset_id : ℕ
reset_id = 0x7fff0205

abbrev pub u32be : ℕ → List ℕ
u32be n = (n / 16777216 % 256) ∷ (n / 65536 % 256) ∷ (n / 256 % 256) ∷ (n % 256) ∷ []

abbrev pub tlv : ℕ → List ℕ → List ℕ
tlv tag bytes = tag ∷ (length bytes % 256) ∷ bytes

abbrev pub object : ℕ → List ℕ
object id = 0x41 ∷ 4 ∷ u32be id

abbrev pub policy : ℕ → ℕ → List ℕ
policy reader permissions = tlv 0x11 (8 ∷ u32be reader ++ u32be permissions)

-- `POLICY_OBJ_ALLOW_READ | POLICY_OBJ_REQUIRE_SM`, constants of the vendor's header.
pub record PolicyBits : Type 0 where
  pub read_protected : ℕ

-- The command and header that go out inside and outside a user session.
unfoldable pub inner_command : ℕ → ℕ → ℕ → List ℕ → Bool → List ℕ
inner_command ins p1 p2 body deleting =
    0x80
    ∷ ins
    ∷ p1
    ∷ p2
    ∷ ((if length body == 0 then [] else length body ∷ body)
        ++ (if ins == 2 || deleting then 0 ∷ [] else []))

unfoldable pub wrapped_command : {W : Type 0} → Device W → List ℕ → List ℕ
wrapped_command d inner = tlv 0x10 d.user_session ++ tlv 0x41 inner

-- The status word, and the response without it.
abbrev pub last_two : List ℕ → List ℕ
last_two bytes = drop (length bytes - 2) bytes

abbrev pub is_success_word : List ℕ → Bool
is_success_word (a ∷ b ∷ []) = a == 0x90 && b == 0
is_success_word _ = false

abbrev pub is_rejected_word : List ℕ → Bool
is_rejected_word (a ∷ b ∷ []) = a == 0x69 && b == 0x85
is_rejected_word _ = false

module _ {W : Type 0} (v : Vendor W) where
  -- A failed exchange invalidates the channel.
  abbrev pub broken : Result → Device W → Result × List ℕ × Device W
  broken rc d = (rc, [], record d { live = false })

  -- The response after its status word was 0x9000.
  unfoldable pub finish_reply : ℕ → ℕ → Bool → List ℕ → Device W → Result × List ℕ × Device W
  finish_reply original_len reply_len deleting response d =
      let (plain, w) = v.decrypt original_len response d.outside in
      let after = record d { outside = w } in
      if deleting && length response == 2
      then (nxp_ok, [], record d { live = false })
      else if ltb (length response) 10
      then broken nxp_error d
      else elim plain [
        | none ↦ broken nxp_error after
        | some p ↦
            if ltb (length p) 2
              || not (is_success_word (last_two p))
              || ltb reply_len (length p - 2)
            then broken nxp_error after
            else (nxp_ok, take (length p - 2) p, after)
      ]

  -- `exchange`: the result, the bytes of the reply, and the state.
  unfoldable pub exchange : ℕ → ℕ → ℕ → List ℕ → ℕ → Bool → Device W → Result × List ℕ × Device W
  unfolding finish_reply
  exchange ins p1 p2 body reply_len deleting d =
      let inner = inner_command ins p1 p2 body deleting in
      let command = if d.in_user_session then wrapped_command d inner else body in
      let header = if d.in_user_session then 0x80 ∷ 5 ∷ 0 ∷ 0 ∷ [] else 0x80 ∷ ins ∷ p1 ∷ p2 ∷ [] in
      let (response, w) = v.transceive header command d.outside in
      let sent = record d {
        outside = w;
        log =
            record { ins = ins; p1 = p1; p2 = p2; body = body; authenticated = d.authenticated_id }
            ∷ d.log;
      } in
      if not d.live || ltb 110 (length body) then broken nxp_error d else elim response [
        | none ↦ broken nxp_error sent
        | some r ↦
            if ltb (length r) 2
            then broken nxp_error sent
            else if not (is_success_word (last_two r))
            then broken (if is_rejected_word (last_two r) then pin_rejected else nxp_error) sent
            else finish_reply (length command) reply_len deleting r sent
      ]

  unfoldable pub no_reply : ℕ → ℕ → ℕ → List ℕ → Device W → Bool × Device W
  no_reply ins p1 p2 body d =
      let (rc, reply, d') = exchange ins p1 p2 body 0 false d in (is_ok rc, d')

  unfoldable pub close : Device W → Device W
  close d = record d {
    outside = v.crypto_reset (if d.opened then v.session_close d.outside else d.outside);
    opened = false;
    in_user_session = false;
    authenticated_id = 0;
    live = false;
    keys = wiped_keys;
    user_session = replicate 8 0;
  }

  -- The version that the applet must answer: tag, length, and 7.2.
  abbrev pub is_supported : List ℕ → Bool
  is_supported (a ∷ b ∷ c ∷ d ∷ rest) = length rest == 5 && a == 0x41 && b == 7 && c == 7 && d == 2
  is_supported _ = false

  unfoldable pub connect : Credentials → Device W → Result × Device W
  connect keys d =
      let (ok, protected, w) = v.session_open keys d.outside in
      let started = record d { keys = keys; opened = true; live = protected; outside = w } in
      let (rc, version, asked) = exchange 4 0 0x20 [] 16 false started in
      if not ok || not protected
      then (nxp_error, close started)
      else if not (is_ok rc) || not (is_supported version)
      then (nxp_error, close asked)
      else (nxp_ok, asked)

  unfoldable pub connect_loaded : Option Credentials → Device W → Result × Device W
  connect_loaded none d = (credentials_missing, d)
  connect_loaded (some keys) d = connect keys d

  -- `nxp_device_open`
  unfoldable pub open_device : Device W → Result × Device W
  open_device d =
      let closed = close d in
      if not (v.crypto_init closed.outside)
      then (nxp_error, closed)
      else connect_loaded v.provisioned closed

  abbrev pub presence : List ℕ → Option Bool
  presence (a ∷ b ∷ c ∷ []) =
      if a == 0x41 && b == 1 && (c == 1 || c == 2) then some (c == 1) else none
  presence _ = none

  -- `nxp_device_exists`: `none` for NXP_ERROR.
  unfoldable pub exists_object : ℕ → Device W → Option Bool × Device W
  exists_object id d =
      let (rc, reply, d') = exchange 4 0 0x27 (object id) 3 false d in
      elim (if is_ok rc then presence reply else none) [
        | none ↦ (none, record d' { live = false })
        | some b ↦ (some b, d')
      ]

  abbrev pub payload_of : ℕ → List ℕ → Option (List ℕ)
  payload_of len (a ∷ b ∷ bytes) =
      if length bytes == len && a == 0x41 && b == len then some bytes else none
  payload_of len _ = none

  -- `nxp_device_read`: `none` for NXP_ERROR, with the caller's buffer wiped.
  unfoldable pub read_object : ℕ → ℕ → Device W → Option (List ℕ) × Device W
  read_object id len d =
      let (rc, reply, d') = exchange 2 0 0 (object id) 66 false d in
      if ltb 64 len
      then (none, d)
      else if id == seed_id && not (d.authenticated_id == pin_id)
      then (none, d)
      else elim (if is_ok rc then payload_of len reply else none) [
        | none ↦ (none, record d' { live = false })
        | some bytes ↦ (some bytes, d')
      ]

  abbrev pub write_command : PolicyBits → ℕ → ℕ → List ℕ → List ℕ
  write_command bits id reader bytes =
      policy reader bits.read_protected
      ++ object id
      ++ tlv 0x43 (0 ∷ length bytes % 256 ∷ [])
      ++ tlv 0x44 bytes

  -- `nxp_device_write`
  unfoldable pub write_object : PolicyBits → ℕ → ℕ → List ℕ → Device W → Bool × Device W
  write_object bits id reader bytes d =
      let sent = no_reply 1 6 0 (write_command bits id reader bytes) d in
      if ltb 64 (length bytes) || length bytes == 0 then (false, d) else sent

  abbrev pub user_command : ℕ → List ℕ → ℕ → List ℕ
  user_command id value attempts =
      policy 0 0 ++ tlv 0x12 (0 ∷ attempts % 256 ∷ []) ++ object id ++ tlv 0x42 (take 16 value)

  -- `nxp_device_user`
  unfoldable pub create_user : ℕ → List ℕ → ℕ → Device W → Bool × Device W
  create_user id value attempts d =
      let sent = no_reply 0x41 7 0 (user_command id value attempts) d in
      if ltb 255 attempts then (false, d) else sent

  -- The second half of `nxp_device_auth`, in the new user session.
  unfoldable pub verify : ℕ → List ℕ → Device W → Result × Device W
  verify id value d =
      let (rc, reply, d') = exchange 4 0 0x2c (tlv 0x41 (take 16 value)) 0 false d in
      (rc, if is_ok rc then record d' { authenticated_id = id } else d')

  -- The user session opens if the reply holds its eight bytes.
  unfoldable pub verify_opened : ℕ → List ℕ → Option (List ℕ) → Device W → Result × Device W
  unfolding verify
  verify_opened id value none d = (nxp_error, record d { live = false })
  verify_opened id value (some bytes) d =
      verify id value (record d { user_session = bytes; in_user_session = true })

  -- `nxp_device_auth`
  unfoldable pub authenticate : ℕ → List ℕ → Device W → Result × Device W
  authenticate id value d =
      let (rc, reply, d') = exchange 4 0 0x1b (object id) 10 false d in
      if d.in_user_session
      then (nxp_error, d)
      else if not (is_ok rc)
      then (rc, d')
      else verify_opened id value (payload_of 8 reply) d'

  -- `nxp_device_reset_auth`
  unfoldable pub reset_auth : Device W → Bool × Device W
  reset_auth d =
      let (present, asked) = exists_object reset_id d in
      let (made, created) = create_user reset_id asked.keys.reset 0 asked in
      let from_old = authenticate reset_id asked.keys.reset asked in
      let from_new = authenticate reset_id created.keys.reset created in
      elim present [
        | none ↦ (false, asked)
        | some true ↦ (is_ok from_old.0, from_old.1)
        | some false ↦ if made then (is_ok from_new.0, from_new.1) else (false, created)
      ]

  -- `nxp_device_delete_all`
  unfoldable pub delete_all : Device W → Result × Device W
  delete_all d =
      let (rc, reply, d') = exchange 4 0 0x2a [] 0 true d in
      if not d.in_user_session || not (d.authenticated_id == reset_id)
      then (nxp_error, d)
      else (rc, d')
