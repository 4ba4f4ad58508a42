-- ===== src/Bluetooth/Transport.antt =====
-- bluetooth/bluetooth.c: the connection, its session, advertising, receiving and sending.
use oskey_firmware.Prelude.{
  ℕ, zero, suc, ◌-◌, ◌%◌, min, Bool, false, not, Option, none, some, List, ◌∷◌, ◌==◌, if◌then◌else◌,
  ltb, leb, length, take, drop, u32, Code, value, fail, einval, enodev, enotconn, eacces, emsgsize,
  is_zero,
}

-- `enum app_bluetooth_state`
pub data BluetoothState : Type 0 where
  bluetooth_idle bluetooth_advertising bluetooth_connected : BluetoothState

-- BT_SECURITY_L4
abbrev pub security_l4 : ℕ
security_l4 = 4

-- What the file calls, over the state `W` behind it; connections are numbers. The host's: security
-- level, MTU, notification of a chunk, request of security, disconnection, advertising (with whether
-- the identity address is used), registrations and start. Then the core's queue, with the session of
-- the route, and the settings, which answer whether a whole flag was loaded.
pub record Stack (W : Type 0) : Type 0 where
  pub security : ℕ → W → ℕ
  pub mtu : ℕ → W → ℕ
  pub notify : ℕ → List ℕ → W → Code × W
  pub set_security : ℕ → W → Code × W
  pub disconnect : ℕ → W → W
  pub adv_start : Bool → W → Code × W
  pub register_nus : W → Code × W
  pub enable : W → Code × W
  pub register_auth : W → Code × W
  pub register_auth_info : W → Code × W
  pub submit : ℕ → List ℕ → W → Code × W
  pub load_privacy : W → Option Bool
  pub save_privacy : Bool → W → Code × W

-- The static variables, the state behind the calls, and ghosts: the references taken on connections
-- and not released; the states published, the bytes submitted with their sessions, and the chunks
-- notified with their connections, all newest first.
pub record Bluetooth (W : Type 0) : Type 0 where
  pub active : Option ℕ
  pub session : ℕ
  pub sequence : ℕ
  pub privacy : Bool
  pub references : ℕ → ℕ
  pub published : List BluetoothState
  pub submitted : List (ℕ × List ℕ)
  pub notified : List (ℕ × List ℕ)
  pub world : W

abbrev pub is_active : ℕ → Option ℕ → Bool
is_active c none = false
is_active c (some d) = c == d

-- The next session number of 32 bits, which is never 0.
abbrev pub session_after : ℕ → ℕ
session_after n = if u32 (suc n) == 0 then 1 else u32 (suc n)

-- `(uint16_t)MIN(len, max_payload)`
abbrev pub chunk_size : ℕ → ℕ → ℕ
chunk_size len max_payload = min len max_payload % 65536

module _ {W : Type 0} where
  -- `publish_bluetooth_state`
  abbrev pub publish_bluetooth_state : BluetoothState → Bluetooth W → Bluetooth W
  publish_bluetooth_state s b = record b { published = s ∷ b.published }

  -- `bt_conn_ref` and `bt_conn_unref`
  abbrev pub conn_ref : ℕ → Bluetooth W → Bluetooth W
  conn_ref c b = record b {
    references = λ d. if d == c then suc (b.references d) else b.references d;
  }

  abbrev pub conn_unref : Option ℕ → Bluetooth W → Bluetooth W
  conn_unref none b = b
  conn_unref (some c) b = record b {
    references = λ d. if d == c then b.references d - 1 else b.references d;
  }

  unfoldable pub set_active_conn : ℕ → Bluetooth W → Bluetooth W
  set_active_conn c b = conn_unref b.active (record (conn_ref c b) {
    active = some c;
    sequence = session_after b.sequence;
    session = session_after b.sequence;
  })

  unfoldable pub clear_active_conn : ℕ → Bluetooth W → Bluetooth W
  clear_active_conn c b =
      if is_active c b.active
      then conn_unref b.active (record b { active = none; session = 0 })
      else b

  abbrev pub get_session_id : ℕ → Bluetooth W → ℕ
  get_session_id c b = if is_active c b.active then b.session else 0

  -- `get_active_conn`: the connection of a session, with a reference to it.
  abbrev pub conn_of : Option ℕ → ℕ → Bluetooth W → Option ℕ × Bluetooth W
  conn_of none id b = (none, b)
  conn_of (some c) id b = if b.session == id then (some c, conn_ref c b) else (none, b)

  unfoldable pub get_active_conn : ℕ → Bluetooth W → Option ℕ × Bluetooth W
  get_active_conn id b = conn_of b.active id b

  -- The end of `oskey_bt_send` for a connection.
  abbrev pub release_conn : ℕ → Option (Code × Bluetooth W) → Option (Code × Bluetooth W)
  release_conn c none = none
  release_conn c (some (rc, b)) = some (rc, conn_unref (some c) b)

  -- `disconnected`
  unfoldable pub disconnected : ℕ → Bluetooth W → Bluetooth W
  disconnected c b = publish_bluetooth_state bluetooth_idle (clear_active_conn c b)

module _ {W : Type 0} (stack : Stack W) where
  -- `connected`; `err` is the controller's.
  unfoldable pub connected : ℕ → ℕ → Bluetooth W → Bluetooth W
  connected c err b =
      let s = publish_bluetooth_state bluetooth_connected (set_active_conn c b) in
      let (rc, w) = stack.set_security c s.world in
      if not (err == 0)
      then b
      else if is_zero rc
      then record s { world = w }
      else record s { world = stack.disconnect c w }

  unfoldable pub start_advertising : Bluetooth W → Bluetooth W
  start_advertising b =
      let (rc, w) = stack.adv_start (not b.privacy) b.world in
      publish_bluetooth_state (if is_zero rc then bluetooth_advertising else bluetooth_idle)
        (record b { world = w })

  -- `security_changed` and `pairing_failed` end the connection; `failed` is whether there is an error.
  unfoldable pub security_changed : ℕ → Bool → Bluetooth W → Bluetooth W
  security_changed c failed b =
      if failed then record b { world = stack.disconnect c b.world } else b

  abbrev pub pairing_failed : ℕ → Bluetooth W → Bluetooth W
  pairing_failed c b = record b { world = stack.disconnect c b.world }

  -- `nus_received`
  unfoldable pub nus_received : ℕ → List ℕ → Bluetooth W → Bluetooth W
  nus_received c bytes b =
      let id = get_session_id c b in
      let (rc, w) = stack.submit id bytes b.world in
      if ltb (stack.security c b.world) security_l4
      then b
      else if id == 0
      then b
      else record b { submitted = (id, bytes) ∷ b.submitted; world = w }

  -- `oskey_bt_init`; `found` is whether the section has an instance of the service.
  unfoldable pub bt_init : Bool → Bluetooth W → Code × Bluetooth W
  bt_init found b =
      let (registered, w1) = stack.register_nus b.world in
      let (enabled, w2) = stack.enable w1 in
      if not found
      then (fail enodev, b)
      else if not (is_zero registered)
      then (registered, record b { world = w1 })
      else if not (is_zero enabled)
      then (enabled, record b { world = w2 })
      else (value 0, publish_bluetooth_state bluetooth_idle (record b { world = w2 }))

  -- `oskey_bt_address_privacy_enabled` and `oskey_bt_address_privacy_set`
  abbrev pub address_privacy_enabled : W → Bool
  address_privacy_enabled w = elim (stack.load_privacy w) [ none ↦ false | some enabled ↦ enabled ]

  abbrev pub address_privacy_set : Bool → Bluetooth W → Code × Bluetooth W
  address_privacy_set enabled b =
      let (rc, w) = stack.save_privacy enabled b.world in (rc, record b { world = w })

  -- `oskey_bt_start`
  unfoldable pub bt_start : Bluetooth W → Code × Bluetooth W
  unfolding start_advertising
  bt_start b =
      let s = record b { privacy = address_privacy_enabled b.world } in
      let (auth, w1) = stack.register_auth s.world in
      let (info, w2) = stack.register_auth_info w1 in
      if not (is_zero auth)
      then (auth, record s { world = w1 })
      else if not (is_zero info)
      then (info, record s { world = w2 })
      else (value 0, start_advertising (record s { world = w2 }))

  -- The loop of `oskey_bt_send`, on fuel.
  unfoldable pub send_chunks : ℕ → ℕ → ℕ → List ℕ → Bluetooth W → Option (Code × Bluetooth W)
  send_chunks zero c max_payload bytes b = if length bytes == 0 then some (value 0, b) else none
  send_chunks (suc fuel) c max_payload bytes b =
      let n = chunk_size (length bytes) max_payload in
      let (rc, w) = stack.notify c (take n bytes) b.world in
      let s = record b { world = w } in
      let later =
        send_chunks fuel c max_payload (drop n bytes)
          (record s { notified = (c, take n bytes) ∷ b.notified }) in
      if length bytes == 0 then some (value 0, b) else if is_zero rc then later else some (rc, s)

  -- `oskey_bt_send` from the connection of the session on, without the reference's release.
  unfoldable pub send_on : ℕ → ℕ → List ℕ → Bluetooth W → Option (Code × Bluetooth W)
  unfolding send_chunks
  send_on fuel c bytes b =
      let sent = send_chunks fuel c (stack.mtu c b.world - 3) bytes b in
      if ltb (stack.security c b.world) security_l4
      then some (fail eacces, b)
      else if leb (stack.mtu c b.world) 3
      then some (fail emsgsize, b)
      else sent

  -- `oskey_bt_send` from what `get_active_conn` gives on.
  abbrev pub send_to : ℕ → List ℕ → Option ℕ × Bluetooth W → Option (Code × Bluetooth W)
  send_to fuel bytes (none, b) = some (fail enotconn, b)
  send_to fuel bytes (some c, b) = release_conn c (send_on fuel c bytes b)

  -- `oskey_bt_send` on fuel; the bytes are none for NULL.
  unfoldable pub bt_send : ℕ → ℕ → Option (List ℕ) → Bluetooth W → Option (Code × Bluetooth W)
  unfolding send_on get_active_conn
  bt_send fuel id none b = some (fail einval, b)
  bt_send fuel id (some bytes) b =
      let sent = send_to fuel bytes (get_active_conn id b) in
      if length bytes == 0 then some (value 0, b) else sent
