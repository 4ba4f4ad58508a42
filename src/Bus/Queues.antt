-- ===== src/Bus/Queues.antt =====
-- bus.c: the commands to the core and its results, through bounded queues.
use oskey_firmware.Prelude.{
  ℕ, Bool, true, not, Option, none, some, List, [], ◌∷◌, ◌++◌, ◌==◌, if◌then◌else◌, Code, value,
  fail, einval, eagain, enotsup, is_fail,
}
use oskey_firmware.Bus.Payload.{
  Fragments, Kernel, command_pool, result_pool, Data, no_data, Held, release, payload_create,
}

-- The enumerations of bindings.h.
pub data CommandKind : Type 0 where
  protocol_command local_command fido_command confirm_command : CommandKind

pub data Transport : Type 0 where
  uart_transport bluetooth_transport : Transport

-- `TransportRoute`
pub record Route : Type 0 where
  pub transport : Transport
  pub session_id : ℕ

pub data LocalRequest : Type 0 where
  unlock_request init_custom generate_mnemonic generate_mnemonic_mixed restart_request :
      LocalRequest
  reset_storage lock_request refresh_secure_storage : LocalRequest

pub data FidoRequest : Type 0 where
  fido_register fido_validate fido_sign fido_confirm fido_cancel_confirmation : FidoRequest

pub data Choice : Type 0 where
  approve reject : Choice

pub data LocalAction : Type 0 where
  local_ready local_mnemonic local_error local_updated : LocalAction

pub data FidoStatus : Type 0 where
  fido_success fido_failed fido_cancelled : FidoStatus

-- `struct app_core_command`
pub record Command : Type 0 where
  pub kind : CommandKind
  pub route : Route
  pub local_kind : LocalRequest
  pub fido_kind : FidoRequest
  pub choice : Choice
  pub request_id : ℕ
  pub number : ℕ
  pub first_len : ℕ
  pub payload : Option Fragments

-- A command with every member zero.
abbrev pub zero_command : Command
zero_command = record {
  kind = protocol_command;
  route = record { transport = uart_transport; session_id = 0 };
  local_kind = unlock_request;
  fido_kind = fido_register;
  choice = approve;
  request_id = 0;
  number = 0;
  first_len = 0;
  payload = none;
}

-- `struct app_local_result`
pub record LocalResult : Type 0 where
  pub action : LocalAction
  pub error : ℕ
  pub number : ℕ
  pub payload : Option Fragments

-- `struct app_fido_result`
pub record FidoResult : Type 0 where
  pub request_id : ℕ
  pub credential_id_len : ℕ
  pub status : FidoStatus
  pub payload : Option Fragments

-- The static state of bus.c: `core_ready`, the three queues, oldest first, and the kernel's.
pub record Bus (K : Type 0) : Type 0 where
  pub core_ready : Bool
  pub commands : List Command
  pub local_results : List LocalResult
  pub fido_results : List FidoResult
  pub held : Held K

-- `queue_get`, for a message that has a place; `none` for -EAGAIN.
abbrev pub queue_get : {A : Type 0} → List A → Option A × List A
queue_get [] = (none, [])
queue_get (m ∷ rest) = (some m, rest)

module _ {K : Type 0} (k : Kernel K) where
  -- `queue_put`: whether the message went in; if not, its payload is released.
  unfoldable pub queue_put :
      {A : Type 0} → List A → A → Option Fragments → Held K → Code × List A × Held K
  queue_put queue m p s =
      let (fits, w) = k.has_room s.kernel in
      let after = record s { kernel = w } in
      if fits then (value 0, queue ++ m ∷ [], after) else (fail eagain, queue, release k p after)

  unfoldable pub put_command : Command → Bus K → Code × Bus K
  unfolding queue_put
  put_command m b =
      let (rc, queue, h) = queue_put b.commands m m.payload b.held in
      (rc, record b { commands = queue; held = h })

  -- `payload_create`, and `queue_put` if it succeeded; `m` is the command without its payload.
  unfoldable pub submit_with : Command → Data → Data → Bus K → Code × Bus K
  unfolding put_command
  submit_with m first auxiliary b =
      let (rc, p, h) = payload_create k command_pool first auxiliary b.held in
      let created = record b { held = h } in
      if not b.core_ready
      then (fail enotsup, b)
      else if is_fail rc
      then (rc, created)
      else put_command (record m { payload = p }) created

  -- `app_core_submit_protocol`
  unfoldable pub submit_protocol : Route → Data → Bus K → Code × Bus K
  submit_protocol route first b =
      submit_with (record zero_command { kind = protocol_command; route = route }) first no_data b

  -- `app_core_submit_local`
  unfoldable pub submit_local : LocalRequest → ℕ → Data → Data → Bus K → Code × Bus K
  submit_local kind number first auxiliary b =
      submit_with
        (record zero_command {
          kind = local_command;
          number = number;
          local_kind = kind;
          first_len = first.len;
        })
        first auxiliary b

  -- `app_core_submit_fido`
  unfoldable pub submit_fido : FidoRequest → ℕ → ℕ → Data → Data → Bus K → Code × Bus K
  submit_fido kind request_id number first auxiliary b =
      submit_with
        (record zero_command {
          kind = fido_command;
          request_id = request_id;
          number = number;
          fido_kind = kind;
          first_len = first.len;
        })
        first auxiliary b

  -- `app_core_submit_confirmation`
  unfoldable pub submit_confirmation : ℕ → Choice → Bus K → Code × Bus K
  submit_confirmation id choice b =
      if not b.core_ready
      then (fail enotsup, b)
      else if id == 0
      then (fail einval, b)
      else put_command
          (record zero_command { kind = confirm_command; request_id = id; choice = choice }) b

  -- `app_bus_core_ready`
  abbrev pub set_core_ready : Bus K → Bus K
  set_core_ready b = record b { core_ready = true }

  -- `app_core_command_get`
  unfoldable pub command_get : Bus K → Option Command × Bus K
  command_get b = let (m, rest) = queue_get b.commands in (m, record b { commands = rest })

  -- `app_local_result_submit`; `event` is what the publication of the event returns.
  unfoldable pub submit_local_result : LocalAction → ℕ → ℕ → Data → Code → Bus K → Code × Bus K
  submit_local_result action error number first event b =
      let (rc, p, h) = payload_create k result_pool first no_data b.held in
      let m : LocalResult = record {
        action = action;
        error = error;
        number = number;
        payload = p;
      } in
      let (put, queue, g) = queue_put b.local_results m p h in
      let sent = record b { local_results = queue; held = g } in
      if is_fail rc
      then (rc, record b { held = h })
      else if is_fail put
      then (put, sent)
      else (event, sent)

  unfoldable pub local_result_get : Bus K → Option LocalResult × Bus K
  local_result_get b =
      let (m, rest) = queue_get b.local_results in (m, record b { local_results = rest })

  -- `app_fido_result_submit`
  unfoldable pub submit_fido_result : ℕ → FidoStatus → Data → Data → Bus K → Code × Bus K
  submit_fido_result request_id status credential_id first b =
      let (rc, p, h) = payload_create k result_pool credential_id first b.held in
      let m : FidoResult = record {
        request_id = request_id;
        credential_id_len = credential_id.len;
        status = status;
        payload = p;
      } in
      let (put, queue, g) = queue_put b.fido_results m p h in
      if is_fail rc
      then (rc, record b { held = h })
      else (put, record b { fido_results = queue; held = g })

  unfoldable pub fido_result_get : Bus K → Option FidoResult × Bus K
  fido_result_get b =
      let (m, rest) = queue_get b.fido_results in (m, record b { fido_results = rest })
