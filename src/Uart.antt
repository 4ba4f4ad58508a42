-- ===== src/Uart.antt =====
-- uart.c: bytes from the console to the core, with back pressure.
pub mod Stream
mod Tests
use oskey_firmware.Prelude.{
  ℕ, Bool, true, false, not, ◌&&◌, List, [], ◌∷◌, ◌++◌, ◌==◌, if◌then◌else◌, length, ltb, Code,
  value, fail, einval, is_zero, other,
}

-- `pending`, whether the receive interrupt is enabled and the work item scheduled, the state behind
-- the core's queue, and a ghost: the bytes that the queue has accepted.
pub record Uart (W : Type 0) : Type 0 where
  pub pending : List ℕ
  pub receiving : Bool
  pub scheduled : Bool
  pub accepted : List ℕ
  pub world : W

-- `app_core_submit_protocol` on the UART route without waiting, over the state `W`.
abbrev pub Submit : Type 0 → Type 0
Submit W = List ℕ → W → Code × W

module _ {W : Type 0} (submit : Submit W) where
  -- `app_uart_rx_resume`
  unfoldable pub rx_resume : Uart W → Uart W
  rx_resume u =
      let (rc, w) = submit u.pending u.world in
      if length u.pending == 0
      then record u { receiving = true; scheduled = false }
      else if is_zero rc
      then record u {
        pending = [];
        receiving = true;
        scheduled = false;
        accepted = u.accepted ++ u.pending;
        world = w;
      }
      else record u { scheduled = true; world = w }

  -- The loop of `app_uart_rx_handler`, over what `uart_fifo_read` returns until it is empty, with what
  -- is then left in the FIFO.
  unfoldable pub rx_loop : List (List ℕ) → Uart W → Uart W × List (List ℕ)
  rx_loop [] u = (u, [])
  rx_loop (buf ∷ rest) u =
      let (rc, w) = submit buf u.world in
      let later = rx_loop rest (record u { accepted = u.accepted ++ buf; world = w }) in
      if is_zero rc
      then later
      else (record u { pending = buf; receiving = false; scheduled = true; world = w }, rest)

  -- `app_uart_rx_handler`; `rx_ready` is `uart_irq_rx_ready`.
  unfoldable pub rx_handler : Bool → List (List ℕ) → Uart W → Uart W × List (List ℕ)
  rx_handler rx_ready fifo u =
      let handled = rx_loop fifo u in if rx_ready then handled else (u, fifo)

-- `app_uart_send`: the result, and the bytes polled out.
unfoldable pub send : Bool → List ℕ → Code × List ℕ
send has_data bytes =
    if not has_data && ltb 0 (length bytes) then (fail einval, []) else (value 0, bytes)

-- `app_uart_irq_register`: whether the device is ready, and what the driver returns. The plain -1 is
-- `other 1`.
unfoldable pub irq_register : {W : Type 0} → Bool → Code → Uart W → Code × Uart W
irq_register ready rc u =
    if not ready
    then (fail (other 1), u)
    else if not (is_zero rc)
    then (rc, u)
    else (value 0, record u { scheduled = true })
