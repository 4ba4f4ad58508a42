-- ===== src/Bluetooth/Insecure.antt =====
-- A link that does not reach security level 4: nothing goes out over it, and nothing gets in.
use oskey_firmware.Prelude.{
  ℕ, ◌<◌, ◌≡◌, ◌≢◌, refl, ◌∙◌, Bool, true, false, not, Option, none, some, List, ◌==◌, length, ltb,
  arith, if_both, if_cases, is_zero, Code,
}
use mathlib.Core.Path.{subst}
use oskey_firmware.Bluetooth.Transport.{
  Stack, Bluetooth, security_l4, is_active, conn_unref, get_active_conn, send_on, send_to,
  set_active_conn, clear_active_conn, connected, disconnected, start_advertising, security_changed,
  pairing_failed, nus_received, bt_send, conn_of,
}

-- Nothing more was notified, and nothing more submitted.
abbrev pub IsSilent : {W : Type 0} → Bluetooth W → Bluetooth W → Type 0
IsSilent b t = (t.notified ≡ b.notified) × (t.submitted ≡ b.submitted)

-- A send of the bytes has sent nothing, and has not succeeded but for no bytes.
abbrev pub IsRefused :
    {W : Type 0} → Option (List ℕ) → Bluetooth W → Option (Code × Bluetooth W) → Type 0
IsRefused bytes b none = ⊥
IsRefused none b (some (rc, t)) = IsSilent b t × (is_zero rc ≡ false)
IsRefused (some bytes) b (some (rc, t)) = IsSilent b t × (length bytes ≢ 0 → is_zero rc ≡ false)

module _ {W : Type 0} (stack : Stack W) where
  -- One call: of the host about a connection, advertising or security, the arrival of bytes, or a
  -- send, with fuel, that ends with a code.
  pub data Step (b : Bluetooth W) : Bluetooth W → Type 0 where
    connects : (c err : ℕ) → Step b (connected stack c err b)
    disconnects : (c : ℕ) → Step b (disconnected c b)
    advertises : Step b (start_advertising stack b)
    secures : (c : ℕ) (failed : Bool) → Step b (security_changed stack c failed b)
    fails_pairing : (c : ℕ) → Step b (pairing_failed stack c b)
    receives : (c : ℕ) (bytes : List ℕ) → Step b (nus_received stack c bytes b)
    sends :
        (fuel id : ℕ) (bytes : Option (List ℕ)) (rc : Code) (t : Bluetooth W)
        → bt_send stack fuel id bytes b ≡ some (rc, t)
        → Step b t

  pub data Reach (start : Bluetooth W) : Bluetooth W → Type 0 where
    origin : Reach start start
    after : {b t : Bluetooth W} → Reach start b → Step b t → Reach start t

  -- No connection is ever at level 4.
  abbrev pub IsInsecure : Type 0
  IsInsecure = (c : ℕ) (w : W) → stack.security c w < security_l4

  unref-IsSilent : (o : Option ℕ) (b t : Bluetooth W) → IsSilent b t → IsSilent b (conn_unref o t)
  unref-IsSilent none b t s = s
  unref-IsSilent (some c) b t s = s

  module _ (low : IsInsecure) where
    send_to-IsRefused :
        (fuel id : ℕ) (bytes : List ℕ) (o : Option ℕ) (b : Bluetooth W)
        → IsRefused (some bytes) b (send_to stack fuel bytes (conn_of o id b))
    unfolding send_on
    send_to-IsRefused fuel id bytes none b = ((refl, refl), λ n. refl)
    send_to-IsRefused fuel id bytes (some c) b =
        let l4 : ltb (stack.security c b.world) security_l4 ≡ true =
          ground (arith, low c b.world) in
        if_both
          (λ (r : Option ℕ × Bluetooth W). IsRefused (some bytes) b (send_to stack fuel bytes r))
          (b.session == id) (rw l4 ((refl, refl), λ n. refl)) ((refl, refl), λ n. refl)

    bt_send-IsRefused :
        (fuel id : ℕ) (bytes : Option (List ℕ)) (b : Bluetooth W)
        → IsRefused bytes b (bt_send stack fuel id bytes b)
    unfolding bt_send get_active_conn
    bt_send-IsRefused fuel id none b = ((refl, refl), refl)
    bt_send-IsRefused fuel id (some bytes) b =
        if_cases (IsRefused (some bytes) b) (length bytes == 0)
          (λ e. ((refl, refl), λ n. absurd (n (ground arith))))
          (λ e. send_to-IsRefused fuel id bytes b.active b)

    refused-IsSilent :
        (bytes : Option (List ℕ)) (rc : Code) (b t : Bluetooth W)
        → IsRefused bytes b (some (rc, t))
        → IsSilent b t
    refused-IsSilent none rc b t r = r.0
    refused-IsSilent (some bytes) rc b t r = r.0

    Step-IsSilent : {b t : Bluetooth W} → Step b t → IsSilent b t
    unfolding connected disconnected set_active_conn clear_active_conn start_advertising
        security_changed nus_received
    Step-IsSilent {b = b} (connects c err) =
        let s = unref-IsSilent b.active b _ (refl, refl) in
        let (rc, w) = stack.set_security c (set_active_conn c b).world in
        if_both (IsSilent b) (not (err == 0)) (refl, refl) (if_both (IsSilent b) (is_zero rc) s s)
    Step-IsSilent {b = b} (disconnects c) =
        if_both (IsSilent b) (is_active c b.active)
          (unref-IsSilent b.active b (record b { active = none; session = 0 }) (refl, refl))
          (refl, refl)
    Step-IsSilent advertises = (refl, refl)
    Step-IsSilent {b = b} (secures c failed) = if_both (IsSilent b) failed (refl, refl) (refl, refl)
    Step-IsSilent (fails_pairing c) = (refl, refl)
    Step-IsSilent {b = b} (receives c bytes) =
        let l4 : ltb (stack.security c b.world) security_l4 ≡ true =
          ground (arith, low c b.world) in
        rw l4 (refl, refl)
    Step-IsSilent {b = b} (sends fuel id bytes rc t e) =
        refused-IsSilent bytes rc b t
          (subst (IsRefused bytes b) e (bt_send-IsRefused fuel id bytes b))

  -- While no connection reaches security level 4, whatever connects, arrives and is sent, for any
  -- session and in any order: nothing is ever notified or submitted, and at the end of it a send,
  -- whatever the fuel, returns and sends nothing, with success for no bytes only.
  pub insecure-IsSilent :
      (fuel id : ℕ) (bytes : Option (List ℕ)) {start b : Bluetooth W}
      → IsInsecure
      → Reach start b
      → IsSilent start b × IsRefused bytes b (bt_send stack fuel id bytes b)
  insecure-IsSilent fuel id bytes {start} {b} low r =
      (silent r, bt_send-IsRefused low fuel id bytes b)
    where
      silent : {t : Bluetooth W} → Reach start t → IsSilent start t
      silent origin = (refl, refl)
      silent (after r s) =
          let (n, m) = silent r in let (p, q) = Step-IsSilent low s in (p ∙ n, q ∙ m)
