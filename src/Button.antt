-- ===== src/Button.antt =====
-- gpio.c: the button that approves a confirmation.
pub mod Approvals
mod Tests
use oskey_firmware.Prelude.{
  ℕ, ◌≡◌, ◌≢◌, ◌⊎◌, inl, inr, refl, Bool, true, false, not, ◌&&◌, List, [], ◌∷◌, arith, ◌==◌,
  if◌then◌else◌, Bool-cases, Code, value, fail, is_zero, All, Errno, other,
}
use oskey_firmware.Core.Effects.{Phase, idle_phase, required, completed}

-- The static variables of gpio.c, whether its work item is queued, and a ghost: the numbers that were
-- submitted for approval, newest first.
pub record Button : Type 0 where
  pub ready : Bool
  pub active : ℕ
  pub pressed : ℕ
  pub queued : Bool
  pub submitted : List ℕ

-- `confirmation_changed`
unfoldable pub confirmation_changed : Phase → ℕ → Button → Button
confirmation_changed required id b = record b { active = id }
confirmation_changed idle_phase id b = record b { active = 0 }
confirmation_changed completed id b = if b.active == id then record b { active = 0 } else b

-- `submit_confirmation`, which the queued work item runs.
unfoldable pub submit_pressed : Button → Button
submit_pressed b = record b { pressed = 0; queued = false; submitted = b.pressed ∷ b.submitted }

-- `button_pressed`
unfoldable pub button_pressed : Button → Button
button_pressed b =
    if not (b.active == 0) && b.pressed == 0
    then record b { pressed = b.active; queued = true }
    else b

-- `user_button_init`: whether the pin is ready, and what the three calls of the driver return. The
-- plain -1 is `other 1`.
unfoldable pub button_init : Bool → Code → Code → Code → Button → Code × Button
button_init pin configured added interrupt b =
    let off = record b { ready = false; queued = false } in
    if not pin
    then (fail (other 1), off)
    else if not (is_zero configured)
    then (configured, off)
    else if not (is_zero added)
    then (added, off)
    else if not (is_zero interrupt)
    then (interrupt, off)
    else (value 0, record off { ready = true })
