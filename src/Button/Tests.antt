-- ===== src/Button/Tests.antt =====
-- A confirmation that is approved by a press.
use oskey_firmware.Prelude.{◌≡◌, refl, true, false, [], ◌∷◌, All}
use oskey_firmware.Core.Effects.{required}
use oskey_firmware.Button.{confirmation_changed, submit_pressed, button_pressed}
use oskey_firmware.Button.Approvals.{
  Run, change, press, work, Reach, here, next, IsAnnounced, IsSafe, approves_announced,
}

abbrev start : Run
start = record {
  button = record { ready = true; active = 0; pressed = 0; queued = false; submitted = [] };
  announced = [];
}

start-IsSafe : IsSafe start
start-IsSafe = record {
  queued_is = refl;
  active_announced = λ h. absurd (h refl);
  pressed_announced = λ h. absurd (h refl);
  submitted_announced = tt;
}

abbrev asked : Run
asked = record { button = confirmation_changed required 7 start.button; announced = 7 ∷ [] }

abbrev pressed : Run
pressed = record asked { button = button_pressed asked.button }

pressed_queued : pressed.button.queued ≡ true
unfolding button_pressed confirmation_changed
pressed_queued = refl

approved-Reach : Reach start (record pressed { button = submit_pressed pressed.button })
approved-Reach =
    next (next (next here (change required 7 start)) (press asked)) (work pressed pressed_queued)

approves_announced_example : All (IsAnnounced (7 ∷ [])) (submit_pressed pressed.button).submitted
approves_announced_example = approves_announced start-IsSafe approved-Reach
