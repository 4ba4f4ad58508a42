-- ===== src/Button/Approvals.antt =====
-- What the button can approve, in any interleaving of confirmations, presses and the work queue.
use oskey_firmware.Prelude.{
  ℕ, ◌≡◌, ◌≢◌, Bool, true, false, not, ◌||◌, List, [], ◌∷◌, arith, ◌==◌, All,
}
use oskey_firmware.Core.Effects.{Phase, idle_phase, required, completed}
use oskey_firmware.Button.{Button, confirmation_changed, submit_pressed, button_pressed}

abbrev pub contains : ℕ → List ℕ → Bool
contains n [] = false
contains n (x ∷ xs) = n == x || contains n xs

-- The button, with the numbers whose confirmation was announced as required.
pub record Run : Type 0 where
  pub button : Button
  pub announced : List ℕ

abbrev pub announce : Phase → ℕ → List ℕ → List ℕ
announce required id ids = id ∷ ids
announce _ id ids = ids

-- One thing that happens: a confirmation changes, the button is pressed, or the work item runs.
pub data Step : Run → Run → Type 0 where
  change :
      (phase : Phase) (id : ℕ) (r : Run)
      → Step r (record {
        button = confirmation_changed phase id r.button;
        announced = announce phase id r.announced;
      })
  press : (r : Run) → Step r (record r { button = button_pressed r.button })
  work : (r : Run) → r.button.queued ≡ true → Step r (record r { button = submit_pressed r.button })

pub data Reach (start : Run) : Run → Type 0 where
  here : Reach start start
  next : {r t : Run} → Reach start r → Step r t → Reach start t

-- A number that may be approved.
abbrev pub IsAnnounced : List ℕ → ℕ → Type 0
IsAnnounced ids n = (n ≢ 0) × (contains n ids ≡ true)

pub record IsSafe (r : Run) : Type 0 where
  pub queued_is : r.button.queued ≡ not (r.button.pressed == 0)
  pub active_announced : r.button.active ≢ 0 → contains r.button.active r.announced ≡ true
  pub pressed_announced : r.button.pressed ≢ 0 → contains r.button.pressed r.announced ≡ true
  pub submitted_announced : All (IsAnnounced r.announced) r.button.submitted

contains-cons : (n m : ℕ) (ids : List ℕ) → contains n ids ≡ true → contains n (m ∷ ids) ≡ true
contains-cons n m ids h = ground arith

IsAnnounced-cons :
    (m : ℕ) (ids ns : List ℕ) → All (IsAnnounced ids) ns → All (IsAnnounced (m ∷ ids)) ns
IsAnnounced-cons m ids [] h = tt
IsAnnounced-cons m ids (n ∷ ns) h =
    ((h.0.0, contains-cons n m ids h.0.1), IsAnnounced-cons m ids ns h.1)

Step-IsSafe : {r t : Run} → Step r t → IsSafe r → IsSafe t
unfolding confirmation_changed button_pressed submit_pressed
Step-IsSafe (change required id r) s = record {
  queued_is = s.queued_is;
  active_announced = λ h. ground arith;
  pressed_announced = λ h. contains-cons r.button.pressed id r.announced (s.pressed_announced h);
  submitted_announced = IsAnnounced-cons id r.announced r.button.submitted s.submitted_announced;
}
Step-IsSafe (change idle_phase id r) s = ground arith
Step-IsSafe (change completed id r) s = ground arith
Step-IsSafe (press r) s = ground arith
Step-IsSafe (work r q) s = ground arith

Reach-IsSafe : {start r : Run} → IsSafe start → Reach start r → IsSafe r
Reach-IsSafe s here = s
Reach-IsSafe s (next r st) = Step-IsSafe st (Reach-IsSafe s r)

-- Whatever happens in whatever order after the start: each number that the button submits for approval
-- is that of a confirmation announced as required, and never zero.
pub approves_announced :
    {start r : Run}
    → IsSafe start
    → Reach start r
    → All (IsAnnounced r.announced) r.button.submitted
approves_announced s r = (Reach-IsSafe s r).submitted_announced
