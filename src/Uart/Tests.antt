-- ===== src/Uart/Tests.antt =====
-- A line whose core queue is full once.
use oskey_firmware.Prelude.{ℕ, suc, zero, ◌≡◌, refl, true, false, [], ◌∷◌, value, fail, eagain}
use oskey_firmware.Uart.{Submit, rx_resume, rx_loop, rx_handler}
use oskey_firmware.Uart.Stream.{
  Line, arrive, interrupt, work, here, next, IsFaithful, Reach-IsFaithful,
}

-- The queue refuses as often as its state says.
abbrev reluctant : Submit ℕ
reluctant bytes zero = (value 0, zero)
reluctant bytes (suc n) = (fail eagain, n)

abbrev start : Line reluctant
start = record {
  uart = record { pending = []; receiving = true; scheduled = false; accepted = []; world = 1 };
  fifo = [];
  arrived = [];
}

start-IsFaithful : IsFaithful reluctant start
start-IsFaithful = record { steady = record { drained = λ h. refl }; whole = refl }

abbrev filled : Line reluctant
filled = record start { fifo = (1 ∷ 2 ∷ []) ∷ []; arrived = 1 ∷ 2 ∷ [] }

abbrev held_back : Line reluctant
held_back = record filled {
  uart = (rx_handler reluctant true filled.fifo filled.uart).0;
  fifo = (rx_handler reluctant true filled.fifo filled.uart).1;
}

held_back_scheduled : held_back.uart.scheduled ≡ true
unfolding rx_handler rx_loop
held_back_scheduled = refl

Reach-IsFaithful_example :
    IsFaithful reluctant (record held_back { uart = rx_resume reluctant held_back.uart })
Reach-IsFaithful_example = Reach-IsFaithful reluctant start-IsFaithful (
    next (next (next here (arrive (1 ∷ 2 ∷ []) start)) (interrupt true filled refl))
      (work held_back held_back_scheduled))
