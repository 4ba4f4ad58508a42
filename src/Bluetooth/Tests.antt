-- ===== src/Bluetooth/Tests.antt =====
-- The connection's theorems at concrete calls.
use oskey_firmware.Prelude.{
  ℕ, ◌≡◌, refl, true, some, [], arith, value, fail, enotconn, codes, ◌==◌, if◌then◌else◌,
}
use oskey_firmware.Bluetooth.Transport.{
  Stack, Bluetooth, connected, disconnected, bt_send, nus_received,
}
use oskey_firmware.Bluetooth.Stale.{stale_refused}
use oskey_firmware.Bluetooth.Sending.{IsOpen, IsSent, bt_send-IsSent}
use oskey_firmware.Bluetooth.Insecure.{
  IsSilent, IsRefused, connects, receives, origin, after, insecure-IsSilent,
}
use oskey_firmware.Bluetooth.Sessions.{IsConsistent, here, accept, lose, Reach-IsConsistent}

-- A host whose state is the security level.
abbrev host : Stack ℕ
host = record {
  security = λ c w. w;
  mtu = λ c w. 8;
  notify = λ c chunk w. (value 0, w);
  set_security = λ c w. (value 0, 4);
  disconnect = λ c w. 0;
  adv_start = λ identity w. (value 0, w);
  register_nus = λ w. (value 0, w);
  enable = λ w. (value 0, w);
  register_auth = λ w. (value 0, w);
  register_auth_info = λ w. (value 0, w);
  submit = λ id bytes w. (value 0, w);
  load_privacy = λ w. some true;
  save_privacy = λ enabled w. (value 0, w);
}

-- Connection 7 in the session 3.
abbrev joined : Bluetooth ℕ
joined = record {
  active = some 7;
  session = 3;
  sequence = 3;
  privacy = true;
  references = λ d. if d == 7 then 1 else 0;
  published = [];
  submitted = [];
  notified = [];
  world = 4;
}

joined-IsConsistent : IsConsistent joined
joined-IsConsistent = record {
  counted = λ d. refl;
  numbered = refl;
  bounded = omega arith;
  positive = λ h. omega arith;
}

joined-IsOpen : IsOpen host 7 (codes "eight by") joined 3
joined-IsOpen = record {
  connection = refl;
  in_session = refl;
  secure = omega arith;
  roomy = omega arith;
  sized = omega arith;
}

bt_send-IsSent_example :
    IsSent 7 5 (codes "eight by") joined (bt_send host 8 3 (some (codes "eight by")) joined)
bt_send-IsSent_example =
    bt_send-IsSent host 7 (codes "eight by") joined 8 3 (omega arith) joined-IsOpen

-- A host on which nothing is ever secure.
abbrev open_host : Stack ℕ
open_host = record host { security = λ c w. 1 }

insecure-IsSilent_example :
    let b = nus_received open_host 9 (codes "in") (connected open_host 9 0 joined) in
    IsSilent joined b
    × IsRefused (some (codes "out")) b (bt_send open_host 3 4 (some (codes "out")) b)
insecure-IsSilent_example =
    insecure-IsSilent open_host 3 4 (some (codes "out")) (λ c w. omega arith)
      (after (after origin (connects 9 0)) (receives 9 (codes "in")))

Reach-IsConsistent_example : IsConsistent (connected host 9 0 (disconnected 7 joined))
Reach-IsConsistent_example = Reach-IsConsistent host joined-IsConsistent (accept 9 (lose 7 here))

stale_refused_example :
    let b = connected host 9 0 (disconnected 7 joined) in
    bt_send host 2 3 (some (codes "ab")) b ≡ some (fail enotconn, b)
stale_refused_example =
    stale_refused host 2 (codes "ab") joined-IsConsistent (omega arith) (accept 9 (lose 7 here))
      (omega arith) (omega arith) (omega arith)
