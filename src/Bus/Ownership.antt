-- ===== src/Bus/Ownership.antt =====
-- Who owns the payloads of bus.c: each that was allocated is in a queue or was given back.
use oskey_firmware.Prelude.{
  ℕ, suc, ◌+◌, ◌≡◌, true, Option, none, some, List, [], ◌∷◌, ◌++◌, arith, length, Code, is_fail,
}
use oskey_firmware.Bus.Payload.{
  Fragments, Kernel, Pool, command_pool, result_pool, Data, no_data, Held, release, append_all,
  fill, payload_create,
}
use oskey_firmware.Bus.Queues.{
  Command, LocalResult, FidoResult, Bus, queue_put, put_command, submit_with, submit_protocol,
  submit_local, submit_fido, submit_confirmation, submit_local_result, submit_fido_result, Route,
  LocalRequest, FidoRequest, Choice, LocalAction, FidoStatus, zero_command, confirm_command,
}

abbrev pub held_by : Option Fragments → ℕ
held_by none = 0
held_by (some p) = 1

abbrev pub in_commands : List Command → ℕ
in_commands [] = 0
in_commands (m ∷ rest) = held_by m.payload + in_commands rest

abbrev pub in_local_results : List LocalResult → ℕ
in_local_results [] = 0
in_local_results (m ∷ rest) = held_by m.payload + in_local_results rest

abbrev pub in_fido_results : List FidoResult → ℕ
in_fido_results [] = 0
in_fido_results (m ∷ rest) = held_by m.payload + in_fido_results rest

-- The payloads in the three queues.
abbrev pub in_queues : {K : Type 0} → Bus K → ℕ
in_queues b =
    in_commands b.commands + in_local_results b.local_results + in_fido_results b.fido_results

-- Every payload allocated was given back, is in a queue, or is one of `n` in other hands.
abbrev pub IsBalanced : {K : Type 0} → ℕ → Bus K → Type 0
IsBalanced n b = b.held.allocated ≡ length b.held.released + in_queues b + n

in_commands-append :
    (q : List Command) (m : Command) → in_commands (q ++ m ∷ []) ≡ in_commands q + held_by m.payload
in_commands-append [] m = omega arith
in_commands-append (x ∷ q) m = omega (arith, in_commands-append q m)

in_local_results-append :
    (q : List LocalResult) (m : LocalResult)
    → in_local_results (q ++ m ∷ []) ≡ in_local_results q + held_by m.payload
in_local_results-append [] m = omega arith
in_local_results-append (x ∷ q) m = omega (arith, in_local_results-append q m)

in_fido_results-append :
    (q : List FidoResult) (m : FidoResult)
    → in_fido_results (q ++ m ∷ []) ≡ in_fido_results q + held_by m.payload
in_fido_results-append [] m = omega arith
in_fido_results-append (x ∷ q) m = omega (arith, in_fido_results-append q m)

module _ {K : Type 0} (k : Kernel K) where
  release-counts :
      (p : Option Fragments) (s : Held K)
      → ((release k p s).allocated ≡ s.allocated)
        × (length (release k p s).released ≡ length s.released + held_by p)
  unfolding release
  release-counts none s = ground arith
  release-counts (some p) s = ground arith

  append_all-counts :
      (pool : Pool) (d : Data) (p : Fragments) (s : Held K)
      → ((append_all k pool d p s).2.allocated ≡ s.allocated)
        × ((append_all k pool d p s).2.released ≡ s.released)
  unfolding append_all
  append_all-counts pool d p s = ground arith

  fill-counts :
      (pool : Pool) (first auxiliary : Data) (s : Held K)
      → let r = fill k pool first auxiliary s in
        (r.2.allocated ≡ s.allocated)
        × (length r.2.released + held_by r.1 ≡ suc (length s.released))
  unfolding fill release
  fill-counts pool first auxiliary s =
      let (ok, p, t) = append_all k pool first [] s in
      ground (arith, append_all-counts pool first [] s, append_all-counts pool auxiliary p t)

  create-counts :
      (pool : Pool) (first auxiliary : Data) (s : Held K)
      → let r = payload_create k pool first auxiliary s in
        r.2.allocated + length s.released ≡ s.allocated + length r.2.released + held_by r.1
  unfolding payload_create
  create-counts pool first auxiliary s =
      let w = (k.alloc pool s.kernel).1 in
      ground (
        arith,
        fill-counts pool first auxiliary (record s { kernel = w; allocated = suc s.allocated }),
      )

  create-fails :
      (pool : Pool) (first auxiliary : Data) (s : Held K)
      → let r = payload_create k pool first auxiliary s in is_fail r.0 ≡ true → held_by r.1 ≡ 0
  unfolding payload_create fill
  create-fails pool first auxiliary s = ground arith

  put_command-IsBalanced :
      (m : Command) (b : Bus K)
      → IsBalanced (held_by m.payload) b
      → IsBalanced 0 (put_command k m b).1
  unfolding put_command queue_put
  put_command-IsBalanced m b h =
      let w = (k.has_room b.held.kernel).1 in
      ground (
        arith,
        in_commands-append b.commands m,
        release-counts m.payload (record b.held { kernel = w }),
      )

  -- However a command with a payload is submitted, whether memory or the queue runs out or not, no
  -- payload is lost: what was allocated is in a queue or was released.
  submit_with-IsBalanced :
      (m : Command) (first auxiliary : Data) (b : Bus K)
      → IsBalanced 0 b
      → IsBalanced 0 (submit_with k m first auxiliary b).1
  unfolding submit_with
  submit_with-IsBalanced m first auxiliary b h =
      let (rc, p, s) = payload_create k command_pool first auxiliary b.held in
      ground (
        arith,
        create-counts command_pool first auxiliary b.held,
        create-fails command_pool first auxiliary b.held,
        put_command-IsBalanced (record m { payload = p }) (record b { held = s }),
      )

  queue_put_local :
      (m : LocalResult) (b : Bus K)
      → IsBalanced (held_by m.payload) b
      → let r = queue_put k b.local_results m m.payload b.held in
        IsBalanced 0 (record b { local_results = r.1; held = r.2 })
  unfolding queue_put
  queue_put_local m b h =
      let w = (k.has_room b.held.kernel).1 in
      ground (
        arith,
        in_local_results-append b.local_results m,
        release-counts m.payload (record b.held { kernel = w }),
      )

  queue_put_fido :
      (m : FidoResult) (b : Bus K)
      → IsBalanced (held_by m.payload) b
      → let r = queue_put k b.fido_results m m.payload b.held in
        IsBalanced 0 (record b { fido_results = r.1; held = r.2 })
  unfolding queue_put
  queue_put_fido m b h =
      let w = (k.has_room b.held.kernel).1 in
      ground (
        arith,
        in_fido_results-append b.fido_results m,
        release-counts m.payload (record b.held { kernel = w }),
      )

  local_result-IsBalanced :
      (action : LocalAction) (error number : ℕ) (first : Data) (event : Code) (b : Bus K)
      → IsBalanced 0 b
      → IsBalanced 0 (submit_local_result k action error number first event b).1
  unfolding submit_local_result
  local_result-IsBalanced action error number first event b h =
      let (rc, p, s) = payload_create k result_pool first no_data b.held in
      ground (
        arith,
        create-counts result_pool first no_data b.held,
        create-fails result_pool first no_data b.held,
        queue_put_local (record { action = action; error = error; number = number; payload = p })
            (record b { held = s }),
      )

  fido_result-IsBalanced :
      (request_id : ℕ) (status : FidoStatus) (credential_id first : Data) (b : Bus K)
      → IsBalanced 0 b
      → IsBalanced 0 (submit_fido_result k request_id status credential_id first b).1
  unfolding submit_fido_result
  fido_result-IsBalanced request_id status credential_id first b h =
      let (rc, p, s) = payload_create k result_pool credential_id first b.held in
      ground (
        arith,
        create-counts result_pool credential_id first b.held,
        create-fails result_pool credential_id first b.held,
        queue_put_fido
            (record {
              request_id = request_id;
              credential_id_len = credential_id.len;
              status = status;
              payload = p;
            })
            (record b { held = s }),
      )

  confirmation-IsBalanced :
      (id : ℕ) (choice : Choice) (b : Bus K)
      → IsBalanced 0 b
      → IsBalanced 0 (submit_confirmation k id choice b).1
  unfolding submit_confirmation
  confirmation-IsBalanced id choice b h =
      let m = record zero_command { kind = confirm_command; request_id = id; choice = choice } in
      ground (arith, put_command-IsBalanced m b)

  -- No submission loses a payload, whether memory or the queue runs out or not: if every payload
  -- allocated was in a queue or released, then it is so after a command of any kind or a result.
  pub submits-IsBalanced :
      (route : Route) (kind : LocalRequest) (fido : FidoRequest) (choice : Choice)
      (action : LocalAction) (status : FidoStatus) (id number error : ℕ) (first auxiliary : Data)
      (event : Code) (b : Bus K)
      → IsBalanced 0 b
      → IsBalanced 0 (submit_protocol k route first b).1
        × IsBalanced 0 (submit_local k kind number first auxiliary b).1
        × IsBalanced 0 (submit_fido k fido id number first auxiliary b).1
        × IsBalanced 0 (submit_confirmation k id choice b).1
        × IsBalanced 0 (submit_local_result k action error number first event b).1
        × IsBalanced 0 (submit_fido_result k id status first auxiliary b).1
  unfolding submit_protocol submit_local submit_fido
  submits-IsBalanced route kind fido choice action status id number error first auxiliary event b
        h =
      (
        submit_with-IsBalanced _ first no_data b h,
        submit_with-IsBalanced _ first auxiliary b h,
        submit_with-IsBalanced _ first auxiliary b h,
        confirmation-IsBalanced id choice b h,
        local_result-IsBalanced action error number first event b h,
        fido_result-IsBalanced id status first auxiliary b h,
      )
