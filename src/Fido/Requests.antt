-- ===== src/Fido/Requests.antt =====
-- How a FIDO2 request ends.
use oskey_firmware.Prelude.{
  ℕ, ◌≡◌, ◌≢◌, ◌⊎◌, inl, inr, refl, Bool, true, none, some, Option, List, [], ◌∷◌, arith, ◌==◌,
  if◌then◌else◌, Bool-cases, ==_iff, Code, value, fail, ebusy, eio, etimedout, Errno, is_fail,
  false,
}
use oskey_firmware.Bus.Queues.{FidoRequest, FidoResult, fido_success}
use oskey_firmware.Fido.Request.{
  Sizes, Fido, Arrivals, Response, no_response, response_of, code_of_status, is_eagain,
  request_id_next, result_valid, answer, give_up, wait_result, request,
}

-- The first result that carries the number.
abbrev pub answered : ℕ → List FidoResult → Option FidoResult
answered id [] = none
answered id (r ∷ rest) = if r.request_id == id then some r else answered id rest

pub request_id-ne : (s : Fido) → (request_id_next s).0 ≢ 0
unfolding request_id_next
request_id-ne s = ground arith

module _ (sizes : Sizes) where
  wait-active :
      (kind : FidoRequest) (wanted : Bool) (id : ℕ) (results : List FidoResult) (stop : Errno)
      (s : Fido)
      → (wait_result sizes kind wanted id results stop s).2.active ≡ 0
  unfolding wait_result answer give_up
  wait-active kind wanted id [] stop s = ground arith
  wait-active kind wanted id (r ∷ rest) stop s =
      ground (
        arith,
        wait-active kind wanted id rest stop (record s { released = r.payload ∷ s.released }),
      )

  -- How a wait ends, by the first result with the number, and by the end of the queue if there is
  -- none: with that result's code and response, or with a failure and none.
  abbrev pub ended_code : Bool → Option FidoResult → Errno → Code
  ended_code wanted none stop = if is_eagain stop then fail etimedout else fail stop
  ended_code wanted (some r) stop =
      if result_valid sizes wanted r then code_of_status r.status else fail eio

  abbrev pub ended_response : Bool → Option FidoResult → Response
  ended_response wanted none = no_response
  ended_response wanted (some r) = response_of sizes wanted r

  -- Only a success of valid lengths ends a wait with success.
  abbrev pub IsSuccess : Bool → Option FidoResult → Type 0
  IsSuccess wanted none = ⊥
  IsSuccess wanted (some r) = (r.status ≡ fido_success) × (result_valid sizes wanted r ≡ true)

  pub record IsAnswer (wanted : Bool) (first : Option FidoResult) (stop : Errno)
      (r : Code × Response × Fido) : Type 0 where
    pub code : r.0 ≡ ended_code wanted first stop
    pub response : r.1 ≡ ended_response wanted first
    pub success : r.0 ≡ value 0 → IsSuccess wanted first

  answer-IsAnswer :
      (wanted : Bool) (r : FidoResult) (stop : Errno) (s : Fido)
      → IsAnswer wanted (some r) stop (answer sizes wanted r s)
  unfolding answer
  answer-IsAnswer wanted r stop s = record {
    code = refl;
    response = refl;
    success = λ e. ground arith;
  }

  give_up-IsAnswer :
      (kind : FidoRequest) (wanted : Bool) (id : ℕ) (stop : Errno) (s : Fido)
      → IsAnswer wanted none stop (give_up sizes kind id stop s)
  unfolding give_up
  give_up-IsAnswer kind wanted id stop s = record {
    code = ground arith;
    response = ground arith;
    success = λ e. ground arith;
  }

  wait-IsAnswer :
      (kind : FidoRequest) (wanted : Bool) (id : ℕ) (results : List FidoResult) (stop : Errno)
      (s : Fido)
      → IsAnswer wanted (answered id results) stop (wait_result sizes kind wanted id results stop s)
  unfolding wait_result
  wait-IsAnswer kind wanted id [] stop s = give_up-IsAnswer kind wanted id stop s
  wait-IsAnswer kind wanted id (r ∷ rest) stop s = elim (Bool-cases (r.request_id == id)) [
    | inl e ↦ rw e (answer-IsAnswer wanted r stop s)
    | inr e ↦
        rw e
          (wait-IsAnswer kind wanted id rest stop (record s { released = r.payload ∷ s.released }))
  ]

  -- How a request that may go out ends.
  abbrev pub IsEnded : FidoRequest → Bool → Arrivals → Fido → Type 0
  IsEnded kind wanted a s =
      let r = request sizes kind wanted a s in
      (r.2.active ≡ 0)
      × ((is_fail a.submitted ≡ true) × (r.0 ≡ a.submitted) × (r.1 ≡ no_response)
          ⊎ (is_fail a.submitted ≡ false)
            × IsAnswer wanted (answered (request_id_next s).0 a.results) a.stop r)

  IsEnded-free :
      (kind : FidoRequest) (wanted : Bool) (a : Arrivals) (s : Fido)
      → (s.active == 0) ≡ true
      → IsEnded kind wanted a s
  unfolding request
  IsEnded-free kind wanted a s e =
      let (id, t) = request_id_next s in
      elim (Bool-cases (is_fail a.submitted)) [
        | inl bad ↦ rw (e, bad) (refl, inl (refl, refl, refl))
        | inr good ↦
            rw (e, good)
              (
                wait-active kind wanted id a.results a.stop (record t { active = id }),
                inr (
                  refl,
                  wait-IsAnswer kind wanted id a.results a.stop (record t { active = id }),
                ),
              )
      ]

  request_busy :
      (kind : FidoRequest) (wanted : Bool) (a : Arrivals) (s : Fido)
      → s.active ≢ 0
      → let r = request sizes kind wanted a s in (r.0 ≡ fail ebusy) × (r.2.active ≡ s.active)
  unfolding request request_id_next
  request_busy kind wanted a s n = ground arith

  -- A request fails with -EBUSY while another is active, which stays so. Any other one leaves none
  -- active, however it ends. If its submission fails, it fails with that code and no response. Else
  -- it ends by the first result that carries its number, whatever results of other numbers come
  -- before: with that result's code and response, and with success only if the result is a success
  -- of valid lengths. If none carries it, it fails with the code that ended the wait, or with
  -- -ETIMEDOUT for -EAGAIN, and without a response.
  pub request_outcome :
      (kind : FidoRequest) (wanted : Bool) (a : Arrivals) (s : Fido)
      → let r = request sizes kind wanted a s in
        ((s.active ≢ 0) × (r.0 ≡ fail ebusy) × (r.2.active ≡ s.active))
        ⊎ ((s.active ≡ 0) × IsEnded kind wanted a s)
  request_outcome kind wanted a s = elim (Bool-cases (s.active == 0)) [
    | inl z ↦ inr ((==_iff s.active 0).0 z, IsEnded-free kind wanted a s z)
    | inr nz ↦
        let n : s.active ≢ 0 = ground arith in
        let (b, c) = request_busy kind wanted a s n in inl (n, b, c)
  ]
