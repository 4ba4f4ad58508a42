-- ===== src/Uart/Stream.antt =====
-- No byte is lost, repeated or moved between the UART's FIFO and the core's queue.
use oskey_firmware.Prelude.{
  ℕ, ◌≡◌, refl, sym, ◌∙◌, Bool, true, false, List, [], ◌∷◌, ◌++◌, append_assoc, append-nil, arith,
  is_zero, inl, inr, Bool-cases, length, ◌==◌,
}
use oskey_firmware.Uart.{Uart, Submit, rx_resume, rx_loop, rx_handler}

abbrev pub joined : List (List ℕ) → List ℕ
joined [] = []
joined (x ∷ xs) = x ++ joined xs

-- The bytes that left the FIFO, and those that the program has.
abbrev pub held : {W : Type 0} → Uart W → List ℕ
held u = u.accepted ++ u.pending

-- While the interrupt is enabled nothing is pending.
pub record IsSteady {W : Type 0} (u : Uart W) : Type 0 where
  pub drained : u.receiving ≡ true → u.pending ≡ []

module _ {W : Type 0} (submit : Submit W) where
  rx_loop-joined :
      (fifo : List (List ℕ)) (u : Uart W)
      → u.pending ≡ []
      → let (t, rest) = rx_loop submit fifo u in held t ++ joined rest ≡ held u ++ joined fifo
  unfolding rx_loop
  rx_loop-joined [] u e = refl
  rx_loop-joined (buf ∷ rest) u e =
      let (rc, w) = submit buf u.world in
      let taken = record u { accepted = u.accepted ++ buf; world = w } in
      elim (Bool-cases (is_zero rc)) [
        | inl good ↦ rw (good, rx_loop-joined rest taken e) (simp (e, append_assoc, append-nil))
        | inr bad ↦ rw bad (simp (e, append_assoc, append-nil))
      ]

  rx_loop-IsSteady :
      (fifo : List (List ℕ)) (u : Uart W) → u.pending ≡ [] → IsSteady (rx_loop submit fifo u).0
  unfolding rx_loop
  rx_loop-IsSteady [] u e = ground arith
  rx_loop-IsSteady (buf ∷ rest) u e =
      let (rc, w) = submit buf u.world in
      elim (Bool-cases (is_zero rc)) [
        | inl good ↦
            rw good (rx_loop-IsSteady rest (record u { accepted = u.accepted ++ buf; world = w }) e)
        | inr bad ↦ rw bad (record { drained = λ h. cc })
      ]

  rx_resume-held : (u : Uart W) → held (rx_resume submit u) ≡ held u
  unfolding rx_resume
  rx_resume-held u =
      let (rc, w) = submit u.pending u.world in
      elim (Bool-cases (length u.pending == 0)) [
        | inl clear ↦ rw clear refl
        | inr waiting ↦ elim (Bool-cases (is_zero rc)) [
          | inl good ↦ rw (waiting, good) (simp append-nil)
          | inr bad ↦ rw (waiting, bad) refl
        ]
      ]

  rx_resume-IsSteady : (u : Uart W) → IsSteady u → IsSteady (rx_resume submit u)
  unfolding rx_resume
  rx_resume-IsSteady u s = record { drained = λ h. ground arith }

  -- The line: the driver, what is in the FIFO in the pieces that it will be read by, and every byte
  -- that has arrived.
  pub record Line : Type 0 where
    pub uart : Uart W
    pub fifo : List (List ℕ)
    pub arrived : List ℕ

  -- A piece arrives; the interrupt, if enabled; the work item, if scheduled.
  pub data Step : Line → Line → Type 0 where
    arrive :
        (piece : List ℕ) (l : Line)
        → Step l (record l { fifo = l.fifo ++ piece ∷ []; arrived = l.arrived ++ piece })
    interrupt :
        (ready : Bool) (l : Line)
        → l.uart.receiving ≡ true
        → Step l (record l {
          uart = (rx_handler submit ready l.fifo l.uart).0;
          fifo = (rx_handler submit ready l.fifo l.uart).1;
        })
    work :
        (l : Line) → l.uart.scheduled ≡ true → Step l (record l { uart = rx_resume submit l.uart })

  pub data Reach (start : Line) : Line → Type 0 where
    here : Reach start start
    next : {l m : Line} → Reach start l → Step l m → Reach start m

  pub record IsFaithful (l : Line) : Type 0 where
    pub steady : IsSteady l.uart
    pub whole : l.arrived ≡ held l.uart ++ joined l.fifo

  joined-append : (xs : List (List ℕ)) (x : List ℕ) → joined (xs ++ x ∷ []) ≡ joined xs ++ x
  joined-append [] x = append-nil x
  joined-append (y ∷ ys) x = simp (joined-append ys x, append_assoc)

  rx_handler-IsSteady :
      (ready : Bool) (fifo : List (List ℕ)) (u : Uart W)
      → IsSteady u
      → u.receiving ≡ true
      → IsSteady (rx_handler submit ready fifo u).0
  unfolding rx_handler
  rx_handler-IsSteady true fifo u s h = rx_loop-IsSteady fifo u (s.drained h)
  rx_handler-IsSteady false fifo u s h = s

  rx_handler-joined :
      (ready : Bool) (fifo : List (List ℕ)) (u : Uart W)
      → IsSteady u
      → u.receiving ≡ true
      → let (t, rest) = rx_handler submit ready fifo u in
        held t ++ joined rest ≡ held u ++ joined fifo
  unfolding rx_handler
  rx_handler-joined true fifo u s h = rx_loop-joined fifo u (s.drained h)
  rx_handler-joined false fifo u s h = refl

  Step-IsFaithful : {l m : Line} → Step l m → IsFaithful l → IsFaithful m
  Step-IsFaithful (arrive piece l) f = record {
    steady = f.steady;
    whole =
        rw (f.whole, joined-append l.fifo piece) (append_assoc (held l.uart) (joined l.fifo) piece);
  }
  Step-IsFaithful (interrupt ready l h) f = record {
    steady = rx_handler-IsSteady ready l.fifo l.uart f.steady h;
    whole = f.whole ∙ sym (rx_handler-joined ready l.fifo l.uart f.steady h);
  }
  Step-IsFaithful (work l h) f = record {
    steady = rx_resume-IsSteady l.uart f.steady;
    whole = rw (rx_resume-held l.uart) f.whole;
  }

  -- In any interleaving of arrivals, interrupts and retries, whatever the core's queue answers, the
  -- bytes that arrived are those that the queue accepted, then those pending, then those in the
  -- FIFO: none is lost, repeated or moved.
  pub Reach-IsFaithful : {start l : Line} → IsFaithful start → Reach start l → IsFaithful l
  Reach-IsFaithful f here = f
  Reach-IsFaithful f (next r st) = Step-IsFaithful st (Reach-IsFaithful f r)
