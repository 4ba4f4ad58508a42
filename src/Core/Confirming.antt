-- ===== src/Core/Confirming.antt =====
-- The confirmation that core.c shows: it is the one the core asked for, or there is none.
use oskey_firmware.Prelude.{
  ℕ, ◌≡◌, ◌⊎◌, inl, inr, refl, Bool, true, false, Option, none, some, arith, is_fail, is_some, Code,
  not, ◌&&◌, ◌==◌,
}
use oskey_firmware.Core.Effects.{
  Effect, confirmation_required, required, cancelled, Confirmation, Ports, Core, publish_state,
  confirmation_store, confirmation_clear, confirmation_get, route_required, route_effect,
  drain_step,
}

module _ {W C : Type 0} (ports : Ports W C) where
  -- Nobody can read the confirmation of a number after it is cleared.
  pub get-clear :
      (id : ℕ) (b : Bool) (s : Core W C)
      → confirmation_get ports id b (confirmation_clear ports id s) ≡ none
  unfolding confirmation_get confirmation_clear
  get-clear id b s = ground arith

  -- What publishing the confirmation with the number gives.
  abbrev pub published : ℕ → Core W C → Code × W
  published id s = ports.publish_confirmation id required cancelled s.world

  -- Whether the confirmation with the number can be shown: the core gives one that fits, the number
  -- is not 0, and the publication succeeds.
  abbrev pub can_show : ℕ → Core W C → Bool
  can_show id s =
      is_some (ports.confirmation_of id s.world)
      && (not (id == 0) && not (is_fail (published id s).0))

  -- The state after it is shown.
  abbrev pub IsShown : ℕ → Core W C → Core W C → Type 0
  IsShown id s t =
      (some t.confirmation ≡ ports.confirmation_of id s.world) × (t.world ≡ (published id s).1)

  store_required :
      (c : Option (Confirmation C)) (id : ℕ) (s : Core W C)
      → ports.confirmation_of id s.world ≡ c
      → let r = route_required ports id s in
        ((is_fail r.0 ≡ true) × (can_show id s ≡ false))
        ⊎ ((is_fail r.0 ≡ false) × (can_show id s ≡ true) × IsShown id s r.1)
  unfolding route_required confirmation_store publish_state
  store_required none id s e = inl (ground arith)
  store_required (some c) id s e =
      let (rc, w) = ports.publish_confirmation id required cancelled s.world in ground arith

  -- A confirmation that is required, of which the core gives one that fits, with a number other than
  -- 0, and which can be published, is published as required: what is kept to be read is the one that
  -- the core gave for the number, and nothing is to be rejected. In every other case its number is to
  -- be rejected, and nobody can read it.
  pub required_outcome :
      (e : Effect) (refused : ℕ) (s : Core W C)
      → e.kind ≡ confirmation_required
      → let r = drain_step ports e refused s in
        ((can_show e.id s ≡ true) × (r.0 ≡ refused) × IsShown e.id s r.1)
        ⊎ ((can_show e.id s ≡ false) × (r.0 ≡ e.id) × (confirmation_get ports e.id true r.1 ≡ none))
  unfolding drain_step route_effect
  required_outcome e refused s k =
      rw k (elim (store_required (ports.confirmation_of e.id s.world) e.id s refl) [
        | inl (bad, unshown) ↦
            inr (rw bad (unshown, refl, get-clear e.id true (route_required ports e.id s).1))
        | inr (good, shown_ok, shown) ↦ inl (rw good (shown_ok, refl, shown))
      ])
