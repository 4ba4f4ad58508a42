-- ===== src/Entropy/Smf.antt =====
-- What entropy.c uses of Zephyr's state machine framework. The framework is not part of the
-- repository: it is a parameter, with the documented order of its actions as hypotheses.
use oskey_firmware.Prelude.{
  Bool, false, Option, none, some, List, [], ◌∷◌, reverse, ◌≡◌, if◌then◌else◌, ◌||◌,
}
use oskey_firmware.Entropy.Source.{
  SmfState, active, touch, imu, camera, microphone, source_error, same_state,
}

pub record Smf : Type 0 where
  -- the states whose exit, then entry actions run on a transition from the first to the second
  pub exits : SmfState → SmfState → List SmfState
  pub entries : SmfState → SmfState → List SmfState
  -- the states whose entry actions `smf_set_initial` runs
  pub initial : SmfState → List SmfState
  -- the states whose run action is tried by `smf_run_state`, until one handles the event
  pub runs : SmfState → List SmfState

-- The parents in the table `entropy_states`.
abbrev pub parent : SmfState → Option SmfState
parent touch = some active
parent imu = some active
parent camera = some active
parent microphone = some active
parent source_error = some active
parent _ = none

-- A state and its ancestors (no parent has a parent here).
abbrev pub lineage : SmfState → List SmfState
lineage s = elim (parent s) [ none ↦ s ∷ [] | some p ↦ s ∷ p ∷ [] ]

abbrev pub has_state : SmfState → List SmfState → Bool
has_state s [] = false
has_state s (t ∷ rest) = same_state s t || has_state s rest

abbrev pub outside : List SmfState → List SmfState → List SmfState
outside common [] = []
outside common (s ∷ rest) =
    if has_state s common then outside common rest else s ∷ outside common rest

-- From the leaf up to the common ancestor; a transition to itself leaves the state once.
unfoldable pub exit_order : SmfState → SmfState → List SmfState
exit_order s t = if same_state s t then s ∷ [] else outside (lineage t) (lineage s)

-- From below the common ancestor down to the target.
unfoldable pub entry_order : SmfState → SmfState → List SmfState
entry_order s t = if same_state s t then t ∷ [] else reverse (outside (lineage s) (lineage t))

-- The documentation of the framework: exit actions run from the source up to the least common
-- ancestor, entry actions from there down to the target, and an event that a state does not handle
-- goes to its parent.
pub record IsHierarchical (smf : Smf) : Type 0 where
  pub exits_lem : (s t : SmfState) → smf.exits s t ≡ exit_order s t
  pub entries_lem : (s t : SmfState) → smf.entries s t ≡ entry_order s t
  pub initial_lem : (t : SmfState) → smf.initial t ≡ reverse (lineage t)
  pub runs_lem : (s : SmfState) → smf.runs s ≡ lineage s

-- A framework that follows its documentation.
abbrev pub reference_smf : Smf
reference_smf = record {
  exits = exit_order;
  entries = entry_order;
  initial = λ t. reverse (lineage t);
  runs = lineage;
}
