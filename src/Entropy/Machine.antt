-- ===== src/Entropy/Machine.antt =====
-- entropy.c: the context, the entry and exit actions, transitions, and the hashing of a source. The
-- mutex `entropy_lock` is held over each call, so a call is one step of the state.
use oskey_firmware.Prelude.{
  ℕ, zero, suc, ◌+◌, ◌-◌, ◌^◌, Bool, true, false, not, ◌||◌, Option, none, some, List, [], ◌∷◌,
  ◌++◌, ◌==◌, if◌then◌else◌, u32, length, set, replicate, Code, value, fail, is_zero, einval, eio,
  codes, le32,
}
use oskey_firmware.Entropy.Source.{
  SmfState, idle, active, source_error, ready, Hook, source_get, source_from_state, source_none,
  Mask, no_sources, bits, union, popcount, next_source, progress,
}
use oskey_firmware.Entropy.Smf.{Smf}

-- `struct entropy_record`
pub record Record : Type 0 where
  pub source : ℕ
  pub units : ℕ
  pub duration_ms : ℕ
  pub digest : List ℕ

abbrev pub zero_record : Record
zero_record = record { source = 0; units = 0; duration_ms = 0; digest = replicate 32 0 }

-- `enum entropy_event_kind`; `nothing` is ENTROPY_EVENT_NONE.
pub data EventKind : Type 0 where
  nothing begin_event feed_event fail_event retry_event skip_event cancel_event : EventKind

-- `struct entropy_event`; `payload` is what `data` and `len` point to.
pub record Event : Type 0 where
  pub payload : List ℕ
  pub session : ℕ
  pub units : ℕ
  pub error : Code
  pub source : ℕ
  pub kind : EventKind

-- `struct entropy_context`. `started` is whether `ctx.current` has left NULL, and `leaf` is that
-- state. `hooks` is a ghost: the calls of the sources' start and stop functions, newest first. The
-- event in dispatch is an argument of the functions in place of a field.
pub record Context (Op : Type 0) : Type 0 where
  pub started : Bool
  pub leaf : SmfState
  pub hash : Op
  pub records : List Record
  pub session : ℕ
  pub units : ℕ
  pub started_ms : ℕ
  pub event_result : Code
  pub last_error : Code
  pub words : ℕ
  pub selected : Mask
  pub completed : Mask
  pub skipped : Mask
  pub current : ℕ
  pub hash_active : Bool
  pub hooks : List Hook

-- What the collector calls outside its file, during one dispatch: the PSA hash functions (the
-- operation is what they leave in `hash`), the start functions of the sources, and the clock when a
-- run action and when an entry action reads it. `psa_hash_abort` is followed by a new
-- initialisation wherever it is called, and its status is dropped.
pub record Env (Op : Type 0) : Type 0 where
  pub hash_init : Op
  pub hash_setup : Op → Code × Op
  pub hash_update : Op → List ℕ → Code × Op
  pub hash_finish : Op → Code × List ℕ
  pub start : Hook → Code
  pub run_ms : ℕ
  pub entry_ms : ℕ

abbrev pub transcript_version : ℕ
transcript_version = 1

abbrev pub source_domain : List ℕ
source_domain = codes "OSKEY/ENTROPY-SOURCE/V1"

module _ {Op : Type 0} (env : Env Op) where
  unfoldable pub reset_session : Context Op → Context Op
  reset_session c = record c {
    hash = env.hash_init;
    hash_active = false;
    records = replicate 4 zero_record;
    units = 0;
    started_ms = 0;
    last_error = value 0;
    words = 0;
    selected = no_sources;
    completed = no_sources;
    skipped = no_sources;
    current = source_none;
  }

  unfoldable pub ready_entry : Context Op → Context Op
  ready_entry c = record c { current = source_none; units = 0; started_ms = 0 }

  -- The exit action of a source state; `s` is the executing state.
  unfoldable pub source_exit : SmfState → Context Op → Context Op
  unfolding source_from_state
  source_exit s c = record c {
    hooks = elim (source_from_state s) [
      | none ↦ c.hooks
      | some ops ↦ elim ops.stop [ none ↦ c.hooks | some h ↦ h ∷ c.hooks ]
    ];
    hash = env.hash_init;
    hash_active = false;
    units = 0;
    started_ms = 0;
  }

  -- Setup and the first two updates: the status, the operation, and whether it became active.
  unfoldable pub hash_prologue : ℕ → Code × Op × Bool
  hash_prologue source =
      let (r1, h1) = env.hash_setup env.hash_init in
      let (r2, h2) = env.hash_update h1 source_domain in
      let (r3, h3) = env.hash_update h2 (transcript_version ∷ source ∷ []) in
      if is_zero r1
      then (if is_zero r2 then (r3, h3, true) else (r2, h2, true))
      else (r1, h1, false)

  -- `if (ret == PSA_SUCCESS && ops->start != NULL) ret = ops->start();`
  unfoldable pub source_start : Option Hook → Code → Context Op → Code × Context Op
  source_start none ret c = (ret, c)
  source_start (some h) ret c =
      if is_zero ret then (env.start h, record c { hooks = h ∷ c.hooks }) else (ret, c)

  -- The entry action of a source state. `goto` is `smf_set_state`.
  unfoldable pub source_entry :
      (Context Op → SmfState → Context Op) → SmfState → Context Op → Context Op
  unfolding source_from_state source_start
  source_entry goto s c = elim (source_from_state s) [
    | none ↦ goto (record c { last_error = fail einval }) source_error
    | some ops ↦
        let (status, h, live) = hash_prologue ops.source in
        let (ret, c') = source_start ops.start status (record c {
          current = ops.source;
          units = 0;
          started_ms = env.entry_ms;
          hash = h;
          hash_active = live || c.hash_active;
        }) in
        if is_zero ret then c' else goto (record c' { last_error = ret }) source_error
  ]

  -- The entry and exit columns of `entropy_states`; the action of SOURCE_ERROR only logs.
  unfoldable pub entry_action :
      (Context Op → SmfState → Context Op) → SmfState → Context Op → Context Op
  unfolding reset_session ready_entry source_entry
  entry_action goto idle c = reset_session c
  entry_action goto active c = c
  entry_action goto source_error c = c
  entry_action goto ready c = ready_entry c
  entry_action goto s c = source_entry goto s c

  unfoldable pub exit_action : SmfState → Context Op → Context Op
  unfolding source_exit
  exit_action idle c = c
  exit_action active c = c
  exit_action source_error c = c
  exit_action ready c = c
  exit_action s c = source_exit s c

  abbrev pub exit_all : List SmfState → Context Op → Context Op
  exit_all [] c = c
  exit_all (s ∷ rest) c = exit_all rest (exit_action s c)

  abbrev pub enter_all :
      (Context Op → SmfState → Context Op) → List SmfState → Context Op → Context Op
  enter_all goto [] c = c
  enter_all goto (s ∷ rest) c = enter_all goto rest (entry_action goto s c)

  -- `smf_set_state`. The number bounds how deep an entry action may call it again.
  unfoldable pub set_state_depth : Smf → ℕ → Context Op → SmfState → Context Op
  unfolding entry_action exit_action
  set_state_depth smf zero c t = c
  set_state_depth smf (suc depth) c t =
      enter_all (set_state_depth smf depth) (smf.entries c.leaf t)
        (record (exit_all (smf.exits c.leaf t) c) { leaf = t })

  -- A source's entry may go to SOURCE_ERROR, whose entry goes nowhere.
  unfoldable pub set_state : Smf → Context Op → SmfState → Context Op
  unfolding set_state_depth
  set_state smf = set_state_depth smf 2

  unfoldable pub initialize : Smf → Context Op → Context Op
  unfolding entry_action
  initialize smf c =
      if c.started
      then c
      else enter_all (λ d t. d) (smf.initial idle) (record c { started = true; leaf = idle })

  unfoldable pub transition_next : Smf → Context Op → Context Op
  unfolding source_get
  transition_next smf c = elim (source_get (next_source c.selected c.completed c.skipped)) [
    | none ↦ set_state smf c ready
    | some ops ↦ set_state smf c ops.state
  ]

  unfoldable pub complete_source : ℕ → Context Op → Code × Context Op
  complete_source duration_ms c =
      let (status, digest) = env.hash_finish c.hash in
      let closed = record c { hash = env.hash_init; hash_active = false } in
      if not (progress c.current c.units == 1000)
      then (value 0, c)
      else if not (is_zero status) || not (length digest == 32)
      then (fail eio, record closed { records = set c.records (popcount c.completed) zero_record })
      else (
        value 1,
        record closed {
          records = set c.records (popcount c.completed) (record {
            source = c.current;
            units = c.units;
            duration_ms = duration_ms;
            digest = digest;
          });
          completed = union c.completed (bits c.current);
        },
      )

  -- `(uint32_t)(k_uptime_get() - context->started_ms)`
  abbrev pub elapsed_ms : Context Op → ℕ
  elapsed_ms c = u32 (env.run_ms + 2 ^ 64 - c.started_ms)

  -- The two updates of a feed, metadata and data: the status and the operation.
  unfoldable pub hash_feed : Event → Context Op → Code × Op
  hash_feed e c =
      let (r1, h1) = env.hash_update c.hash (le32 (elapsed_ms c) ++ le32 e.units) in
      let second = env.hash_update h1 e.payload in if is_zero r1 then second else (r1, h1)
