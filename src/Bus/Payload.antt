-- ===== src/Bus/Payload.antt =====
-- bus.c: payloads, which are chains of net_buf fragments of a pool.
use oskey_firmware.Prelude.{
  ℕ, suc, ◌+◌, ◌-◌, ◌*◌, ◌^◌, Bool, true, false, not, ◌&&◌, ◌||◌, Option, none, some, List, [], ◌∷◌,
  ◌++◌, reverse, ◌==◌, if◌then◌else◌, length, ltb, take, drop, replicate, Code, value, fail, einval,
  emsgsize, enomem,
}

-- A fragment's bytes, and a payload: the fragments in their order, none for NULL.
abbrev pub Fragments : Type 0
Fragments = List (List ℕ)

-- `app_command_payload_pool` and `app_result_payload_pool`
pub data Pool : Type 0 where
  command_pool result_pool : Pool

-- The kernel's buffers and queues, over its state `K`: `net_buf_alloc`; `net_buf_append_bytes`, with
-- the number of bytes that it appended; `net_buf_unref`; and whether `k_msgq_put` finds room in time.
pub record Kernel (K : Type 0) : Type 0 where
  pub payload_count : ℕ
  pub payload_size : ℕ
  pub alloc : Pool → K → Bool × K
  pub append_bytes : Pool → Fragments → List ℕ → K → ℕ × Fragments × K
  pub unref : Fragments → K → K
  pub has_room : K → Bool × K

-- A pointer and a length: the pointer is NULL, or leads to `length bytes` bytes.
pub record Data : Type 0 where
  pub there : Bool
  pub len : ℕ
  pub bytes : List ℕ

abbrev pub no_data : Data
no_data = record { there = false; len = 0; bytes = [] }

abbrev pub all_bytes : Fragments → List ℕ
all_bytes [] = []
all_bytes (f ∷ rest) = f ++ all_bytes rest

-- The fragments after `explicit_bzero`.
abbrev pub zeroed : Fragments → Fragments
zeroed [] = []
zeroed (f ∷ rest) = replicate (length f) 0 ∷ zeroed rest

-- A kernel with a ghost: how many payloads were allocated, and those that were given back, as their
-- bytes were then.
pub record Held (K : Type 0) : Type 0 where
  pub kernel : K
  pub allocated : ℕ
  pub released : List Fragments

module _ {K : Type 0} (k : Kernel K) where
  -- `app_payload_release`
  unfoldable pub release : Option Fragments → Held K → Held K
  release none s = s
  release (some p) s = record s {
    kernel = k.unref (zeroed p) s.kernel;
    released = zeroed p ∷ s.released;
  }

  abbrev pub too_large : ℕ → ℕ → Bool
  too_large len auxiliary_len =
      ltb (2 ^ 32 - 1 - auxiliary_len) len
      || ltb (k.payload_count * k.payload_size) (len + auxiliary_len)

  -- `net_buf_append_bytes`, if there is anything to append: whether it appended all.
  unfoldable pub append_all : Pool → Data → Fragments → Held K → Bool × Fragments × Held K
  append_all pool d p s =
      let (n, q, w) = k.append_bytes pool p (take d.len d.bytes) s.kernel in
      if d.len == 0 then (true, p, s) else (n == d.len, q, record s { kernel = w })

  -- The bytes put into a new payload, or the payload given back.
  unfoldable pub fill : Pool → Data → Data → Held K → Code × Option Fragments × Held K
  unfolding append_all
  fill pool first auxiliary s =
      let (ok, p, t) = append_all pool first [] s in
      let (all, q, u) = append_all pool auxiliary p t in
      if not ok
      then (fail enomem, none, release (some p) t)
      else if not all
      then (fail enomem, none, release (some q) u)
      else (value 0, some q, u)

  -- `payload_create`; its pool and the place of its result are never NULL.
  unfoldable pub payload_create : Pool → Data → Data → Held K → Code × Option Fragments × Held K
  payload_create pool first auxiliary s =
      let (ok, w) = k.alloc pool s.kernel in
      if not (first.len == 0) && not first.there || not (auxiliary.len == 0) && not auxiliary.there
      then (fail einval, none, s)
      else if too_large first.len auxiliary.len
      then (fail emsgsize, none, s)
      else if first.len + auxiliary.len == 0
      then (value 0, none, s)
      else if not ok
      then (fail enomem, none, record s { kernel = w })
      else fill pool first auxiliary (record s { kernel = w; allocated = suc s.allocated })

-- `app_payload_length`
unfoldable pub payload_length : Option Fragments → ℕ
payload_length none = 0
payload_length (some p) = length (all_bytes p)

-- `app_payload_read`: the bytes written to the buffer.
unfoldable pub payload_read : Option Fragments → ℕ → Bool → ℕ → List ℕ
payload_read none offset has_data len = []
payload_read (some p) offset has_data len =
    if len == 0 || not has_data then [] else take len (drop offset (all_bytes p))

-- The loop of `app_payload_slices`; `none` when it runs out of places.
unfoldable pub collect_slices : Fragments → ℕ → List (List ℕ) → Option (List (List ℕ))
collect_slices [] free slices = some (reverse slices)
collect_slices (f ∷ rest) free slices =
    let following = collect_slices rest (free - 1) (f ∷ slices) in
    if free == 0 then none else following

-- `app_payload_slices`: the slices, of which there are none on a failure.
abbrev pub slices_or_none : Option (List (List ℕ)) → List (List ℕ)
slices_or_none none = []
slices_or_none (some slices) = slices

unfoldable pub payload_slices : Option Fragments → ℕ → List (List ℕ)
payload_slices none capacity = []
payload_slices (some p) capacity = slices_or_none (collect_slices p capacity [])
