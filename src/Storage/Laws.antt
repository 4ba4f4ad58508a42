-- ===== src/Storage/Laws.antt =====
-- What storage.c promises: reading gives back what was written, and a failure of the flash other
-- than -ENOENT closes it.
use oskey_firmware.Prelude.{
  ℕ, ◌≤◌, ◌≡◌, ◌≢◌, ◌⊎◌, refl, ap, ◌∙◌, inl, inr, Bool, true, false, not, ◌&&◌, if◌then◌else◌, ◌==◌,
  ltb, List, [], ◌∷◌, ◌++◌, ◌-◌, arith, length, take, replicate, Code, value, fail, enodev, enoent,
  is_fail,
}
use oskey_firmware.Storage.Flash.{
  Zms, Flash, runtime_result, exists_record, write, read_found, read_sized, read, delete,
  seed_record, storage_error, is_enoent,
}
use oskey_firmware.Storage.Ram.{Ram, ram_exists, ram_write, ram_read, ram_delete}

take-append_length : (xs ys : List ℕ) → take (length xs) (xs ++ ys) ≡ xs
take-append_length [] ys = refl
take-append_length (x ∷ xs) ys = ap (λ zs. x ∷ zs) (take-append_length xs ys)

-- A seed of 1 to 256 bytes that was written to RAM is read back by a buffer that has room for it,
-- and reported as there; deleting it makes it absent. The count of failed unlocks stays.
pub seed_round_trip :
    (bytes : List ℕ) (len : ℕ) (s : Ram)
    → length bytes ≢ 0
    → length bytes ≤ 256
    → length bytes ≤ len
    → let t = (ram_write true bytes seed_record s).1 in
      (ram_read true len seed_record t ≡ (value (length bytes), bytes))
      × (ram_exists seed_record t ≡ value 1)
      × (t.unlock_failures ≡ s.unlock_failures)
      × (ram_read true len seed_record (ram_delete seed_record t).1 ≡ (fail enoent, []))
unfolding ram_write ram_read ram_exists ram_delete
seed_round_trip bytes len s n b l =
    ground (arith, take-append_length bytes (replicate (256 - length bytes) 0))

-- An operation on a record, with whether the caller gave a buffer, and what he gave with it.
pub data Operation : Type 0 where
  existing deleting : ℕ → Operation
  writing : Bool → List ℕ → ℕ → Operation
  reading : Bool → ℕ → ℕ → Operation

-- Whether the arguments of an operation are valid.
abbrev pub is_asked : Operation → Bool
is_asked (writing has_data bytes id) = has_data && not (length bytes == 0)
is_asked (reading has_data len id) = has_data && not (len == 0)
is_asked _ = true

-- A failure that closes storage.
abbrev pub is_fatal : Code → Bool
is_fatal rc = is_fail rc && not (is_enoent rc)

-- What the operations of a list return while storage is closed.
abbrev pub refusals : List Operation → List Code
refusals [] = []
refusals (o ∷ rest) = fail enodev ∷ refusals rest

module _ {F : Type 0} (zms : Zms F) where
  abbrev pub perform : Operation → Flash F → Code × Flash F
  perform (existing id) s = exists_record zms id s
  perform (deleting id) s = delete zms id s
  perform (writing has_data bytes id) s = write zms has_data bytes id s
  perform (reading has_data len id) s = let r = read zms has_data len id s in (r.0, r.2)

  abbrev pub perform_all : List Operation → Flash F → List Code × Flash F
  perform_all [] s = ([], s)
  perform_all (o ∷ rest) s =
      let (rc, t) = perform o s in let (codes, u) = perform_all rest t in (rc ∷ codes, u)

  -- What the flash says of a read: that of its size, if that fails; that a record which is too long
  -- is there; else that of the read.
  abbrev pub read_answer : ℕ → ℕ → Code → F → Code
  read_answer len id (fail e) f = fail e
  read_answer len id (value n) f = if ltb len n then value n else (zms.read_record f id n).0

  -- What the flash says of an operation.
  abbrev pub flash_answer : Operation → F → Code
  flash_answer (existing id) f = (zms.data_length f id).0
  flash_answer (deleting id) f = (zms.delete_record f id).0
  flash_answer (writing has_data bytes id) f = (zms.write_record f id bytes).0
  flash_answer (reading has_data len id) f =
      let (stored, g) = zms.data_length f id in read_answer len id stored g

  -- How an operation ends whose answer of the flash is `answer`: closed with one error published and
  -- that answer, if it is fatal; else with the flag as before and nothing published.
  abbrev pub IsLatched : Flash F → Code → Code → Flash F → Type 0
  IsLatched s answer rc t =
      ((is_fatal answer ≡ true)
        × (rc ≡ answer)
        × (t.initialized ≡ false)
        × (t.published ≡ storage_error ∷ s.published))
      ⊎ ((is_fatal answer ≡ false) × (t.initialized ≡ s.initialized) × (t.published ≡ s.published))

  IsLatched-runtime :
      (rc : Code) (s : Flash F) → IsLatched s rc (runtime_result rc s).0 (runtime_result rc s).1
  unfolding runtime_result
  IsLatched-runtime rc s = ground arith

  IsLatched-exists :
      (s : Flash F) (id : ℕ)
      → s.initialized ≡ true
      → let r = exists_record zms id s in IsLatched s (zms.data_length s.fs id).0 r.0 r.1
  unfolding exists_record
  IsLatched-exists s id o =
      let (len, f) = zms.data_length s.fs id in
      ground (arith, IsLatched-runtime len (record s { fs = f }))

  IsLatched-write :
      (s : Flash F) (id : ℕ) (h : Bool) (bytes : List ℕ)
      → s.initialized ≡ true
      → (h && not (length bytes == 0)) ≡ true
      → let r = write zms h bytes id s in IsLatched s (zms.write_record s.fs id bytes).0 r.0 r.1
  unfolding write
  IsLatched-write s id h bytes o v =
      let (rc, f) = zms.write_record s.fs id bytes in
      ground (arith, IsLatched-runtime rc (record s { fs = f }))

  IsLatched-found :
      (rc : Code) (s : Flash F) (id len : ℕ)
      → let r = read_found zms len id rc s in IsLatched s (read_answer len id rc s.fs) r.0 r.2
  unfolding read_found read_sized
  IsLatched-found (fail e) s id len = IsLatched-runtime (fail e) s
  IsLatched-found (value n) s id len =
      let (rc, bytes, f) = zms.read_record s.fs id n in
      ground (arith, IsLatched-runtime rc (record s { fs = f }))

  IsLatched-read :
      (s : Flash F) (id len : ℕ) (h : Bool)
      → s.initialized ≡ true
      → (h && not (len == 0)) ≡ true
      → let r = read zms h len id s in IsLatched s (flash_answer (reading h len id) s.fs) r.0 r.2
  unfolding read
  IsLatched-read s id len h o v =
      let (stored, f) = zms.data_length s.fs id in
      ground (arith, IsLatched-found stored (record s { fs = f }) id len)

  IsLatched-delete :
      (s : Flash F) (id : ℕ)
      → s.initialized ≡ true
      → let r = delete zms id s in IsLatched s (zms.delete_record s.fs id).0 r.0 r.1
  unfolding delete
  IsLatched-delete s id o =
      let (rc, f) = zms.delete_record s.fs id in
      ground (arith, IsLatched-runtime rc (record s { fs = f }))

  IsLatched-perform :
      (o : Operation) (s : Flash F)
      → s.initialized ≡ true
      → is_asked o ≡ true
      → let r = perform o s in IsLatched s (flash_answer o s.fs) r.0 r.1
  IsLatched-perform (existing id) s e v = IsLatched-exists s id e
  IsLatched-perform (deleting id) s e v = IsLatched-delete s id e
  IsLatched-perform (writing h bytes id) s e v = IsLatched-write s id h bytes e v
  IsLatched-perform (reading h len id) s e v = IsLatched-read s id len h e v

  perform_closed :
      (o : Operation) (s : Flash F) → s.initialized ≡ false → perform o s ≡ (fail enodev, s)
  unfolding exists_record write read delete
  perform_closed (existing id) s e = rw e refl
  perform_closed (deleting id) s e = rw e refl
  perform_closed (writing h bytes id) s e = rw e refl
  perform_closed (reading h len id) s e = rw e refl

  perform_all-closed :
      (later : List Operation) (s : Flash F)
      → s.initialized ≡ false
      → perform_all later s ≡ (refusals later, s)
  perform_all-closed [] s e = refl
  perform_all-closed (o ∷ rest) s e =
      let consed : Code × Flash F → List Code × Flash F =
        λ r. (r.0 ∷ (perform_all rest r.1).0, (perform_all rest r.1).1) in
      ap consed (perform_closed o s e)
      ∙ ap (λ r. (fail enodev ∷ r.0, r.1)) (perform_all-closed rest s e)

  -- An operation with valid arguments, while storage is open: if the flash answers it with a failure
  -- other than -ENOENT, it returns that failure, publishes one error, and closes storage, so that
  -- every later operation, however many there are, fails with -ENODEV and leaves the flash and the
  -- state as they are. With any other answer storage stays open and nothing is published.
  pub failures_latch :
      (o : Operation) (later : List Operation) (s : Flash F)
      → s.initialized ≡ true
      → is_asked o ≡ true
      → let (rc, t) = perform o s in
        let answer = flash_answer o s.fs in
        ((is_fatal answer ≡ true)
          × (rc ≡ answer)
          × (t.published ≡ storage_error ∷ s.published)
          × (perform_all later t ≡ (refusals later, t)))
        ⊎ ((is_fatal answer ≡ false) × (t.initialized ≡ true) × (t.published ≡ s.published))
  failures_latch o later s e v = elim (IsLatched-perform o s e v) [
    | inl (bad, same, closed, told) ↦
        inl (bad, same, told, perform_all-closed later (perform o s).1 closed)
    | inr (fine, kept, quiet) ↦ inr (fine, kept ∙ e, quiet)
  ]
