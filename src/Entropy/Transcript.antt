-- ===== src/Entropy/Transcript.antt =====
-- The bytes of the transcript, `app_entropy_transcript_get`.
use oskey_firmware.Prelude.{
  ℕ, ◌*◌, ◌≤◌, ◌≡◌, true, false, some, List, [], ◌∷◌, ◌++◌, arith, length, length-append,
  length-take, take, All, All-take, codes, map,
}
use oskey_firmware.Entropy.Source.{
  Mask, ready, mask_codes, union, auxiliary, popcount, to_byte, overlaps,
}
use oskey_firmware.Entropy.Smf.{Smf}
use oskey_firmware.Entropy.Machine.{Record, Context, Env, initialize, transcript_version}
use oskey_firmware.Entropy.Api.{
  record_bytes, records_bytes, transcript, transcript_get, required_size,
}
use oskey_firmware.Entropy.Sessions.{ready_accounts}
use oskey_firmware.Entropy.Invariant.{HasDigest, IsValid}

length-record_bytes : (r : Record) → HasDigest r → length (record_bytes r) ≡ 41
length-record_bytes r h = omega (arith, h)

length-records_bytes :
    (rs : List Record) → All HasDigest rs → length (records_bytes rs) ≡ length rs * 41
length-records_bytes [] h = omega arith
length-records_bytes (r ∷ rest) h = omega (
  arith,
  length-append (record_bytes r) (records_bytes rest),
  length-record_bytes r h.0,
  length-records_bytes rest h.1,
)

popcount-le : (m : Mask) → m.rng ≡ false → popcount m ≤ 4
popcount-le m h = ground arith

-- The transcript of a valid context has the size that the header announces.
length-transcript :
    {Op : Type 0} (c : Context Op) → IsValid c → length (transcript c) ≡ required_size c
unfolding transcript
length-transcript c v = omega (
  arith,
  length-records_bytes (take (popcount c.completed) c.records)
      (All-take HasDigest (popcount c.completed) c.records v.accounted.digests),
  length-take (popcount c.completed) c.records,
  v.accounted.record_slots,
  popcount-le c.completed v.accounted.no_rng.0,
)

-- What `app_entropy_transcript_get` stores fits the caller's buffer and the declared maximum of 174
-- bytes, and `written` is exactly the number of bytes stored.
pub transcript_get_fits :
    {Op : Type 0} (smf : Smf) (env : Env Op) (session size : ℕ) (c : Context Op)
    → IsValid (initialize env smf c)
    → {bytes : List ℕ} {written : ℕ}
    → (transcript_get smf env session true size true c).2 ≡ some (bytes, written)
    → (length bytes ≡ written) × (written ≤ size) × (written ≤ 174)
unfolding transcript_get
transcript_get_fits smf env session size c v h = ground (
  arith,
  length-transcript (initialize env smf c) v,
  popcount-le (initialize env smf c).completed v.accounted.no_rng.0,
)

-- A transcript that is given out has the documented form: the magic value, the version, the words
-- and the masks, then one record for each completed source, in the order of the sources' bits and
-- without duplicates; the completed and skipped masks are disjoint, and together they are the
-- selected auxiliary sources.
pub transcript_canonical :
    {Op : Type 0} (c : Context Op)
    → IsValid c
    → c.leaf ≡ ready
    → (rs : List Record) × (transcript c
        ≡ codes "OSEM"
          ++ transcript_version
            ∷ c.words
            ∷ to_byte c.selected
            ∷ to_byte c.completed
            ∷ to_byte c.skipped
            ∷ length rs
            ∷ records_bytes rs)
      × (map (λ r. r.source) rs ≡ mask_codes c.completed)
      × (overlaps c.completed c.skipped ≡ false)
      × (union c.completed c.skipped ≡ auxiliary c.selected)
unfolding transcript
transcript_canonical c v l =
    let n = popcount c.completed in
    let rs = take n c.records in
    let e : length rs ≡ n = omega (
      arith,
      length-take n c.records,
      v.accounted.record_slots,
      popcount-le c.completed v.accounted.no_rng.0,
    ) in
    (rs, rw e, v.accounted.records_are, v.accounted.disjoint, ready_accounts c v l)
