-- ===== src/Imu/History.antt =====
-- The samples that the motion sensor's thread processes are in the order of their time stamps.
use mathlib.Core.Path.{subst}
use oskey_firmware.Prelude.{
  ℕ, ◌≤◌, ◌<◌, ◌≡◌, ◌≢◌, ◌⊎◌, inl, inr, refl, sym, ap, ◌∙◌, Bool, true, false, not, ◌&&◌, ◌||◌,
  Option, none, some, List, [], ◌∷◌, ◌==◌, ltb, leb, take, arith, Bool-cases, Code, value, is_fail,
  if_both,
}
use oskey_firmware.Imu.Acquisition.{
  Sample, Batch, Ports, Runtime, ImuState, imu_index, max_batch, check_samples, publish_imu_state,
  process_sample, process_samples, finish_batch, process_batch,
}

-- The time stamp of the newest sample, or 0.
abbrev pub latest : List Sample → ℕ
latest [] = 0
latest (s ∷ rest) = s.timestamp_ns

-- A sample may follow others, newest first: its time stamp is not 0, and later than theirs unless it
-- marks a discontinuity.
abbrev pub Follows : Sample → List Sample → Type 0
Follows s [] = s.timestamp_ns ≢ 0
Follows s (p ∷ rest) =
    (s.timestamp_ns ≢ 0) × (s.discontinuity ≡ false → p.timestamp_ns < s.timestamp_ns)

abbrev pub IsChronological : List Sample → Type 0
IsChronological [] = Unit
IsChronological (s ∷ rest) = Follows s rest × IsChronological rest

-- Samples put before others, each newer one first.
abbrev pub onto : List Sample → List Sample → List Sample
onto [] history = history
onto (s ∷ rest) history = onto rest (s ∷ history)

latest-positive :
    (p : Sample) (rest : List Sample) → IsChronological (p ∷ rest) → p.timestamp_ns ≢ 0
latest-positive p [] c = c.0
latest-positive p (q ∷ rest) c = c.0.0

abbrev is_refused : ℕ → Sample → Bool
is_refused last s =
    s.timestamp_ns == 0 || not (last == 0) && not s.discontinuity && leb s.timestamp_ns last

accepted-Follows :
    (s : Sample) (history : List Sample)
    → is_refused (latest history) s ≡ false
    → IsChronological history
    → Follows s history
accepted-Follows s [] e c = ground arith
accepted-Follows s (p ∷ rest) e c =
    let n = latest-positive p rest c in (ground arith, λ d. ground arith)

refused-Follows :
    (s : Sample) (history : List Sample)
    → is_refused (latest history) s ≡ true
    → ¬ Follows s history
refused-Follows s [] e f = ground arith
refused-Follows s (p ∷ rest) e f = ground arith

IsChronological-tail :
    (samples history : List Sample)
    → IsChronological (onto samples history)
    → IsChronological history
IsChronological-tail [] history c = c
IsChronological-tail (s ∷ rest) history c = (IsChronological-tail rest (s ∷ history) c).1

-- What the check gives, against the order it stands for.
abbrev pub IsChecked : List Sample → List Sample → Option ℕ → Type 0
IsChecked samples history none = ¬ IsChronological (onto samples history)
IsChecked samples history (some last) =
    IsChronological (onto samples history) × (last ≡ latest (onto samples history))

check_samples-IsChecked :
    (samples history : List Sample)
    → IsChronological history
    → IsChecked samples history (check_samples (latest history) samples)
unfolding check_samples
check_samples-IsChecked [] history c = (c, refl)
check_samples-IsChecked (s ∷ rest) history c = elim (Bool-cases (is_refused (latest history) s)) [
  | inl e ↦ rw e (λ k. refused-Follows s history e (IsChronological-tail rest (s ∷ history) k).0)
  | inr e ↦ rw e (check_samples-IsChecked rest (s ∷ history) (accepted-Follows s history e c, c))
]

module _ {F W : Type 0} where
  -- The last time stamp is that of the newest sample since the start, and these are in order.
  pub record IsTimed (r : Runtime F W) : Type 0 where
    pub last_is : r.last_timestamp_ns ≡ latest r.processed
    pub ordered : IsChronological r.processed

  -- Two states with the same history, errors and switches.
  pub record HasSame (r t : Runtime F W) : Type 0 where
    pub same_processed : t.processed ≡ r.processed
    pub same_last : t.last_timestamp_ns ≡ r.last_timestamp_ns
    pub same_errors : t.consecutive_errors ≡ r.consecutive_errors
    pub same_running : t.running ≡ r.running
    pub same_reports : t.reports ≡ r.reports
    pub same_timer : t.timer ≡ r.timer

  pub HasSame-refl : (r : Runtime F W) → HasSame r r
  HasSame-refl r = record {
    same_processed = refl;
    same_last = refl;
    same_errors = refl;
    same_running = refl;
    same_reports = refl;
    same_timer = refl;
  }

module _ {F W : Type 0} (ports : Ports F W) where
  -- Publishing a state changes nothing else.
  pub publish-HasSame :
      (state : ImuState) (r : Runtime F W) → HasSame r (publish_imu_state ports state r)
  unfolding publish_imu_state
  publish-HasSame state r =
      let (rc, w) = ports.channel_pub state r.world in
      if_both (HasSame r) (imu_index state == imu_index r.state) (HasSame-refl r) (
        if_both (HasSame r) (is_fail rc) (changed (record r { world = w }) w r.state)
          (changed (record r { world = w; state = state }) w state))
    where
      changed :
          (t : Runtime F W) (w : W) (s : ImuState) → HasSame r (record r { world = w; state = s })
      changed t w s = record {
        same_processed = refl;
        same_last = refl;
        same_errors = refl;
        same_running = refl;
        same_reports = refl;
        same_timer = refl;
      }

  process_samples-processed :
      (samples : List Sample) (r : Runtime F W)
      → (process_samples ports samples r).processed ≡ onto samples r.processed
  unfolding process_samples process_sample
  process_samples-processed [] r = refl
  process_samples-processed (s ∷ rest) r =
      process_samples-processed rest (process_sample ports s r)
      ∙ ap (onto rest) (publish-HasSame _ _).same_processed

  -- What becomes of a batch: it is processed, and the history goes on in order; or it is refused.
  abbrev pub IsProcessed : Batch → Runtime F W → Code × Runtime F W → Type 0
  IsProcessed batch r (rc, t) =
      let history = onto (take batch.count batch.samples) r.processed in
      (batch.count ≤ max_batch)
      × IsChronological history
      × (rc ≡ value 0)
      × (t.processed ≡ history)
      × IsTimed t

  abbrev pub IsRefused : Batch → Runtime F W → Code × Runtime F W → Type 0
  IsRefused batch r (rc, t) =
      ((max_batch < batch.count)
        ⊎ (¬ IsChronological (onto (take batch.count batch.samples) r.processed)))
      × (is_fail rc ≡ true)
      × (t ≡ r)

  -- A batch of at most 16 samples whose time stamps go on in order after those before is processed
  -- whole, and any other batch is refused whole, with nothing changed.
  pub process_batch_whole :
      (batch : Batch) (r : Runtime F W)
      → IsTimed r
      → IsProcessed batch r (process_batch ports batch r)
        ⊎ IsRefused batch r (process_batch ports batch r)
  unfolding process_batch
  process_batch_whole batch r i =
      let samples = take batch.count batch.samples in
      let checked =
        subst (λ l. IsChecked samples r.processed (check_samples l samples)) (sym i.last_is)
          (check_samples-IsChecked samples r.processed i.ordered) in
      elim (Bool-cases (ltb max_batch batch.count)) [
        | inl e ↦ rw e (inr (inl (ground arith), refl, refl))
        | inr e ↦ rw e (go (check_samples r.last_timestamp_ns samples) checked (ground arith))
      ]
    where
      go :
          (o : Option ℕ)
          → IsChecked (take batch.count batch.samples) r.processed o
          → batch.count ≤ max_batch
          → let result = finish_batch ports (take batch.count batch.samples) o r in
            IsProcessed batch r result ⊎ IsRefused batch r result
      go none c h = inr (inr c, refl, refl)
      go (some last) (c, e) h =
          let p = process_samples-processed (take batch.count batch.samples) r in
          inl (
            h,
            c,
            refl,
            p,
            record { last_is = e ∙ ap latest (sym p); ordered = subst IsChronological (sym p) c },
          )
