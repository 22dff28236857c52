-- ===== src/Shm/Delivery/Run.antt =====
-- src/shmdriver.cxx: runs of the loop over the pulled buffers, with a recording processor.
use mathlib.Core.List.{append_assoc, append-nil}
use levbdim.Base.{
  ℕ, ◌≡◌, ◌≢◌, ◌⊎◌, false, refl, sym, ap, ◌∙◌, inl, inr, List, [], ◌∷◌, ◌++◌, some, true, ◌==◌,
  ==_iff, length, All-append, keep, keep-append, Bool-cases,
}
use levbdim.Base.StdMap.{nat_key, All-erase, IsDistinct-erase}
use levbdim.Buffer.{Buffer, event_id}
use levbdim.Shm.Driver.{Double, ShmDriver, number_of_data_source, run_processors, pending}
use levbdim.Shm.Scan.{add_buffer, collect, collect_all}
use levbdim.Shm.Build.{added, handed, collect_lem, event_time}
use levbdim.Shm.Delivery.{
  Log, recorder, delivered, delivered-append, of_event, pending-added, pending-handed, seen,
  IsComplete, IsSound, IsFiled, IsBegun, add_buffer-IsBegun, add_buffer-IsDistinct,
  add_buffer-IsOpen, handed-IsOpen, add_buffer-IsFiled, pending-IsFiled, Progress,
}

kept-Progress :
    (b : Buffer) (log : Log) (d : ShmDriver Log)
    → (event_id b ≡ 0)
      ⊎ ((length (pending (event_id b) d ++ b ∷ []) == number_of_data_source d) ≡ false)
    → IsSound log d
    → Progress log d (b ∷ []) log (added b d)
unfolding number_of_data_source
kept-Progress b log d why r = record {
  sound = record {
    records = r.records;
    complete = r.complete;
    filed = add_buffer-IsFiled b d r.filed;
    registered = r.registered;
    open_events = add_buffer-IsOpen b (number_of_data_source d) d r.registered why r.open_events;
    begun = add_buffer-IsBegun b d.event_map r.begun;
    distinct = add_buffer-IsDistinct b d.event_map r.distinct;
  };
  same_dir = refl;
  sources = refl;
  balance = λ k.
      ap (◌++◌ (delivered k log)) (pending-added k b d)
      ∙ sym (append_assoc (delivered k log) (pending k d) (of_event k (b ∷ [])));
}

module _ (b : Buffer) (log : Log) (d : ShmDriver Log) where
  abbrev id : ℕ
  id = event_id b

  abbrev bufs : List Buffer
  bufs = pending id d ++ b ∷ []

  abbrev longer : Log
  longer = log ++ (id, bufs) ∷ []

  abbrev handed_driver : ShmDriver Log
  handed_driver = handed id (added b d) (longer ∷ [])

  seen-handed : (k : ℕ) → seen k longer handed_driver ≡ seen k log d ++ of_event k (b ∷ [])
  unfolding keep
  seen-handed k = elim (Bool-cases (id == k)) [
    | inl hit ↦
        let same : pending id d ≡ pending k d = ap (λ j. pending j d) ((==_iff id k).0 hit) in
        rw (delivered-append k id bufs log, pending-handed k id (added b d) (longer ∷ []), hit)
          (append-nil (delivered k log ++ bufs)
            ∙ sym (append_assoc (delivered k log) (pending id d) (b ∷ []))
            ∙ ap (λ x. (delivered k log ++ x) ++ b ∷ []) same)
    | inr miss ↦
        rw
          (
            delivered-append k id bufs log,
            pending-handed k id (added b d) (longer ∷ []),
            miss,
            append-nil (delivered k log),
          )
          (ap (◌++◌ (delivered k log)) (pending-added k b d)
            ∙ rw miss (sym (append_assoc (delivered k log) (pending k d) [])))
  ]

  handed-IsSound :
      (length bufs == number_of_data_source d) ≡ true
      → id ≢ 0
      → IsSound log d
      → IsSound longer handed_driver
  unfolding number_of_data_source
  handed-IsSound full nonzero r = record {
    records = refl;
    complete = All-append (IsComplete (number_of_data_source d)) log ((id, bufs) ∷ []) r.complete (
      (
        (==_iff (length bufs) (number_of_data_source d)).0 full,
        nonzero,
        All-append (λ c. event_id c ≡ id) (pending id d) (b ∷ []) (pending-IsFiled id d r.filed)
            (refl, tt),
      ),
      tt,
    );
    filed = All-erase IsFiled id (add_buffer b d.event_map) (add_buffer-IsFiled b d r.filed);
    registered = r.registered;
    open_events = handed-IsOpen b (number_of_data_source d) d r.open_events;
    begun =
        All-erase IsBegun id (add_buffer b d.event_map) (add_buffer-IsBegun b d.event_map r.begun);
    distinct =
        IsDistinct-erase id (add_buffer b d.event_map)
          (add_buffer-IsDistinct b d.event_map r.distinct);
  }

  handed-Progress :
      (length bufs == number_of_data_source d) ≡ true
      → id ≢ 0
      → IsSound log d
      → Progress log d (b ∷ []) longer handed_driver
  unfolding number_of_data_source
  handed-Progress full nonzero r = record {
    sound = handed-IsSound full nonzero r;
    same_dir = refl;
    sources = refl;
    balance = seen-handed;
  }

pub Progress-nil : (log : Log) (d : ShmDriver Log) → IsSound log d → Progress log d [] log d
unfolding keep
Progress-nil log d r = record {
  sound = r;
  same_dir = refl;
  sources = refl;
  balance = λ k. sym (append-nil (seen k log d));
}

pub Progress-cons :
    (b : Buffer) (bs : List Buffer) (log log' log'' : Log) (d d' d'' : ShmDriver Log)
    → Progress log d (b ∷ []) log' d'
    → Progress log' d' bs log'' d''
    → Progress log d (b ∷ bs) log'' d''
unfolding keep
Progress-cons b bs log log' log'' d d' d'' p q = record {
  sound = q.sound;
  same_dir = q.same_dir ∙ p.same_dir;
  sources = q.sources ∙ p.sources;
  balance = λ k.
      q.balance k
      ∙ ap (λ xs. xs ++ of_event k bs) (p.balance k)
      ∙ append_assoc (seen k log d) (of_event k (b ∷ [])) (of_event k bs)
      ∙ ap (◌++◌ (seen k log d)) (sym (keep-append (λ c. event_id c == k) (b ∷ []) bs));
}

module _ {W : Type 0} (real : Double) where
  open real use {Real}

  -- One buffer: the loop's body succeeds.
  pub collect-Progress :
      (b : Buffer) (w : W) (log : Log) (d : ShmDriver Log) (t : Real)
      → IsSound log d
      → (d' : ShmDriver Log) × (t' : Real) × (log' : Log) × (collect recorder real b w d t
          ≡ some (w, d', t'))
        × Progress log d (b ∷ []) log' d'
  unfolding run_processors
  collect-Progress b w log d t r =
      elim (Bool-cases (length (pending (event_id b) d ++ b ∷ []) == number_of_data_source d)) [
        | inl full ↦ elim (Bool-cases (event_id b == 0)) [
          | inl zero_id ↦ (
            added b d,
            event_time real b d,
            log,
            collect_lem recorder real b w d t ∙ rw (full, zero_id),
            kept-Progress b log d (inl ((==_iff (event_id b) 0).0 zero_id)) r,
          )
          | inr other ↦ (
            handed_driver b log d,
            event_time real b d,
            longer b log d,
            collect_lem recorder real b w d t ∙ rw (full, other, r.records),
            handed-Progress b log d full (λ e. cc (other, (==_iff (event_id b) 0).1 e)) r,
          )
        ]
        | inr more ↦ (
          added b d,
          t,
          log,
          collect_lem recorder real b w d t ∙ rw more,
          kept-Progress b log d (inr more) r,
        )
      ]

  pub collect_all-Progress :
      (bs : List Buffer) (w : W) (log : Log) (d : ShmDriver Log) (t : Real)
      → IsSound log d
      → (d' : ShmDriver Log) × (t' : Real) × (log' : Log) × (collect_all recorder real bs w d t
          ≡ some (w, d', t'))
        × Progress log d bs log' d'
  unfolding collect_all
  collect_all-Progress [] w log d t r = (d, t, log, refl, Progress-nil log d r)
  collect_all-Progress (b ∷ bs) w log d t r =
      let (d', t', log', one, p) = collect-Progress b w log d t r in
      let (d'', t'', log'', rest, q) = collect_all-Progress bs w log' d' t' p.sound in
      (d'', t'', log'', rw (one, collect_all) rest, Progress-cons b bs log log' log'' d d' d'' p q)
