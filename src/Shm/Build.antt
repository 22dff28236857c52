-- ===== src/Shm/Build.antt =====
-- src/shmdriver.cxx: event building. What each buffer does to the event map, and what the
-- processors receive.
use native.Mathlib.Nat.{mod-eq_of_lt}
use levbdim.Base.{
  ℕ, ◌^◌, ◌<◌, ◌≡◌, ◌≢◌, refl, sym, ap, ◌∙◌, inl, inr, List, [], ◌∷◌, ◌++◌, some, true, false,
  ◌>>=◌, if◌then◌else◌, ◌==◌, ==_iff, ==_refl, length, drop, take, arith, Option-cases, Bool-cases,
  >>=-some,
}
use levbdim.Base.StdMap
use levbdim.Base.StdMap.{
  StdMap, nat_key, find-insert_new, find-update, find-erase, All-place, All-update, All-erase,
  find-All,
}
use levbdim.Buffer.{Bytes, Buffer, event_id, bx_id, u32, from_bytes}
use levbdim.Shm.Driver.{
  ShmProcessor, Double, EventMap, ShmDriver, number_of_data_source, run_processors, process_event,
  pending, vector,
}
use levbdim.Shm.Scan.{add_buffer, head?, collect}

-- An event id has 32 bits.
event_id-lt : (b : Buffer) → event_id b < 2 ^ 32
unfolding event_id
event_id-lt b = from_bytes_4 (drop 8 b.mem)
  where
    from_bytes_4 : (xs : Bytes) → from_bytes (take 4 xs) < 2 ^ 32
    from_bytes_4 [] = omega arith
    from_bytes_4 (a ∷ []) = omega arith
    from_bytes_4 (a ∷ b ∷ []) = omega arith
    from_bytes_4 (a ∷ b ∷ c ∷ []) = omega arith
    from_bytes_4 (a ∷ b ∷ c ∷ d ∷ xs) = omega arith

-- The vector of an event, and no other, gets the new buffer at its end.
pub find-add_buffer :
    (b : Buffer) (k : ℕ) (m : EventMap)
    → StdMap.find k (add_buffer b m)
      ≡ (if event_id b == k then some (vector k m ++ b ∷ []) else StdMap.find k m)
unfolding add_buffer
find-add_buffer b k m = elim (Option-cases (StdMap.find (event_id b) m)) [
  | inl e ↦ rw (e, add_buffer) (ground (arith, find-insert_new (event_id b) k (b ∷ []) m e))
  | inr (bufs, e) ↦
      rw (e, add_buffer) (ground (arith, find-update (event_id b) k (bufs ++ b ∷ []) bufs m e))
]

module _ {P : Type 0} (b : Buffer) (d : ShmDriver P) where
  abbrev pub added : ShmDriver P
  added = record d { event_map = add_buffer b d.event_map }

  find-added :
      StdMap.find (event_id b) (add_buffer b d.event_map) ≡ some (pending (event_id b) d ++ b ∷ [])
  find-added = find-add_buffer b (event_id b) d.event_map ∙ rw (==_refl (event_id b))

-- The first buffer of a vector that has one more at its end.
abbrev pub first_of : List Buffer → Buffer → Buffer
first_of [] b = b
first_of (x ∷ xs) b = x

head?-append : (xs : List Buffer) (b : Buffer) → head? (xs ++ b ∷ []) ≡ some (first_of xs b)
head?-append [] b = refl
head?-append (x ∷ xs) b = refl

u32-event_id : (b : Buffer) → u32 (event_id b) ≡ event_id b
u32-event_id b = mod-eq_of_lt (event_id-lt b)

-- The time that `collect` takes from a complete event.
abbrev pub event_time : {P : Type 0} (real : Double) → Buffer → ShmDriver P → real.Real
event_time real b d = real.time_of (bx_id (first_of (pending (event_id b) d) b))

-- The state after an event was handed to the processors.
abbrev pub handed : {P : Type 0} → ℕ → ShmDriver P → List P → ShmDriver P
handed k d ps = record d { evt = k; processors = ps; event_map = StdMap.erase k d.event_map }

module _ {W P : Type 0} (proc : ShmProcessor W P) (real : Double) where
  open real use {Real, time_of}

  -- Where the event does not become complete, the buffer is kept and nothing else happens.
  collect_incomplete :
      (b : Buffer) (w : W) (d : ShmDriver P) (t : Real)
      → (length (pending (event_id b) d ++ b ∷ []) == number_of_data_source d) ≡ false
      → collect proc real b w d t ≡ some (w, added b d, t)
  unfolding collect
  collect_incomplete b w d t more = rw (find-added b d, collect) (rw more)

  -- `processEvent` of a complete event: event 0 is left, any other is handed on.
  process_event_full :
      (k : ℕ) (w : W) (d : ShmDriver P) (bufs : List Buffer)
      → StdMap.find k d.event_map ≡ some bufs
      → (length bufs == number_of_data_source d) ≡ true
      → u32 k ≡ k
      → k ≢ 0
      → process_event proc k w d
        ≡ (run_processors proc k bufs w d.processors >>= λ r. some (r.0, handed k d r.2))
  unfolding process_event
  process_event_full k w d bufs e full fits nonzero =
      rw (e, process_event)
        (rw (full, fits)
          (elim (Bool-cases (k == 0)) [
            | inl zero_id ↦ absurd (nonzero ((==_iff k 0).0 zero_id))
            | inr other ↦ rw other
          ]))

  process_event_zero :
      (w : W) (d : ShmDriver P) (bufs : List Buffer)
      → StdMap.find 0 d.event_map ≡ some bufs
      → process_event proc 0 w d ≡ some (w, d)
  unfolding process_event
  process_event_zero w d bufs e =
      rw (e, process_event)
        (elim (Bool-cases (length bufs == number_of_data_source d)) [
          | inl full ↦ rw full
          | inr more ↦ rw more
        ])

  -- Where it does, and the event is not event 0, each processor gets its vector, and the event
  -- leaves the map.
  collect_complete :
      (b : Buffer) (w : W) (d : ShmDriver P) (t : Real)
      → (length (pending (event_id b) d ++ b ∷ []) == number_of_data_source d) ≡ true
      → event_id b ≢ 0
      → collect proc real b w d t ≡ (
          run_processors proc (event_id b) (pending (event_id b) d ++ b ∷ []) w d.processors
          >>= λ r. some (r.0, handed (event_id b) (added b d) r.2, event_time real b d))
  unfolding collect number_of_data_source
  collect_complete b w d t full nonzero =
      rw (find-added b d, collect)
        (rw (full, head?-append (pending (event_id b) d) b, u32-event_id b)
          (ap (λ m. m >>= λ r. some (r.0, r.1, event_time real b d)) handed_on
            ∙ >>=-some
                (run_processors proc (event_id b) (pending (event_id b) d ++ b ∷ []) w d.processors)
                (λ r. (r.0, handed (event_id b) (added b d) r.2))
                (λ r. some (r.0, r.1, event_time real b d))))
    where
      handed_on : process_event proc (event_id b) w (added b d) ≡ (
          run_processors proc (event_id b) (pending (event_id b) d ++ b ∷ []) w d.processors
          >>= λ r. some (r.0, handed (event_id b) (added b d) r.2))
      handed_on =
          process_event_full (event_id b) w (added b d) (pending (event_id b) d ++ b ∷ [])
            (find-added b d) full (u32-event_id b) nonzero

  collect_zero :
      (b : Buffer) (w : W) (d : ShmDriver P) (t : Real)
      → (length (pending (event_id b) d ++ b ∷ []) == number_of_data_source d) ≡ true
      → event_id b ≡ 0
      → collect proc real b w d t ≡ some (w, added b d, event_time real b d)
  unfolding collect
  collect_zero b w d t full zero_id =
      rw (find-added b d, collect)
        (rw (full, head?-append (pending (event_id b) d) b)
          (ap (λ m. m >>= λ r. some (r.0, r.1, event_time real b d)) left_alone))
    where
      left_alone : process_event proc (u32 (event_id b)) w (added b d) ≡ some (w, added b d)
      left_alone =
          ap (λ k. process_event proc k w (added b d)) (u32-event_id b ∙ zero_id)
          ∙ process_event_zero w (added b d) (pending (event_id b) d ++ b ∷ [])
              (ap (λ k. StdMap.find k (add_buffer b d.event_map)) (sym zero_id) ∙ find-added b d)

  -- One pulled buffer joins the vector of its event. If that makes as many buffers as there are
  -- data sources, the processors get the vector, under the event's id, and the event leaves the
  -- map; event 0 stays in the map, and no processor sees it. In both cases the time of the
  -- vector's first buffer is the new write time. Otherwise nothing else changes.
  pub collect_lem :
      (b : Buffer) (w : W) (d : ShmDriver P) (t : Real)
      → let k = event_id b in
        let bufs = pending k d ++ b ∷ [] in
        collect proc real b w d t ≡ (
          if length bufs == number_of_data_source d
          then (if k == 0
              then some (w, added b d, event_time real b d)
              else run_processors proc k bufs w d.processors >>= λ r.
                  some (r.0, handed k (added b d) r.2, event_time real b d))
          else some (w, added b d, t))
  collect_lem b w d t =
      elim (Bool-cases (length (pending (event_id b) d ++ b ∷ []) == number_of_data_source d)) [
        | inl full ↦ elim (Bool-cases (event_id b == 0)) [
          | inl zero_id ↦
              rw (full, zero_id) (collect_zero b w d t full ((==_iff (event_id b) 0).0 zero_id))
          | inr other ↦
              rw (full, other)
                (collect_complete b w d t full (λ e. cc (other, (==_iff (event_id b) 0).1 e)))
        ]
        | inr more ↦ rw more (collect_incomplete b w d t more)
      ]
