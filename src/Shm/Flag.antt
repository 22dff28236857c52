-- ===== src/Shm/Flag.antt =====
-- src/shmdriver.cxx: what the scanning thread does in a round does not depend on `_running`, which
-- `stop` clears meanwhile, and leaves it alone.
use levbdim.Base.{
  ℕ, ◌≡◌, refl, sym, ◌∙◌, inl, inr, List, [], ◌∷◌, Option, some, Bool, ◌>>=◌, ◌==◌, ◌%◌, length,
  Str, Option-cases, Bool-cases, >>=-some,
}
use levbdim.Base.StdMap
use levbdim.Base.StdMap.{nat_key}
use levbdim.Buffer.{Bytes, Buffer, new_buffer, event_id, bx_id, u32}
use levbdim.Shm.Posix.{FileSystem}
use levbdim.Shm.Files.{ls, purge_shm, pull}
use levbdim.Shm.Driver.{
  ShmProcessor, Double, ShmDriver, number_of_data_source, run_processors, process_event,
}
use levbdim.Shm.Scan.{
  collect, add_buffer, clean_buffer_map, stale, scan_files, clean_after, scan_round,
}

module _ {P : Type 0} where
  abbrev pub flagged : Bool → ShmDriver P → ShmDriver P
  flagged running d = record d { running = running }

module _ {W P : Type 0} (proc : ShmProcessor W P) (real : Double) (r : Bool) where
  open real use {Real}

  process_event-flagged :
      (k : ℕ) (w : W) (d : ShmDriver P)
      → process_event proc k w (flagged r d)
        ≡ (process_event proc k w d >>= λ o. some (o.0, flagged r o.1))
  unfolding process_event number_of_data_source
  process_event-flagged k w d = elim (Option-cases (StdMap.find k d.event_map)) [
    | inl e ↦ rw (e, process_event)
    | inr (bufs, e) ↦ elim (Bool-cases (length bufs == number_of_data_source d)) [
      | inr more ↦ rw (e, process_event) (rw more refl)
      | inl full ↦ elim (Bool-cases (k == 0)) [
        | inl zero_id ↦ rw (e, process_event) (rw (full, zero_id) refl)
        | inr other ↦ elim (Option-cases (run_processors proc (u32 k) bufs w d.processors)) [
          | inl fault ↦ rw (e, process_event) (rw (full, other, fault) refl)
          | inr (o, done) ↦ rw (e, process_event) (rw (full, other, done) refl)
        ]
      ]
    ]
  ]

  collect-flagged :
      (b : Buffer) (w : W) (d : ShmDriver P) (t : Real)
      → collect proc real b w (flagged r d) t
        ≡ (collect proc real b w d t >>= λ o. some (o.0, flagged r o.1, o.2))
  unfolding collect number_of_data_source
  collect-flagged b w d t =
      elim (Option-cases (StdMap.find (event_id b) (add_buffer b d.event_map))) [
        | inl e ↦ rw (e, collect)
        | inr ([], e) ↦ elim (Bool-cases (0 == number_of_data_source d)) [
          | inr more ↦ rw (e, collect) (rw more refl)
          | inl full ↦ rw (e, collect) (rw full refl)
        ]
        | inr (c ∷ bufs, e) ↦ elim (Bool-cases (length (c ∷ bufs) == number_of_data_source d)) [
          | inr more ↦ rw (e, collect) (rw more refl)
          | inl full ↦ rw (e, collect) (rw full (handed c))
        ]
      ]
    where
      m : Option (W × ShmDriver P)
      m =
          process_event proc (u32 (event_id b)) w
            (record d { event_map = add_buffer b d.event_map })

      timed : Buffer → W × ShmDriver P → Option (W × ShmDriver P × Real)
      timed c o = some (o.0, o.1, real.time_of (bx_id c))

      put : W × ShmDriver P × Real → Option (W × ShmDriver P × Real)
      put o = some (o.0, flagged r o.1, o.2)

      handed :
          (c : Buffer)
          → (process_event proc
                (u32 (event_id b))
                w
                (flagged r (record d { event_map = add_buffer b d.event_map }))
              >>= timed c)
            ≡ (m >>= timed c >>= put)
      handed c =
          rw
            (process_event-flagged (u32 (event_id b)) w
              (record d { event_map = add_buffer b d.event_map }))
            (>>=-some m _ (timed c) ∙ sym (>>=-some m _ put))

module _ (fs : FileSystem) {P : Type 0} (proc : ShmProcessor fs.Disk P) (real : Double)
    (junk : Str → Bytes) (r : Bool) where
  open fs use {Disk}
  open real use {Real, nonzero}

  scan_files-flagged :
      (files : List Str) (disk : Disk) (d : ShmDriver P) (t : Real)
      → scan_files fs proc real junk files disk (flagged r d) t
        ≡ (scan_files fs proc real junk files disk d t >>= λ o. some (o.0, flagged r o.1, o.2))
  unfolding scan_files
  scan_files-flagged [] disk d t = refl
  scan_files-flagged (file ∷ files) disk d t =
      let b = (pull fs file (new_buffer (junk file)) d.memdir disk).0 in
      let disk' = (pull fs file (new_buffer (junk file)) d.memdir disk).1 in
      elim (Option-cases (collect proc real b disk' d t)) [
        | inl fault ↦ rw (collect-flagged proc real r b disk' d t, fault) refl
        | inr (o, done) ↦
            rw (collect-flagged proc real r b disk' d t, done)
              (scan_files-flagged files o.0 o.1 o.2)
      ]

  clean_after-flagged :
      (o : Disk × ShmDriver P × Real)
      → clean_after fs proc real junk (o.0, flagged r o.1, o.2)
        ≡ (clean_after fs proc real junk o >>= λ q. some (q.0, flagged r q.1))
  unfolding clean_buffer_map number_of_data_source
  clean_after-flagged (disk, d, t) = elim (Bool-cases (nonzero t)) [
    | inr no_write ↦ rw no_write refl
    | inl write ↦
        rw write (elim (Option-cases (stale real (number_of_data_source d) t 10 d.event_map)) [
          | inl fault ↦ rw fault refl
          | inr (ks, done) ↦ rw done refl
        ])
  ]

  -- A round with the flag cleared is the round with the flag set, but for the flag.
  pub scan_round-flagged :
      (disk : Disk) (d : ShmDriver P)
      → scan_round fs proc real junk disk (flagged r d)
        ≡ (scan_round fs proc real junk disk d >>= λ o. some (o.0, flagged r o.1))
  unfolding scan_round number_of_data_source
  scan_round-flagged disk d =
      let files = ls fs d.memdir disk in
      let n = number_of_data_source d in
      elim (Bool-cases (length files == 0)) [
        | inl nothing ↦ rw nothing refl
        | inr found ↦ elim (Bool-cases (n == 0)) [
          | inl no_source ↦ rw (found, no_source) refl
          | inr sources ↦ elim (Bool-cases (length files % n == 0)) [
            | inr odd ↦ elim (Option-cases (purge_shm fs d.memdir disk)) [
              | inl fault ↦ rw (found, sources, odd, fault) refl
              | inr (disk', purged) ↦ rw (found, sources, odd, purged) refl
            ]
            | inl even ↦
                rw (found, sources, even, scan_files-flagged files disk d real.real_zero)
                  (elim (Option-cases (scan_files fs proc real junk files disk d real.real_zero)) [
                    | inl fault ↦ rw fault refl
                    | inr (o, done) ↦ rw done (clean_after-flagged o)
                  ])
          ]
        ]
      ]
