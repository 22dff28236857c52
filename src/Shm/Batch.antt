-- ===== src/Shm/Batch.antt =====
-- src/shmdriver.cxx, `processEvents`: all complete events at once.
use native.Mathlib.Nat.{mod-eq_of_lt}
use mathlib.Core.List.{append_assoc, append-nil}
use levbdim.Base.{
  ℕ, ◌<◌, ◌^◌, ◌≡◌, refl, sym, ap, ◌∙◌, inl, inr, List, [], ◌∷◌, ◌++◌, some, Bool, not, ◌&&◌, ◌==◌,
  Bool-cases, length, keep, All, arith,
}
use levbdim.Buffer.{Buffer}
use levbdim.Shm.Driver.{
  ShmProcessor, Double, EventMap, ShmDriver, number_of_data_source, run_processors,
}
use levbdim.Shm.Scan.{process_full, drop_full, process_events}
use levbdim.Shm.Delivery.{Log, recorder}

-- The entries of the map that are handed on, and those that stay.
abbrev pub is_handed : ℕ → ℕ × List Buffer → Bool
is_handed n (k, bufs) = (length bufs == n) && not (k == 0)

abbrev pub is_waiting : ℕ → ℕ × List Buffer → Bool
is_waiting n (k, bufs) = not (length bufs == n)

-- The id of the last entry.
abbrev pub last_id : EventMap → ℕ → ℕ
last_id [] evt = evt
last_id ((k, bufs) ∷ m) evt = last_id m k

drop_full_lem :
    {W P : Type 0} (proc : ShmProcessor W P) (real : Double) (n : ℕ) (m : EventMap)
    → drop_full {W = W} {P = P} proc real n m ≡ keep (is_waiting n) m
unfolding drop_full keep
drop_full_lem proc real n [] = refl
drop_full_lem proc real n ((k, bufs) ∷ m) = ground (arith, drop_full_lem proc real n m)

module _ {W : Type 0} (real : Double) (n : ℕ) (w : W) where
  process_full_lem :
      (m : EventMap) (log : Log) (evt : ℕ)
      → All (λ e. e.0 < 2 ^ 32) m
      → process_full recorder real n m w (log ∷ []) evt
        ≡ some (w, (log ++ keep (is_handed n) m) ∷ [], last_id (keep (is_handed n) m) evt)
  unfolding process_full keep run_processors
  process_full_lem [] log evt a = ap (λ (l : Log). some (w, l ∷ [], evt)) (sym (append-nil log))
  process_full_lem ((k, bufs) ∷ m) log evt a = elim (Bool-cases (length bufs == n)) [
    | inr more ↦ rw (more, process_full) (process_full_lem m log evt a.1)
    | inl full ↦ elim (Bool-cases (k == 0)) [
      | inl zero_id ↦ rw (full, zero_id, process_full) (process_full_lem m log evt a.1)
      | inr other ↦
          rw (full, other, process_full)
            (ap (λ (i : ℕ). process_full recorder real n m w ((log ++ (i, bufs) ∷ []) ∷ []) i)
                (mod-eq_of_lt a.0)
              ∙ process_full_lem m (log ++ (k, bufs) ∷ []) k a.1
              ∙ ap (λ (l : Log). some (w, l ∷ [], last_id (keep (is_handed n) m) k))
                  (append_assoc log ((k, bufs) ∷ []) (keep (is_handed n) m)))
    ]
  ]

-- A round of `processEvents`, with a recording processor, on a map whose ids have 32 bits: the
-- complete events other than event 0 are handed on, in the order of their ids, each with its
-- vector; the last of them is the current event; and of the map all incomplete events stay, and
-- no other, so that a complete event 0 is dropped without having been handed on.
pub process_events_lem :
    {W : Type 0} (real : Double) (w : W) (log : Log) (d : ShmDriver Log)
    → d.processors ≡ log ∷ []
    → All (λ e. e.0 < 2 ^ 32) d.event_map
    → let n = number_of_data_source d in
      let handed_on = keep (is_handed n) d.event_map in
      process_events recorder real w d
      ≡ some (
        w,
        record d {
          processors = (log ++ handed_on) ∷ [];
          evt = last_id handed_on d.evt;
          event_map = keep (is_waiting n) d.event_map;
        },
      )
unfolding process_events
process_events_lem {W} real w log d one small =
    let n = number_of_data_source d in
    rw (one, process_events)
      (rw (process_full_lem real n w d.event_map log d.evt small) (
        ap
          (λ (m : EventMap). some (
            w,
            record d {
              processors = (log ++ keep (is_handed n) d.event_map) ∷ [];
              evt = last_id (keep (is_handed n) d.event_map) d.evt;
              event_map = m;
            },
          ))
          (drop_full_lem {W = W} {P = Log} recorder real n d.event_map)))
