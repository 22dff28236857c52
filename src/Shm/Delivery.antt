-- ===== src/Shm/Delivery.antt =====
-- src/shmdriver.cxx: over any sequence of pulled buffers, which buffers reach the processors.
pub mod Run
pub mod Round
pub mod Ledger
use mathlib.Core.List.{append_assoc, append-nil}
use levbdim.Base.{
  ℕ, ◌≡◌, ◌≢◌, ◌⊎◌, ◌<◌, length-append, arith, false, refl, sym, ap, subst, ◌∙◌, inl, inr, List, [],
  ◌∷◌, ◌++◌, some, true, if◌then◌else◌, ◌==◌, ==_iff, length, All, All-append, keep, keep-append,
  Option-cases, Bool-cases,
}
use levbdim.Base.StdMap
use levbdim.Base.StdMap.{
  StdMap, nat_key, find-insert_new, find-update, find-erase, All-place, All-update, All-erase,
  find-All, All-erase_self, IsDistinct, IsDistinct-place, IsDistinct-update,
}
use levbdim.Buffer.{Buffer, event_id}
use levbdim.Shm.Driver.{
  ShmProcessor, Double, EventMap, ShmDriver, number_of_data_source, run_processors, pending,
  or_empty, vector,
}
use levbdim.Shm.Scan.{add_buffer, collect, collect_all}
use levbdim.Shm.Build.{find-add_buffer, added, handed, collect_lem, event_time}

-- A processor that keeps the calls of `processEvent`, in order.
abbrev pub Log : Type 0
Log = List (ℕ × List Buffer)

abbrev pub recorder : {W : Type 0} → ShmProcessor W Log
recorder = record {
  start = λ nr w log. (w, log);
  stop = λ w log. (w, log);
  process_event = λ key bufs w log. some (w, bufs, log ++ (key, bufs) ∷ []);
  process_run_header = λ header w log. some (w, log);
}

-- The buffers that were handed on under a key, in order.
unfoldable pub delivered : ℕ → Log → List Buffer
delivered k [] = []
delivered k ((j, bufs) ∷ log) = (if j == k then bufs else []) ++ delivered k log

delivered-append :
    (k j : ℕ) (bufs : List Buffer) (log : Log)
    → delivered k (log ++ (j, bufs) ∷ []) ≡ delivered k log ++ (if j == k then bufs else [])
unfolding delivered
delivered-append k j bufs [] = append-nil (if j == k then bufs else [])
delivered-append k j bufs ((i, bufs') ∷ log) =
    ap (◌++◌ (if i == k then bufs' else [])) (delivered-append k j bufs log)
    ∙ sym (
        append_assoc (if i == k then bufs' else []) (delivered k log) (if j == k then bufs else []))

-- The buffers of an event among those that were pulled.
abbrev pub of_event : ℕ → List Buffer → List Buffer
of_event k bs = keep (λ b. event_id b == k) bs

module _ {P : Type 0} where
  pending-added :
      (k : ℕ) (b : Buffer) (d : ShmDriver P)
      → pending k (added b d) ≡ pending k d ++ of_event k (b ∷ [])
  unfolding keep
  pending-added k b d =
      ap or_empty (find-add_buffer b k d.event_map) ∙ elim (Bool-cases (event_id b == k)) [
        | inl e ↦ rw e
        | inr e ↦ rw e (sym (append-nil (pending k d)))
      ]

  pending-handed :
      (k j : ℕ) (d : ShmDriver P) (ps : List P)
      → pending k (handed j d ps) ≡ (if j == k then [] else pending k d)
  pending-handed k j d ps =
      ap or_empty (find-erase j k d.event_map)
      ∙ elim (Bool-cases (j == k)) [ inl e ↦ rw e | inr e ↦ rw e ]

-- What is recorded or waits, for one event.
abbrev pub seen : ℕ → Log → ShmDriver Log → List Buffer
seen k log d = delivered k log ++ pending k d

-- A driver whose one processor records.
abbrev pub Records : Log → ShmDriver Log → Type 0
Records log d = d.processors ≡ log ∷ []

-- Each recorded vector has one buffer per data source, all of the event that it is filed under.
abbrev pub IsComplete : ℕ → ℕ × List Buffer → Type 0
IsComplete n e = (length e.1 ≡ n) × (e.0 ≢ 0) × All (λ b. event_id b ≡ e.0) e.1

-- The buffers that wait are filed under their own event.
abbrev pub IsFiled : ℕ × List Buffer → Type 0
IsFiled e = All (λ b. event_id b ≡ e.0) e.1

-- An event other than event 0 waits only as long as buffers are missing.
abbrev pub IsOpen : ℕ → ℕ × List Buffer → Type 0
IsOpen n e = (e.0 ≡ 0) ⊎ (length e.1 < n)

All-add_buffer :
    (P : ℕ × List Buffer → Type 0) (b : Buffer) (m : EventMap)
    → P (event_id b, vector (event_id b) m ++ b ∷ [])
    → All P m
    → All P (add_buffer b m)
unfolding add_buffer StdMap.insert
All-add_buffer P b m h a = elim (Option-cases (StdMap.find (event_id b) m)) [
  | inl e ↦
      rw (e, add_buffer)
        (rw (e, StdMap.insert)
          (All-place P (event_id b) (b ∷ []) m
            (subst (λ o. P (event_id b, or_empty o ++ b ∷ [])) e h) a))
  | inr (bufs, e) ↦
      rw (e, add_buffer)
        (All-update P (event_id b) (bufs ++ b ∷ []) m
          (subst (λ o. P (event_id b, or_empty o ++ b ∷ [])) e h) a)
]

pending-IsFiled :
    {P : Type 0} (k : ℕ) (d : ShmDriver P)
    → All IsFiled d.event_map
    → All (λ b. event_id b ≡ k) (pending k d)
pending-IsFiled k d a = elim (Option-cases (StdMap.find k d.event_map)) [
  | inl e ↦ subst (λ o. All (λ b. event_id b ≡ k) (or_empty o)) (sym e) tt
  | inr (bufs, e) ↦
      subst (λ o. All (λ b. event_id b ≡ k) (or_empty o)) (sym e)
        (find-All IsFiled k d.event_map a e)
]

add_buffer-IsFiled :
    {P : Type 0} (b : Buffer) (d : ShmDriver P)
    → All IsFiled d.event_map
    → All IsFiled (add_buffer b d.event_map)
add_buffer-IsFiled b d a =
    All-add_buffer IsFiled b d.event_map
      (All-append (λ c. event_id c ≡ event_id b) (pending (event_id b) d) (b ∷ [])
        (pending-IsFiled (event_id b) d a) (refl, tt))
      a

pub pending-IsOpen :
    {P : Type 0} (k n : ℕ) (d : ShmDriver P)
    → 0 < n
    → All (IsOpen n) d.event_map
    → (k ≡ 0) ⊎ (length (pending k d) < n)
pending-IsOpen k n d some_source a = elim (Option-cases (StdMap.find k d.event_map)) [
  | inl e ↦ subst (λ o. (k ≡ 0) ⊎ (length (or_empty o) < n)) (sym e) (inr some_source)
  | inr (bufs, e) ↦
      subst (λ o. (k ≡ 0) ⊎ (length (or_empty o) < n)) (sym e)
        (find-All (IsOpen n) k d.event_map a e)
]

-- A buffer that does not complete its event leaves the event open.
add_buffer-IsOpen :
    {P : Type 0} (b : Buffer) (n : ℕ) (d : ShmDriver P)
    → 0 < n
    → (event_id b ≡ 0) ⊎ ((length (pending (event_id b) d ++ b ∷ []) == n) ≡ false)
    → All (IsOpen n) d.event_map
    → All (IsOpen n) (add_buffer b d.event_map)
add_buffer-IsOpen b n d some_source why a =
    All-add_buffer (IsOpen n) b d.event_map
      (joined why (pending-IsOpen (event_id b) n d some_source a)) a
  where
    joined :
        (event_id b ≡ 0) ⊎ ((length (pending (event_id b) d ++ b ∷ []) == n) ≡ false)
        → (event_id b ≡ 0) ⊎ (length (pending (event_id b) d) < n)
        → IsOpen n (event_id b, pending (event_id b) d ++ b ∷ [])
    joined (inl zero_id) fewer = inl zero_id
    joined (inr more) (inl zero_id) = inl zero_id
    joined (inr more) (inr fewer) =
        inr (ground (arith, length-append (pending (event_id b) d) (b ∷ [])))

-- A waiting event has a buffer.
abbrev pub IsBegun : ℕ × List Buffer → Type 0
IsBegun e = 0 < length e.1

add_buffer-IsBegun : (b : Buffer) (m : EventMap) → All IsBegun m → All IsBegun (add_buffer b m)
add_buffer-IsBegun b m a =
    All-add_buffer IsBegun b m (omega (arith, length-append (vector (event_id b) m) (b ∷ []))) a

pub add_buffer-IsDistinct : (b : Buffer) (m : EventMap) → IsDistinct m → IsDistinct (add_buffer b m)
unfolding add_buffer StdMap.insert
add_buffer-IsDistinct b m u = elim (Option-cases (StdMap.find (event_id b) m)) [
  | inl e ↦
      rw (e, add_buffer) (rw (e, StdMap.insert) (IsDistinct-place (event_id b) (b ∷ []) m e u))
  | inr (bufs, e) ↦ rw (e, add_buffer) (IsDistinct-update (event_id b) (bufs ++ b ∷ []) m u)
]

-- Handing an event on leaves the other events as they were.
handed-IsOpen :
    {P : Type 0} (b : Buffer) (n : ℕ) (d : ShmDriver P)
    → All (IsOpen n) d.event_map
    → All (IsOpen n) (StdMap.erase (event_id b) (add_buffer b d.event_map))
handed-IsOpen b n d a = All-erase_self (IsOpen n) (event_id b) (add_buffer b d.event_map) (
    All-add_buffer (λ e. (e.0 ≡ event_id b) ⊎ IsOpen n e) b d.event_map (inl refl)
      (All-weaken d.event_map a))
  where
    All-weaken : (m : EventMap) → All (IsOpen n) m → All (λ e. (e.0 ≡ event_id b) ⊎ IsOpen n e) m
    All-weaken [] a = tt
    All-weaken (e ∷ m) a = (inr a.0, All-weaken m a.1)

-- A driver with a recording processor in which all is in order.
pub record IsSound (log : Log) (d : ShmDriver Log) : Type 0 where
  pub records : Records log d
  pub complete : All (IsComplete (number_of_data_source d)) log
  pub filed : All IsFiled d.event_map
  pub registered : 0 < number_of_data_source d
  pub open_events : All (IsOpen (number_of_data_source d)) d.event_map
  pub begun : All IsBegun d.event_map
  pub distinct : IsDistinct d.event_map

-- From a recording driver with `log` to one with `log'`, by pulling `bs`.
pub record Progress (log : Log) (d : ShmDriver Log) (bs : List Buffer) (log' : Log)
    (d' : ShmDriver Log) : Type 0 where
  pub sound : IsSound log' d'
  pub same_dir : d'.memdir ≡ d.memdir
  pub sources : number_of_data_source d' ≡ number_of_data_source d
  pub balance : (k : ℕ) → seen k log' d' ≡ seen k log d ++ of_event k bs
