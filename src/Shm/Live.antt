-- ===== src/Shm/Live.antt =====
-- src/shmdriver.cxx: an event whose buffers have all come is handed on.
use mathlib.Core.List.{append_assoc, append-nil}
use levbdim.Base.{
  subst, ℕ, zero, suc, ◌+◌, ◌*◌, ◌<◌, ◌≡◌, ◌≢◌, ◌⊎◌, refl, sym, ap, ◌∙◌, inl, inr, List, [], ◌∷◌,
  ◌++◌, some, Bool-cases, All, arith, ◌==◌, if◌then◌else◌, length, length-append, Str,
}
use levbdim.Buffer.{Bytes, Buffer}
use levbdim.Shm.Posix.{FileSystem}
use levbdim.Shm.Driver.{Double, ShmDriver, number_of_data_source, pending}
use levbdim.Shm.Scan.{scan_files}
use levbdim.Shm.Delivery.{
  Log, recorder, delivered, of_event, IsComplete, IsSound, Progress, pending-IsOpen,
}
use levbdim.Shm.Delivery.Round.{pulled, scan_files-Progress}

-- How often an event was handed on.
abbrev pub times : ℕ → Log → ℕ
times k [] = 0
times k ((j, bufs) ∷ log) = if j == k then suc (times k log) else times k log

pub length-delivered :
    (k n : ℕ) (log : Log) → All (IsComplete n) log → length (delivered k log) ≡ times k log * n
unfolding delivered
length-delivered k n [] a = omega arith
length-delivered k n ((j, bufs) ∷ log) a = elim (Bool-cases (j == k)) [
  | inl hit ↦
      rw hit
        (omega (arith, length-append bufs (delivered k log), a.0.0, length-delivered k n log a.1))
  | inr miss ↦ rw miss (length-delivered k n log a.1)
]

-- Whole vectors of `n`, and fewer than `n` left over: if one vector more is there in all, none is
-- left over.
none_left : (n before after left : ℕ) → after * n + left ≡ before * n + n → left < n → left ≡ 0
none_left n zero zero left e small = absurd (omega arith)
none_left n zero (suc after) left e small = grind arith
none_left n (suc before) zero left e small = absurd (grind arith)
none_left n (suc before) (suc after) left e small =
    none_left n before after left (grind arith) small

empty : (xs : List Buffer) → length xs ≡ 0 → xs ≡ []
empty [] h = refl
empty (x ∷ xs) h = absurd (omega arith)

pub Progress-delivers :
    (k : ℕ) (log log' : Log) (d d' : ShmDriver Log) (bs : List Buffer)
    → k ≢ 0
    → IsSound log d
    → length (pending k d ++ of_event k bs) ≡ number_of_data_source d
    → Progress log d bs log' d'
    → (pending k d' ≡ []) × (delivered k log' ≡ delivered k log ++ (pending k d ++ of_event k bs))
Progress-delivers k log log' d d' bs other r all p = (
  nothing,
  sym (append-nil (delivered k log'))
      ∙ ap (◌++◌ (delivered k log')) (sym nothing)
      ∙ p.balance k
      ∙ append_assoc (delivered k log) (pending k d) (of_event k bs),
)
  where
    n : ℕ
    n = number_of_data_source d

    few : (k ≡ 0) ⊎ (length (pending k d') < number_of_data_source d') → length (pending k d') < n
    few (inl zero_id) = absurd (other zero_id)
    few (inr fewer) = omega (arith, fewer, p.sources)

    count : times k log' * n + length (pending k d') ≡ times k log * n + n
    count = omega (
      arith,
      length-delivered k n log' (subst (λ i. All (IsComplete i) log') p.sources p.sound.complete),
      length-delivered k n log r.complete,
      length-append (delivered k log') (pending k d'),
      ap length (p.balance k ∙ append_assoc (delivered k log) (pending k d) (of_event k bs)),
      length-append (delivered k log) (pending k d ++ of_event k bs),
      all,
    )

    nothing : pending k d' ≡ []
    nothing = empty (pending k d') (
        none_left n (times k log) (times k log') (length (pending k d')) count (
          few (
            pending-IsOpen k (number_of_data_source d') d' p.sound.registered p.sound.open_events)))

module _ (fs : FileSystem) (real : Double) (junk : Str → Bytes) where
  -- Liveness of event building. On a driver in order (`IsSound`), with a recording processor: when
  -- the files that a pass of `scanMemory` pulls bring the missing buffers of an event other than
  -- event 0, so that there is one per data source, the pass hands on that event: all its buffers
  -- are recorded, in the order in which they came, and none waits any longer.
  pub scan_files-delivers :
      (files : List Str) (disk : fs.Disk) (log : Log) (d : ShmDriver Log) (t : real.Real) (k : ℕ)
      → IsSound log d
      → k ≢ 0
      → length (pending k d ++ of_event k (pulled fs real junk files d.memdir disk))
        ≡ number_of_data_source d
      → (disk' : fs.Disk) × (d' : ShmDriver Log) × (t' : real.Real) × (log' : Log) × (scan_files fs
            recorder real junk files disk d t
          ≡ some (disk', d', t'))
        × (delivered k log'
            ≡ delivered k log
              ++ (pending k d ++ of_event k (pulled fs real junk files d.memdir disk)))
        × (pending k d' ≡ [])
  scan_files-delivers files disk log d t k r other all =
      let (disk', d', t', log', done, p) = scan_files-Progress fs real junk files disk log d t r in
      let (nothing, delivers) =
        Progress-delivers k log log' d d' (pulled fs real junk files d.memdir disk) other r all p in
      (disk', d', t', log', done, delivers, nothing)
