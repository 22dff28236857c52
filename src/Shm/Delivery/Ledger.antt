-- ===== src/Shm/Delivery/Ledger.antt =====
-- src/shmdriver.cxx: event building, seen without the order of the files. The abstract view of a
-- driver is a ledger: for every event the multiset of the buffers that came.
use mathlib.Core.HLevel.{Π_set}
use mathlib.Core.Path.{fun_ext}
use mathlib.Core.List.{append-nil, foldr, perm_middle, Perm}
use mathlib.Core.List.Perm
use mathlib.Core.Quot.{sound}
use mathlib.Mathlib.Data.Multiset.Defs.{Multiset, of_list, Multiset-set}
use mathlib.Mathlib.Data.Multiset.ZeroCons.{cons, cons-swap}
use levbdim.Base.{
  ℕ, ◌≡◌, ◌⊎◌, true, false, refl, ap, ◌∙◌, inl, inr, List, [], ◌∷◌, ◌++◌, some, Bool-cases, ◌==◌,
  if◌then◌else◌, keep,
}
use levbdim.Buffer.{Buffer, event_id}
use levbdim.Shm.Driver.{Double, ShmDriver}
use levbdim.Shm.Scan.{collect_all}
use levbdim.Shm.Delivery.{Log, recorder, of_event, seen, IsSound, Progress}
use levbdim.Shm.Delivery.Run.{collect_all-Progress}

abbrev pub Ledger : Type 0
Ledger = ℕ → Multiset Buffer

-- Specification: a buffer joins those of its event.
abbrev pub arrive : Buffer → Ledger → Ledger
arrive b s k = if event_id b == k then cons b (s k) else s k

abbrev pub arrive_all : List Buffer → Ledger → Ledger
arrive_all bs s = foldr arrive s bs

-- What a driver and its recording processor have seen, without order.
abbrev pub ledger : Log → ShmDriver Log → Ledger
ledger log d k = of_list (seen k log d)

arrive_comm : (a b : Buffer) (s : Ledger) → arrive a (arrive b s) ≡ arrive b (arrive a s)
arrive_comm a b s =
    fun_ext (λ k. at k (Bool-cases (event_id a == k)) (Bool-cases (event_id b == k)))
  where
    at :
        (k : ℕ)
        → ((event_id a == k) ≡ true) ⊎ ((event_id a == k) ≡ false)
        → ((event_id b == k) ≡ true) ⊎ ((event_id b == k) ≡ false)
        → arrive a (arrive b s) k ≡ arrive b (arrive a s) k
    at k (inl e) (inl e') = rw (e, e') (cons-swap a b (s k))
    at k (inl e) (inr e') = rw (e, e')
    at k (inr e) (inl e') = rw (e, e')
    at k (inr e) (inr e') = rw (e, e')

-- The order of arrival does not matter to the specification.
pub arrive_all-perm :
    {bs bs' : List Buffer} (s : Ledger) → Perm bs bs' → arrive_all bs s ≡ arrive_all bs' s
arrive_all-perm s p = Perm.foldr-eq (Π_set (λ _. Multiset-set)) arrive arrive_comm p s

arrives :
    (k : ℕ) (xs bs : List Buffer) (s : Ledger)
    → of_list xs ≡ s k
    → of_list (xs ++ of_event k bs) ≡ arrive_all bs s k
unfolding keep
arrives k xs [] s e = ap of_list (append-nil xs) ∙ e
arrives k xs (b ∷ bs) s e = elim (Bool-cases (event_id b == k)) [
  | inl hit ↦ rw hit (sound (perm_middle xs (of_event k bs)) ∙ ap (cons b) (arrives k xs bs s e))
  | inr miss ↦ rw miss (arrives k xs bs s e)
]

pub Progress-refines :
    (bs : List Buffer) (log log' : Log) (d d' : ShmDriver Log)
    → Progress log d bs log' d'
    → ledger log' d' ≡ arrive_all bs (ledger log d)
Progress-refines bs log log' d d' p =
    fun_ext (λ k. ap of_list (p.balance k) ∙ arrives k (seen k log d) bs (ledger log d) refl)

module _ {W : Type 0} (real : Double) where
  open real use {Real}

  -- Event building implements the specification. On a driver in order (`IsSound`), with a recording
  -- processor: pulling any buffers runs without a fault, and afterwards the recorded and the
  -- waiting buffers, taken as multisets by event, are those of before with each pulled buffer added
  -- to its event.
  pub collect_all-refines :
      (bs : List Buffer) (w : W) (log : Log) (d : ShmDriver Log) (t : Real)
      → IsSound log d
      → (d' : ShmDriver Log) × (t' : Real) × (log' : Log) × (collect_all recorder real bs w d t
          ≡ some (w, d', t'))
        × (ledger log' d' ≡ arrive_all bs (ledger log d))
  collect_all-refines bs w log d t r =
      let (d', t', log', done, p) = collect_all-Progress real bs w log d t r in
      (d', t', log', done, Progress-refines bs log log' d d' p)
