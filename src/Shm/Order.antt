-- ===== src/Shm/Order.antt =====
-- src/shmdriver.cxx: the order in which files are pulled does not matter to what is built.
use mathlib.Core.List.{foldr, Perm}
use mathlib.Core.List.Perm
use mathlib.Mathlib.Data.Multiset.Defs.{coe-eq-coe}
use native.Mathlib.Nat.{ℕ_set}
use levbdim.Base.{
  ℕ, zero, suc, ◌+◌, ◌*◌, ◌<◌, ◌≡◌, ◌≢◌, ◌⊎◌, inl, inr, refl, sym, ap, subst, ◌∙◌, List, [], ◌∷◌,
  some, All, arith, length, length-append,
}
use levbdim.Buffer.{Buffer}
use levbdim.Shm.Driver.{Double, ShmDriver, number_of_data_source, pending}
use levbdim.Shm.Scan.{collect_all}
use levbdim.Shm.Delivery.{Log, recorder, delivered, seen, IsComplete, IsSound, pending-IsOpen}
use levbdim.Shm.Delivery.Run.{collect_all-Progress}
use levbdim.Shm.Delivery.Ledger.{ledger, arrive_all-perm, Progress-refines}
use levbdim.Shm.Live.{times, length-delivered}

length-foldr : (xs : List Buffer) → length xs ≡ foldr (λ _ n. suc n) 0 xs
length-foldr [] = refl
length-foldr (x ∷ xs) = ap suc (length-foldr xs)

length-perm : (xs ys : List Buffer) → Perm xs ys → length xs ≡ length ys
length-perm xs ys p =
    length-foldr xs
    ∙ Perm.foldr-eq ℕ_set (λ (_ : Buffer) n. suc n) (λ a b x. refl) p 0
    ∙ sym (length-foldr ys)

-- Whole vectors of `n` and fewer than `n` left over, twice, of the same length in all.
same_parts :
    (n t t' left left' : ℕ)
    → t * n + left ≡ t' * n + left'
    → left < n
    → left' < n
    → (t ≡ t') × (left ≡ left')
same_parts n zero zero left left' e small small' = (refl, omega arith)
same_parts n zero (suc t') left left' e small small' = absurd (grind arith)
same_parts n (suc t) zero left left' e small small' = absurd (grind arith)
same_parts n (suc t) (suc t') left left' e small small' =
    let (same, same') = same_parts n t t' left left' (grind arith) small small' in
    (ap suc same, same')

module _ (k n : ℕ) (log : Log) (d : ShmDriver Log) (other : k ≢ 0) (r : IsSound log d)
    (sources : number_of_data_source d ≡ n) where
  few : length (pending k d) < n
  few = from (pending-IsOpen k (number_of_data_source d) d r.registered r.open_events)
    where
      from : (k ≡ 0) ⊎ (length (pending k d) < number_of_data_source d) → length (pending k d) < n
      from (inl zero_id) = absurd (other zero_id)
      from (inr fewer) = omega (arith, fewer, sources)

  length-seen : length (seen k log d) ≡ times k log * n + length (pending k d)
  length-seen = omega (
    arith,
    length-append (delivered k log) (pending k d),
    length-delivered k n log (subst (λ i. All (IsComplete i) log) sources r.complete),
  )

module _ {W : Type 0} (real : Double) where
  open real use {Real}

  -- The same buffers, pulled in two orders, on a driver in order (`IsSound`) with a recording
  -- processor: both runs end without a fault, and of any event other than event 0 as many vectors
  -- have been handed on in one as in the other, as many buffers wait, and what was handed on or
  -- waits is the same, as a multiset.
  pub collect_all-perm :
      (bs bs' : List Buffer) (w : W) (log : Log) (d : ShmDriver Log) (t : Real) (k : ℕ)
      → IsSound log d
      → Perm bs bs'
      → k ≢ 0
      → (d₁ d₂ : ShmDriver Log) × (t₁ t₂ : Real) × (log₁ log₂ : Log) × (collect_all recorder real bs
            w d t
          ≡ some (w, d₁, t₁))
        × (collect_all recorder real bs' w d t ≡ some (w, d₂, t₂))
        × (times k log₁ ≡ times k log₂)
        × (length (pending k d₁) ≡ length (pending k d₂))
        × (ledger log₁ d₁ k ≡ ledger log₂ d₂ k)
  collect_all-perm bs bs' w log d t k r p other =
      let (d₁, t₁, log₁, done₁, p₁) = collect_all-Progress real bs w log d t r in
      let (d₂, t₂, log₂, done₂, p₂) = collect_all-Progress real bs' w log d t r in
      let same : ledger log₁ d₁ ≡ ledger log₂ d₂ =
        Progress-refines bs log log₁ d d₁ p₁
        ∙ arrive_all-perm (ledger log d) p
        ∙ sym (Progress-refines bs' log log₂ d d₂ p₂) in
      let all : length (seen k log₁ d₁) ≡ length (seen k log₂ d₂) =
        length-perm (seen k log₁ d₁) (seen k log₂ d₂) (coe-eq-coe.0 (λ i. same i k)) in
      let n : ℕ = number_of_data_source d in
      let (often, left) =
        same_parts n (times k log₁) (times k log₂) (length (pending k d₁)) (length (pending k d₂))
          (sym (length-seen k n log₁ d₁ other p₁.sound p₁.sources)
            ∙ all
            ∙ length-seen k n log₂ d₂ other p₂.sound p₂.sources)
          (few k n log₁ d₁ other p₁.sound p₁.sources) (few k n log₂ d₂ other p₂.sound p₂.sources) in
      (d₁, d₂, t₁, t₂, log₁, log₂, done₁, done₂, often, left, λ i. same i k)
