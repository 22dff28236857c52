-- ===== src/Base/StdMap.antt =====
-- `std::map`: an association list that stands in the order of its keys.
use levbdim.Base.Tests.{
  if◌then◌else◌, is_some, Bool-cases, ltb, ◌==◌, ==_iff, Str, str_eq, str_eq_iff,
}
use Prim.Native.Nat.{ℕ}
use mathlib.Core.Path.{◌≡◌, ◌∙◌, refl, subst, ap₂}
use mathlib.Core.Logic.{◌↔◌, ◌⊎◌, inl, inr}
use mathlib.Core.Bool.{Bool, true, false, ◌&&◌, ◌||◌}
use mathlib.Core.Option.{Option, none, some}
use mathlib.Core.List.{List, [], ◌∷◌, map}
use native.Mathlib.Omega.{arith}
use levbdim.Base.Lists.{All}

pub record Key {ℓ} (K : Type ℓ) : Type ℓ where
  pub beq : K → K → Bool
  pub beq_iff : (a b : K) → (beq a b ≡ true) ↔ (a ≡ b)
  pub less : K → K → Bool

unfoldable pub str_less : Str → Str → Bool
str_less [] [] = false
str_less [] (b ∷ t) = true
str_less (a ∷ s) [] = false
str_less (a ∷ s) (b ∷ t) = ltb a b || ((a == b) && str_less s t)

instance abbrev pub nat_key : Key ℕ
nat_key = record { beq = ◌==◌; beq_iff = ==_iff; less = ltb }

instance abbrev pub str_key : Key Str
str_key = record { beq = str_eq; beq_iff = str_eq_iff; less = str_less }

abbrev pub StdMap {ℓ κ} : Type ℓ → Type κ → Type (ℓ ⊔ κ)
StdMap K V = List (K × V)

module _ {ℓ κ} {K : Type ℓ} {V : Type κ} ⦃key : Key K⦄ where
  open key use {beq, beq_iff, less}

  unfoldable pub find : K → StdMap K V → Option V
  find k [] = none
  find k ((j, v) ∷ m) = if beq j k then some v else find k m

  -- Where a new key goes.
  unfoldable pub place : K → V → StdMap K V → StdMap K V
  place k v [] = (k, v) ∷ []
  place k v ((j, w) ∷ m) = if less k j then (k, v) ∷ (j, w) ∷ m else (j, w) ∷ place k v m

  -- `insert` leaves a key that is there alone.
  unfoldable pub insert : K → V → StdMap K V → StdMap K V
  unfolding place find
  insert k v m = elim (find k m) [ none ↦ place k v m | some w ↦ m ]

  -- A write through the iterator that `find` gave.
  unfoldable pub update : K → V → StdMap K V → StdMap K V
  update k v [] = []
  update k v ((j, w) ∷ m) = if beq j k then (j, v) ∷ m else (j, w) ∷ update k v m

  unfoldable pub erase : K → StdMap K V → StdMap K V
  erase k [] = []
  erase k ((j, w) ∷ m) = if beq j k then erase k m else (j, w) ∷ erase k m

  pub find-place :
      (k j : K) (v : V) (m : StdMap K V)
      → find k m ≡ none
      → find j (place k v m) ≡ (if beq k j then some v else find j m)
  unfolding find place
  find-place k j v [] h = refl
  find-place k j v ((i, w) ∷ m) h =
      ground (arith, beq_iff k j, beq_iff i k, beq_iff i j, find-place k j v m)

  pub find-insert_new :
      (k j : K) (v : V) (m : StdMap K V)
      → find k m ≡ none
      → find j (insert k v m) ≡ (if beq k j then some v else find j m)
  unfolding insert
  find-insert_new k j v m h = rw (h, insert) (find-place k j v m h)

  pub find-insert_old : (k : K) (v w : V) (m : StdMap K V) → find k m ≡ some w → insert k v m ≡ m
  unfolding insert
  find-insert_old k v w m h = rw (h, insert)

  pub find-update :
      (k j : K) (v w : V) (m : StdMap K V)
      → find k m ≡ some w
      → find j (update k v m) ≡ (if beq k j then some v else find j m)
  unfolding find update
  find-update k j v w [] h = ground arith
  find-update k j v w ((i, u) ∷ m) h =
      ground (arith, beq_iff k j, beq_iff i k, beq_iff i j, find-update k j v w m)

  pub find-erase :
      (k j : K) (m : StdMap K V) → find j (erase k m) ≡ (if beq k j then none else find j m)
  unfolding find erase
  find-erase k j [] = ground arith
  find-erase k j ((i, u) ∷ m) =
      ground (arith, beq_iff k j, beq_iff i k, beq_iff i j, find-erase k j m)

  pub find-update-none :
      (k j : K) (v : V) (m : StdMap K V) → find j m ≡ none → find j (update k v m) ≡ none
  unfolding find update
  find-update-none k j v [] h = refl
  find-update-none k j v ((i, w) ∷ m) h =
      ground (arith, beq_iff i j, beq_iff i k, find-update-none k j v m)

  -- A write through an iterator changes the entry of its key alone, if there is one.
  pub find-update_any :
      (k j : K) (v : V) (m : StdMap K V)
      → find j (update k v m) ≡ (if beq k j && is_some (find k m) then some v else find j m)
  unfolding find update
  find-update_any k j v [] = ground arith
  find-update_any k j v ((i, w) ∷ m) =
      ground (arith, beq_iff k j, beq_iff i k, beq_iff i j, find-update_any k j v m)

  abbrev pub keys : StdMap K V → List K
  keys = map (λ e. e.0)

  module _ {μ} (P : K × V → Type μ) where
    pub All-place : (k : K) (v : V) (m : StdMap K V) → P (k, v) → All P m → All P (place k v m)
    unfolding place
    All-place k v [] h a = (h, tt)
    All-place k v ((j, w) ∷ m) h a = ground (arith, All-place k v m h a.1)

    pub All-erase : (k : K) (m : StdMap K V) → All P m → All P (erase k m)
    unfolding erase
    All-erase k [] a = tt
    All-erase k ((j, w) ∷ m) a = ground (arith, All-erase k m a.1)

    -- What holds of the entries under other keys holds of all that an `erase` leaves.
    pub All-erase_self : (k : K) (m : StdMap K V) → All (λ e. (e.0 ≡ k) ⊎ P e) m → All P (erase k m)
    unfolding erase
    All-erase_self k [] a = tt
    All-erase_self k ((j, w) ∷ m) a = elim (Bool-cases (beq j k)) [
      | inl hit ↦ rw hit (All-erase_self k m a.1)
      | inr miss ↦ rw miss (other miss a.0, All-erase_self k m a.1)
    ]
      where
        other : beq j k ≡ false → (j ≡ k) ⊎ P (j, w) → P (j, w)
        other miss (inl e) = ground (arith, beq_iff j k)
        other miss (inr p) = p

    pub find-All : (k : K) (m : StdMap K V) {v : V} → All P m → find k m ≡ some v → P (k, v)
    unfolding find
    find-All k [] a h = ground arith
    find-All k ((j, w) ∷ m) {v} a h = elim (Bool-cases (beq j k)) [
      | inl hit ↦ subst P (ap₂ (λ x y. (x, y)) ((beq_iff j k).0 hit) (ground arith)) a.0
      | inr miss ↦ find-All k m a.1 (ground arith)
    ]

    pub All-update : (k : K) (v : V) (m : StdMap K V) → P (k, v) → All P m → All P (update k v m)
    unfolding update
    All-update k v [] h a = tt
    All-update k v ((j, w) ∷ m) h a = ground (arith, beq_iff j k, All-update k v m h a.1)

  -- No key stands twice.
  abbrev pub IsDistinct : StdMap K V → Type (ℓ ⊔ κ)
  IsDistinct [] = Unit
  IsDistinct ((k, v) ∷ m) = (find k m ≡ none) × IsDistinct m

  pub IsDistinct-place :
      (k : K) (v : V) (m : StdMap K V) → find k m ≡ none → IsDistinct m → IsDistinct (place k v m)
  unfolding find place
  IsDistinct-place k v [] h u = (refl, tt)
  IsDistinct-place k v ((j, w) ∷ m) h u =
      ground (arith, beq_iff j k, beq_iff k j, find-place k j v m, IsDistinct-place k v m)

  pub IsDistinct-update :
      (k : K) (v : V) (m : StdMap K V) → IsDistinct m → IsDistinct (update k v m)
  unfolding find update
  IsDistinct-update k v [] u = tt
  IsDistinct-update k v ((j, w) ∷ m) u = elim (Bool-cases (beq j k)) [
    | inl hit ↦ rw hit u
    | inr miss ↦ rw miss (find-update-none k j v m u.0, IsDistinct-update k v m u.1)
  ]

  pub IsDistinct-erase : (k : K) (m : StdMap K V) → IsDistinct m → IsDistinct (erase k m)
  unfolding erase
  IsDistinct-erase k [] u = tt
  IsDistinct-erase k ((j, w) ∷ m) u = elim (Bool-cases (beq j k)) [
    | inl hit ↦ rw hit (IsDistinct-erase k m u.1)
    | inr miss ↦ rw miss (find-erase k j m ∙ ground (arith, u.0), IsDistinct-erase k m u.1)
  ]
