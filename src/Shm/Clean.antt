-- ===== src/Shm/Clean.antt =====
-- src/shmdriver.cxx, `cleanBufferMap`: which events it removes.
use levbdim.Base.{
  ℕ, ◌≡◌, refl, sym, ap, ◌∙◌, inl, inr, List, [], ◌∷◌, Option, some, none, Bool, true, false, not,
  ◌&&◌, ◌||◌, if◌then◌else◌, ◌==◌, ==_iff, length, All, arith, Bool-cases,
}
use levbdim.Base.StdMap
use levbdim.Base.StdMap.{nat_key, find-erase, IsDistinct}
use levbdim.Buffer.{Buffer, bx_id}
use levbdim.Shm.Driver.{Double, EventMap, ShmDriver, number_of_data_source}
use levbdim.Shm.Scan.{stale, erase_all, clean_buffer_map}
use levbdim.Shm.Delivery.{IsBegun}

abbrev among : ℕ → List ℕ → Bool
among j [] = false
among j (k ∷ ks) = (k == j) || among j ks

find-erase_all :
    (real : Double) (j : ℕ) (ks : List ℕ) (m : EventMap)
    → StdMap.find j (erase_all real ks m) ≡ (if among j ks then none else StdMap.find j m)
unfolding erase_all
find-erase_all real j [] m = refl
find-erase_all real j (k ∷ ks) m =
    find-erase_all real j ks (StdMap.erase k m) ∙ ground (arith, find-erase k j m)

module _ (real : Double) where
  open real use {Real, time_of, exceeds}

  -- An event that is incomplete, and whose first buffer is older than the delay.
  abbrev pub is_stale : ℕ → Real → ℕ → Option (List Buffer) → Bool
  is_stale n last delay none = false
  is_stale n last delay (some []) = false
  is_stale n last delay (some (b ∷ bs)) =
      not (length (b ∷ bs) == n) && exceeds last (time_of (bx_id b)) delay

  stale_lem :
      (j n : ℕ) (last : Real) (delay : ℕ) (m : EventMap)
      → All IsBegun m
      → IsDistinct m
      → (ks : List ℕ) × (stale real n last delay m ≡ some ks)
        × (among j ks ≡ is_stale n last delay (StdMap.find j m))
  unfolding stale StdMap.find
  stale_lem j n last delay [] a u = ([], refl, refl)
  stale_lem j n last delay ((k, []) ∷ m) a u = absurd (omega arith)
  stale_lem j n last delay ((k, b ∷ bs) ∷ m) a u =
      let (ks, done, same) = stale_lem j n last delay m a.1 u.1 in
      let absent : (k == j) ≡ true → among j ks ≡ false = λ hit.
        same
        ∙ ap (is_stale n last delay) (ap (λ i. StdMap.find i m) (sym ((==_iff k j).0 hit)) ∙ u.0) in
      elim (Bool-cases (length (b ∷ bs) == n)) [
        | inl full ↦ (
          ks,
          rw (done, full),
          elim (Bool-cases (k == j)) [
            | inl hit ↦ rw (hit, full) (absent hit)
            | inr miss ↦ rw miss same
          ],
        )
        | inr more ↦ elim (Bool-cases (exceeds last (time_of (bx_id b)) delay)) [
          | inl old ↦ (
            k ∷ ks,
            rw (done, more, old),
            elim (Bool-cases (k == j)) [ inl hit ↦ rw (hit, more, old) | inr miss ↦ rw miss same ],
          )
          | inr recent ↦ (
            ks,
            rw (done, more, recent),
            elim (Bool-cases (k == j)) [
              | inl hit ↦ rw (hit, more, recent) (absent hit)
              | inr miss ↦ rw miss same
            ],
          )
        ]
      ]

  -- On a driver where every waiting event has a buffer and no event stands twice,
  -- `cleanBufferMap` runs without a fault, removes every event that is incomplete and whose first
  -- buffer is too old, keeps every other event with its buffers, and changes nothing else.
  pub clean_buffer_map_lem :
      {P : Type 0} (j : ℕ) (last : Real) (delay : ℕ) (d : ShmDriver P)
      → All IsBegun d.event_map
      → IsDistinct d.event_map
      → (m : EventMap) × (clean_buffer_map real last delay d ≡ some (record d { event_map = m }))
        × (StdMap.find j m ≡ (
            if is_stale (number_of_data_source d) last delay (StdMap.find j d.event_map)
            then none
            else StdMap.find j d.event_map))
  unfolding clean_buffer_map
  clean_buffer_map_lem j last delay d a u =
      let (ks, done, same) = stale_lem j (number_of_data_source d) last delay d.event_map a u in
      (
        erase_all real ks d.event_map,
        rw done,
        find-erase_all real j ks d.event_map
            ∙ ap (λ (q : Bool). if q then none else StdMap.find j d.event_map) same,
      )
