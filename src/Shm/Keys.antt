-- ===== src/Shm/Keys.antt =====
-- include/shmdriver.hh, the keys of data sources, and src/shmdriver.cxx, `unregisterDataSource`.
use Prim.Native.Nat.{bit_and, bit_or}
use levbdim.Base.{
  ℕ, ◌+◌, ◌*◌, ◌/◌, ◌%◌, ◌^◌, ◌≤◌, ◌<◌, ◌≡◌, ◌≢◌, refl, ap, ◌∙◌, List, [], ◌∷◌, ◌++◌, All,
  All-append, arith, ◌==◌,
}
use levbdim.Base.Bits.{and-mask, or-fields}
use levbdim.Buffer.{u32}
use levbdim.Shm.Driver.{
  dskey, source_id, detector_id, ShmDriver, register_data_source, unregister_data_source,
  erase_first,
}

dskey-fields : (d s : ℕ) → dskey d s ≡ (d % 2 ^ 12) * 2 ^ 12 + s % 2 ^ 12
unfolding dskey
dskey-fields d s =
    ap (λ l. bit_or l (u32 (bit_and d 0xFFF * 2 ^ 12))) (and-mask 12 s)
    ∙ ap (λ (h : ℕ). bit_or (s % 2 ^ 12) (u32 (h * 2 ^ 12))) (and-mask 12 d)
    ∙ ap (bit_or (s % 2 ^ 12)) small
    ∙ or-fields 12 (s % 2 ^ 12) (d % 2 ^ 12) (omega arith)
  where
    small : u32 (d % 2 ^ 12 * 2 ^ 12) ≡ d % 2 ^ 12 * 2 ^ 12
    small = omega arith

-- The macros find in a key the ids that it was made of, at twelve bits each.
pub dskey_lem :
    (d s : ℕ) → (source_id (dskey d s) ≡ s % 2 ^ 12) × (detector_id (dskey d s) ≡ d % 2 ^ 12)
unfolding source_id detector_id
dskey_lem d s = (
  and-mask 12 (dskey d s) ∙ omega (arith, dskey-fields d s),
  and-mask 12 (dskey d s / 2 ^ 12) ∙ omega (arith, dskey-fields d s),
)

erase_first-absent : (n : ℕ) (ks : List ℕ) → All (λ k. n < k) ks → erase_first (λ k. k == n) ks ≡ ks
unfolding erase_first
erase_first-absent n [] a = refl
erase_first-absent n (k ∷ ks) a = ground (arith, erase_first-absent n ks a.1)

-- Where the detector ids are not multiples of 4096 and the source's id has twelve bits, taking a
-- data source back leaves the driver as it was with it: the code looks for the id in a list of
-- keys, and does not find it.
pub unregister-register :
    {P : Type 0} (det ds : ℕ) (d : ShmDriver P)
    → det % 2 ^ 12 ≢ 0
    → ds < 2 ^ 12
    → All (λ k. 2 ^ 12 ≤ k) d.datasources
    → unregister_data_source det ds (register_data_source det ds d) ≡ register_data_source det ds d
unfolding unregister_data_source register_data_source
unregister-register det ds d other small others =
    ap (λ ks. record d { datasources = ks })
      (erase_first-absent ds (d.datasources ++ dskey det ds ∷ []) (
        All-append (λ k. ds < k) d.datasources (dskey det ds ∷ []) (above d.datasources others)
          (omega (arith, dskey-fields det ds), tt)))
  where
    above : (ks : List ℕ) → All (λ k. 2 ^ 12 ≤ k) ks → All (λ k. ds < k) ks
    above [] a = tt
    above (k ∷ ks) a = (omega (arith, a.0), above ks a.1)
