-- ===== src/Apps/Published.antt =====
-- example/src/exServer.cxx, src/datasource.cxx, src/datasocket.cxx: what a thread of the server of
-- sources publishes is what a socket receives.
use levbdim.Base.{
  ℕ, zero, suc, ◌+◌, ◌*◌, ◌≤◌, ◌<◌, ◌≡◌, refl, ap, sym, ◌∙◌, List, [], ◌∷◌, some, length,
  length-append, take, slice, arith,
}
use levbdim.Base.StdMap
use levbdim.Base.StdMap.{StdMap, nat_key}
use levbdim.Buffer.{Bytes, Buffer, header_size, patch, data_source_id, payload}
use levbdim.Buffer.Layout.{length-patch, slice-patch_self}
use levbdim.Source.Datasource.{Datasource}
use levbdim.Apps.Server.{Server, words, random_words, payload_words, fill}

length-words : (xs : List ℕ) → length (words xs) ≡ length xs * 4
length-words [] = refl
length-words (x ∷ xs) = omega (arith, length-words xs)

length-random_words : (rand : ℕ → ℕ) (i n : ℕ) → length (random_words rand i n) ≡ n
length-random_words rand i zero = refl
length-random_words rand i (suc n) = ap suc (length-random_words rand (i + 1) n)

length-payload_words : (rand : ℕ → ℕ) (event n : ℕ) → length (payload_words rand event n) ≡ n
length-payload_words rand event zero = refl
length-payload_words rand event (suc zero) = refl
length-payload_words rand event (suc (suc n)) =
    omega (arith, length-append (random_words rand 1 n) (event ∷ []), length-random_words rand 1 n)

module _ (rand : ℕ → ℕ) (event : ℕ) (ds : Datasource) (some_words : 0 < data_source_id ds.buffer)
    (room : header_size + data_source_id ds.buffer * 4 ≤ length ds.buffer.mem) where
  abbrev psi : ℕ
  psi = data_source_id ds.buffer

  abbrev written : Bytes
  written = words (payload_words rand event psi)

  abbrev pub filled : Datasource
  filled = record ds { buffer = record ds.buffer { mem = patch header_size written ds.buffer.mem } }

  length-written : length written ≡ psi * 4
  length-written =
      length-words (payload_words rand event psi)
      ∙ ap (λ n. n * 4) (length-payload_words rand event psi)

  pub fill_lem : fill rand event ds ≡ some filled
  unfolding fill
  fill_lem = ground (arith, some_words, room)

  pub payload-filled : take (psi * 4) (payload filled.buffer) ≡ written
  unfolding payload
  payload-filled =
      ap (λ n. slice 20 n (patch 20 written ds.buffer.mem)) (sym length-written)
      ∙ slice-patch_self 20 written ds.buffer.mem (omega (arith, length-written, room))

  pub room-filled : header_size + psi * 4 ≤ length filled.buffer.mem
  room-filled = omega (arith, room, length-patch header_size written ds.buffer.mem)
