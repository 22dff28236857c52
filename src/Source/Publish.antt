-- ===== src/Source/Publish.antt =====
-- src/datasource.cxx, src/datasocket.cxx: what a source publishes is what a socket receives.
use levbdim.Base.{ℕ, ◌+◌, ◌%◌, ◌^◌, ◌≤◌, ◌<◌, ◌≡◌, refl, ap, ◌∙◌, some, length, take, drop, arith}
use levbdim.Buffer.{
  Buffer, to_bytes, patch, u32, set_event_id, set_bx_id, set_payload_size, payload, payload_bytes,
  payload_size, image,
}
use levbdim.Buffer.Layout.{Ids, ids, ids-set_event_id, ids-set_bx_id, length-patch, drop-patch}
use levbdim.Shm.Transfer.{Carried, loaded, loaded-Carried, length-image}
use levbdim.Source.Datasource.{Datasource, publish}
use levbdim.Source.Datasocket.{receive}

ids-set_payload_size : (n : ℕ) (b : Buffer) → ids (set_payload_size n b) ≡ ids b
unfolding ids set_payload_size
ids-set_payload_size n b = refl

module _ (evt bx n : ℕ) (d : Datasource) (f : Buffer) (room : 20 + n ≤ length d.buffer.mem)
    (small : 20 + n < 2 ^ 32) (room' : 20 + n ≤ length f.mem) where
  -- The block after `publish`.
  abbrev pub sent : Buffer
  sent = (publish evt bx n d).buffer

  length-sent : length sent.mem ≡ length d.buffer.mem
  unfolding publish set_event_id set_bx_id set_payload_size
  length-sent = length-patch 8 (to_bytes 4 evt) _ ∙ length-patch 12 (to_bytes 8 bx) d.buffer.mem

  pub ids-sent : ids sent ≡ record (ids d.buffer) { event = u32 evt; bx = bx % 2 ^ 64 }
  unfolding publish set_bx_id
  ids-sent =
      ids-set_payload_size n (set_event_id evt (set_bx_id bx d.buffer))
      ∙ ids-set_event_id evt (set_bx_id bx d.buffer)
          (omega (arith, room, length-patch 12 (to_bytes 8 bx) d.buffer.mem))
      ∙ ap (λ (i : Ids). record i { event = u32 evt }) (ids-set_bx_id bx d.buffer (omega arith))

  pub size-sent : payload_size sent ≡ n
  unfolding publish set_payload_size payload_size
  size-sent = omega arith

  pub payload-sent : payload_bytes sent ≡ take n (payload d.buffer)
  unfolding publish set_payload_size set_event_id set_bx_id payload_bytes payload payload_size
  payload-sent =
      ap (λ k. take k (drop 20 sent.mem)) size-sent
      ∙ ap (take n) (
          drop-patch 20 8 (to_bytes 4 evt) (patch 12 (to_bytes 8 bx) d.buffer.mem) (omega arith)
          ∙ drop-patch 20 12 (to_bytes 8 bx) d.buffer.mem (omega arith))

  pub carried : Carried sent (loaded (image sent) f)
  carried =
      loaded-Carried sent f (omega (arith, size-sent, length-sent)) (omega (arith, size-sent))
        (omega (arith, size-sent))

  pub received : receive (image sent) f ≡ some (loaded (image sent) f)
  unfolding receive set_payload_size
  received = ground (
    arith,
    length-image sent f (omega (arith, size-sent, length-sent)) (omega (arith, size-sent))
        (omega (arith, size-sent)),
    size-sent,
  )

  -- A source whose block has room for 20 bytes and the payload publishes data that a socket with
  -- such a block receives whole: the socket's block then has the source's detector and source id,
  -- the event and the bunch crossing that were published, at 32 and 64 bits, and the first bytes
  -- of the source's payload, as many as were published.
  pub receive-publish :
      (c : Buffer) × (receive (image (publish evt bx n d).buffer) f ≡ some c)
      × (ids c ≡ record (ids d.buffer) { event = u32 evt; bx = bx % 2 ^ 64 })
      × (payload_bytes c ≡ take n (payload d.buffer))
      × (payload_size c ≡ n)
  receive-publish = (
    loaded (image sent) f,
    received,
    carried.ids_kept ∙ ids-sent,
    carried.payload_kept ∙ payload-sent,
    carried.size_kept ∙ size-sent,
  )
