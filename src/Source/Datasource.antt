-- ===== src/Source/Datasource.antt =====
-- src/datasource.cxx, include/datasource.hh: a buffer and the DIM service that publishes it.
use levbdim.Base.{ℕ, List, [], ◌∷◌, ◌++◌, Str, codes}
use levbdim.Buffer.{
  Bytes, Buffer, new_buffer, set_detector_id, set_data_source_id, set_event_id, set_bx_id,
  set_payload_size, payload, image,
}
use levbdim.Shm.Name.{dec}

-- `published` lists what the service was given, oldest first.
pub record Datasource : Type 0 where
  pub detid : ℕ
  pub sourceid : ℕ
  pub buffer : Buffer
  pub service_name : Str
  pub published : List Bytes

-- `/LEVBDIM/DS-<detid>-<sourceid>/DATA`
unfoldable pub service : ℕ → ℕ → Str
unfolding dec
service detid sourceid =
    codes "/LEVBDIM/DS-" ++ dec detid (codes "-" ++ dec sourceid (codes "/DATA"))

-- `junk` is what the block of `max_size` bytes happens to hold.
unfoldable pub new_datasource : ℕ → ℕ → Bytes → Datasource
unfolding new_buffer set_data_source_id set_detector_id service image
new_datasource detid sourceid junk =
    let b = set_detector_id detid (set_data_source_id sourceid (new_buffer junk)) in
    record {
      detid = detid;
      sourceid = sourceid;
      buffer = b;
      service_name = service detid sourceid;
      published = image b ∷ [];
    }

unfoldable pub publish : ℕ → ℕ → ℕ → Datasource → Datasource
unfolding set_bx_id set_event_id set_payload_size image
publish evt bx payload_size d =
    let b = set_payload_size payload_size (set_event_id evt (set_bx_id bx d.buffer)) in
    record d { buffer = b; published = d.published ++ image b ∷ [] }

unfoldable pub source_payload : Datasource → Bytes
unfolding payload
source_payload d = payload d.buffer
