-- ===== src/Source/Datasocket.antt =====
-- src/datasocket.cxx, include/datasocket.hh: a client that receives what a source publishes, and
-- stores it for the event builder.
use levbdim.Base.{
  ℕ, ◌+◌, ◌-◌, ◌^◌, [], Option, some, none, Bool, not, ◌&&◌, ◌>>=◌, if◌then◌else◌, ltb, leb, ◌==◌,
  Str, codes, length,
}
use levbdim.Buffer.{
  Bytes, Buffer, new_buffer, set_detector_id, set_data_source_id, set_payload_size, overwrite,
  detector_id, data_source_id, event_id, bx_id, image, u32,
}
use levbdim.Shm.Name.{scan_d, scan_text}
use levbdim.Shm.Posix.{FileSystem}
use levbdim.Shm.Files.{store}
use levbdim.Source.Datasource.{service}

pub record Datasocket : Type 0 where
  pub detid : ℕ
  pub sourceid : ℕ
  pub buffer : Buffer
  pub service_name : Str
  pub memdir : Str
  pub count : ℕ

unfoldable pub new_datasocket : ℕ → ℕ → Bytes → Datasocket
unfolding new_buffer set_data_source_id set_detector_id service
new_datasocket detid sourceid junk = record {
  detid = detid;
  sourceid = sourceid;
  buffer = set_detector_id detid (set_data_source_id sourceid (new_buffer junk));
  service_name = service detid sourceid;
  memdir = [];
  count = 0;
}

-- The ids in a service's name; `none` leaves them unset.
unfoldable pub scan_service : Str → Option (ℕ × ℕ)
unfolding scan_d scan_text
scan_service name = scan_text (codes "/LEVBDIM/DS-") name >>= λ s.
    scan_d s >>= λ d. scan_text (codes "-") d.1 >>= λ s'. scan_d s' >>= λ e. some (d.0, e.0)

unfoldable pub datasocket_of_name : Str → Bytes → Option Datasocket
unfolding scan_service new_datasocket
datasocket_of_name name junk = scan_service name >>= λ ids. some (new_datasocket ids.0 ids.1 junk)

unfoldable pub save2disk : Str → Datasocket → Datasocket
save2disk memdir s = record s { memdir = memdir }

unfoldable pub is_alive : Datasocket → Bool
is_alive s = ltb 1 s.count

-- `memcpy` of the received data over the block; `none` where they overrun it.
unfoldable pub receive : Bytes → Buffer → Option Buffer
unfolding overwrite set_payload_size
receive bytes b =
    if leb (length bytes) (length b.mem)
    then some
        (set_payload_size (length bytes + 2 ^ 32 - 20) (record b { mem = overwrite bytes b.mem }))
    else none

module _ (fs : FileSystem) where
  open fs use {Disk}

  unfoldable pub info_handler : Bytes → Disk → Datasocket → Option (Disk × Datasocket)
  unfolding receive image detector_id data_source_id event_id bx_id store
  info_handler bytes disk s = receive bytes s.buffer >>= λ b.
      (if ltb 4 (length s.memdir) && not (event_id b == 0)
        then store fs (detector_id b) (data_source_id b) (event_id b) (bx_id b) (image b) s.memdir
            disk
        else some disk)
      >>= λ disk'. some (disk', record s { buffer = b; count = u32 (s.count + 1) })
