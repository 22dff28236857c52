-- ===== src/Source/Handover.antt =====
-- src/datasource.cxx, src/datasocket.cxx, src/shmdriver.cxx: from a source over a socket and the
-- files to the driver.
use levbdim.Base.{ℕ, ◌+◌, ◌≤◌, length}
use levbdim.Buffer.{Buffer, image}
use levbdim.Shm.Posix.{FileSystem, Laws}
use levbdim.Shm.Files.{max_read}
use levbdim.Shm.Transfer.{loaded}
use levbdim.Source.Datasource.{Datasource, publish}
use levbdim.Source.Datasocket.{Datasocket}

module _ (fs : FileSystem) (laws : Laws fs) (evt bx n : ℕ) (d : Datasource) (s : Datasocket)
    (f : Buffer) (disk : fs.Disk) (room : 20 + n ≤ length d.buffer.mem)
    (readable : 20 + n ≤ max_read) (room' : 20 + n ≤ length s.buffer.mem) where
  -- The block of the socket once it got the data.
  abbrev pub got : Buffer
  got = loaded (image (publish evt bx n d).buffer) s.buffer
