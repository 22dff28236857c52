-- ===== src/Shm/Posix.antt =====
-- The operating system's files, as src/shmdriver.cxx uses them: an interface of calls, with the
-- documented behaviour that the stored events rely on.
use levbdim.Base.{ℕ, ◌≡◌, ◌≢◌, Option, some, none, List, [], length, take, Str}
use levbdim.Buffer.{Bytes}

pub record FileSystem : Type 1 where
  pub Disk : Type 0
  -- `open(path, O_CREAT|O_RDWR|O_NONBLOCK, S_IRWXU)`; `none` is a negative descriptor.
  pub open_create : Str → Disk → Option Disk
  -- `write(fd, ...)` at the start of the opened file, and the count that it returns.
  pub write : Str → Bytes → Disk → ℕ × Disk
  -- `open(path, O_RDONLY)`, `none` for a negative descriptor; and `read(fd, ptr, n)` on it, `none`
  -- for its -1.
  pub read : Str → ℕ → Disk → Option (Option Bytes)
  pub unlink : Str → Disk → Disk
  -- `mkdir(path, ...)`, whatever it returns.
  pub mkdir : Str → Disk → Disk
  -- The entries of `scandir(path, ..., alphasort)` before the filter.
  pub scandir : Str → Disk → List Str

module _ (fs : FileSystem) where
  open fs use {Disk, open_create, write, read, unlink}

  -- What the calls do to the files, by their paths.
  pub record Laws : Type 0 where
    pub file : Str → Disk → Option Bytes
    pub open-new :
        (p : Str) (d d' : Disk) → open_create p d ≡ some d' → file p d ≡ none → file p d' ≡ some []
    pub open-other :
        (p q : Str) (d d' : Disk) → open_create p d ≡ some d' → q ≢ p → file q d' ≡ file q d
    pub write-empty :
        (p : Str) (bytes : Bytes) (d : Disk)
        → file p d ≡ some []
        → (write p bytes d).0 ≡ length bytes
        → file p (write p bytes d).1 ≡ some bytes
    pub write-other :
        (p q : Str) (bytes : Bytes) (d : Disk) → q ≢ p → file q (write p bytes d).1 ≡ file q d
    pub read-file :
        (p : Str) (n : ℕ) (d : Disk) (bytes : Bytes)
        → file p d ≡ some bytes
        → read p n d ≡ some (some (take n bytes))
    pub unlink-self : (p : Str) (d : Disk) → file p (unlink p d) ≡ none
    pub unlink-other : (p q : Str) (d : Disk) → q ≢ p → file q (unlink p d) ≡ file q d
