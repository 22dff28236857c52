-- ===== src/Shm/Driver.antt =====
-- src/shmdriver.cxx, include/shmdriver.hh: the driver's state and its operations.
use Prim.Native.Nat.{bit_and, bit_or}
use levbdim.Base.{
  ℕ, ◌*◌, ◌/◌, ◌^◌, List, [], ◌∷◌, ◌++◌, Option, some, none, Bool, false, not, ◌>>=◌, if◌then◌else◌,
  ◌==◌, Str, codes, length,
}
use levbdim.Base.StdMap
use levbdim.Base.StdMap.{StdMap, nat_key}
use levbdim.Buffer.{Buffer, u32}

-- `dskey`, `source_id` and `detector_id`, the macros on data source keys.
unfoldable pub dskey : ℕ → ℕ → ℕ
dskey d s = bit_or (bit_and s 0xFFF) (u32 (bit_and d 0xFFF * 2 ^ 12))

unfoldable pub source_id : ℕ → ℕ
source_id k = bit_and k 0xFFF

unfoldable pub detector_id : ℕ → ℕ
detector_id k = bit_and (k / 2 ^ 12) 0xFFF

-- `shmprocessor`: the virtual methods over a processor `P` and the outside world `W`. The vector
-- of buffers is passed by value, and the buffers that it points to may be changed: they are
-- returned. `none` is undefined behaviour in the method.
pub record ShmProcessor (W P : Type 0) : Type 0 where
  pub start : ℕ → W → P → W × P
  pub stop : W → P → W × P
  pub process_event : ℕ → List Buffer → W → P → Option (W × List Buffer × P)
  pub process_run_header : List ℕ → W → P → Option (W × P)

-- `double`, as far as the driver computes with it.
pub record Double : Type 1 where
  pub Real : Type 0
  -- `bxId()*2E-7`
  pub time_of : ℕ → Real
  -- `lastTime - time > delay`, where `delay` is the integer 10 of the call
  pub exceeds : Real → Real → ℕ → Bool
  -- `twrite != 0`
  pub nonzero : Real → Bool
  pub real_zero : Real

abbrev pub EventMap : Type 0
EventMap = StdMap ℕ (List Buffer)

pub record ShmDriver (P : Type 0) : Type 0 where
  pub memdir : Str
  pub use_event_id : Bool
  pub datasources : List ℕ
  pub processors : List P
  pub event_map : EventMap
  pub running : Bool
  pub run : ℕ
  pub evt : ℕ
  pub run_header : List ℕ

-- `vector::erase(std::find(...))`: the first element that is found, taken out.
unfoldable pub erase_first {ℓ} : {A : Type ℓ} → (A → Bool) → List A → List A
erase_first is_it [] = []
erase_first is_it (y ∷ ys) = if is_it y then ys else y ∷ erase_first is_it ys

module _ {P : Type 0} where
  unfoldable pub new : Str → Bool → ShmDriver P
  new memdir useevent = record {
    memdir = memdir;
    use_event_id = useevent;
    datasources = [];
    processors = [];
    event_map = [];
    running = false;
    run = 0;
    evt = 0;
    run_header = [];
  }

  unfoldable pub clear : ShmDriver P → ShmDriver P
  clear d = record d { event_map = []; processors = []; datasources = [] }

  unfoldable pub register_processor : P → ShmDriver P → ShmDriver P
  register_processor p d = record d { processors = d.processors ++ p ∷ [] }

  -- `registerProcessor(name)`: `load` gives what the function `loadProcessor` of a library makes. A
  -- library or a function that is not there is called all the same, through a null pointer.
  unfoldable pub register_processor_of : (Str → Option P) → Str → ShmDriver P → Option (ShmDriver P)
  unfolding register_processor
  register_processor_of load name d =
      load (codes "lib" ++ (name ++ codes ".so")) >>= λ a. some (register_processor a d)

  -- `same` tells whether two pointers are to one processor.
  unfoldable pub unregister_processor : (P → P → Bool) → P → ShmDriver P → ShmDriver P
  unfolding erase_first
  unregister_processor same p d = record d { processors = erase_first (same p) d.processors }

  unfoldable pub register_data_source : ℕ → ℕ → ShmDriver P → ShmDriver P
  unfolding dskey
  register_data_source det ds d = record d { datasources = d.datasources ++ dskey det ds ∷ [] }

  -- The code looks for `ds` itself, not for its key.
  unfoldable pub unregister_data_source : ℕ → ℕ → ShmDriver P → ShmDriver P
  unfolding erase_first
  unregister_data_source det ds d = record d {
    datasources = erase_first (λ k. k == ds) d.datasources;
  }

  unfoldable pub number_of_data_source : ShmDriver P → ℕ
  number_of_data_source d = u32 (length d.datasources)

  unfoldable pub buffers_of_event : ℕ → ShmDriver P → ℕ
  unfolding StdMap.find
  buffers_of_event k d = elim (StdMap.find k d.event_map) [
    | none ↦ 0
    | some bufs ↦ u32 (length bufs)
  ]

-- What a statement says of the buffers that wait for an event to complete.
abbrev pub or_empty : Option (List Buffer) → List Buffer
or_empty none = []
or_empty (some bufs) = bufs

abbrev pub vector : ℕ → EventMap → List Buffer
vector k m = or_empty (StdMap.find k m)

abbrev pub pending : {P : Type 0} → ℕ → ShmDriver P → List Buffer
pending k d = vector k d.event_map

module _ {W P : Type 0} (proc : ShmProcessor W P) where
  -- `processEvent(key, buffers)` of each processor in turn.
  unfoldable pub run_processors : ℕ → List Buffer → W → List P → Option (W × List Buffer × List P)
  run_processors key bufs w [] = some (w, bufs, [])
  run_processors key bufs w (p ∷ ps) = proc.process_event key bufs w p >>= λ r.
      run_processors key r.1 r.0 ps >>= λ s. some (s.0, s.1, r.2 ∷ s.2)

  -- `processEvent(idx)`: an event id that is not in the map is a dereference of `end()`.
  unfoldable pub process_event : ℕ → W → ShmDriver P → Option (W × ShmDriver P)
  unfolding run_processors StdMap.find StdMap.erase number_of_data_source
  process_event idx w d = elim (StdMap.find idx d.event_map) [
    | none ↦ none
    | some bufs ↦
        if not (length bufs == number_of_data_source d)
        then some (w, d)
        else if idx == 0
        then some (w, d)
        else run_processors (u32 idx) bufs w d.processors >>= λ r. some (
          r.0,
          record d { evt = u32 idx; processors = r.2; event_map = StdMap.erase idx d.event_map },
        )
  ]
