-- ===== src/Apps/Server.antt =====
-- example/src/exServer.cxx, example/include/exServer.hh: a server of data sources that publish
-- blocks of random words, under a state machine.
use Prim.Native.Nat.{bit_and, bit_or}
use levbdim.Base.{
  ℕ, zero, suc, ◌+◌, ◌*◌, ◌/◌, ◌^◌, List, [], ◌∷◌, ◌++◌, Option, some, none, Bool, true, false,
  ◌&&◌, ◌||◌, not, ◌>>=◌, if◌then◌else◌, ltb, leb, ◌==◌, Str, codes, length,
}
use levbdim.Base.StdMap
use levbdim.Base.StdMap.{StdMap, nat_key}
use levbdim.Json.{JsonLib}
use levbdim.Buffer.{Bytes, to_bytes, patch, header_size, detector_id, data_source_id, u32}
use levbdim.Source.Datasource.{Datasource, new_datasource, publish}
use levbdim.Fsm.Message.{FsmMessage, content, set_answer}
use levbdim.Fsm.Machine.{Fsm, new_fsm, add_state, add_transition}

-- `threads` has for each running thread the event that it published last; the first thread is the
-- one of the first source, and so on.
pub record Server : Type 0 where
  pub detid : ℕ
  pub sources : List Datasource
  pub stat : StdMap ℕ ℕ
  pub running : Bool
  pub threads : List ℕ
  pub event : ℕ
  pub bx : ℕ

unfoldable pub new_server : Server
new_server = record {
  detid = 0;
  sources = [];
  stat = [];
  running = false;
  threads = [];
  event = 0;
  bx = 0;
}

-- `(det<<16)|sid`
unfoldable pub stat_key : ℕ → ℕ → ℕ
stat_key det sid = bit_or sid (u32 (det * 2 ^ 16))

unfoldable pub increment_event : Server → Server
increment_event s = record s { event = u32 (s.event + 1); bx = u32 (s.bx + 1) }

unfoldable pub set_detector_id : ℕ → Server → Server
set_detector_id id s = record s { detid = id }

-- The words of a payload, each in four bytes.
abbrev pub words : List ℕ → Bytes
words [] = []
words (x ∷ xs) = to_bytes 4 x ++ words xs

abbrev pub random_words : (ℕ → ℕ) → ℕ → ℕ → List ℕ
random_words rand i zero = []
random_words rand i (suc n) = rand i ∷ random_words rand (i + 1) n

-- The payload of a source of number `psi`: its first and its last word are the event.
abbrev pub payload_words : (ℕ → ℕ) → ℕ → ℕ → List ℕ
payload_words rand event zero = []
payload_words rand event (suc zero) = event ∷ []
payload_words rand event (suc (suc n)) = event ∷ (random_words rand 1 n ++ event ∷ [])

-- The words are written from the pointer on; with number 0 the last word is far beyond the block,
-- as it is with a number that does not fit.
unfoldable pub fill : (ℕ → ℕ) → ℕ → Datasource → Option Datasource
unfolding patch data_source_id
fill rand event ds =
    let psi = data_source_id ds.buffer in
    if ltb 0 psi && leb (header_size + psi * 4) (length ds.buffer.mem)
    then some (record ds {
      buffer = record ds.buffer {
        mem = patch header_size (words (payload_words rand event psi)) ds.buffer.mem;
      };
    })
    else none

-- The statistics of a source, where it has an entry.
unfoldable pub count_event : Datasource → ℕ → StdMap ℕ ℕ → StdMap ℕ ℕ
unfolding stat_key detector_id data_source_id StdMap.update
count_event ds event stat =
    StdMap.update (stat_key (detector_id ds.buffer) (data_source_id ds.buffer)) event stat

-- One round of `readdata` in the thread of a source, which published `last` before. `rand` gives
-- the random words.
unfoldable pub read_round : (ℕ → ℕ) → Datasource → ℕ → Server → Option (Datasource × ℕ × StdMap ℕ ℕ)
unfolding fill publish count_event
read_round rand ds last s =
    let published = fill rand s.event ds >>= λ filled.
    (let psi = data_source_id ds.buffer in
      let ds' = publish s.event s.bx (u32 (psi * 4)) filled in
      some (ds', s.event, count_event ds' s.event s.stat)) in
    if not s.running || (s.event == last) then some (ds, last, s.stat) else published

-- A round of the thread with a number.
unfoldable pub read_at :
    (ℕ → ℕ) → ℕ → List Datasource → List ℕ → Server → Option (List Datasource × List ℕ × StdMap ℕ ℕ)
unfolding read_round
read_at rand i [] threads s = some ([], threads, s.stat)
read_at rand i (d ∷ ds) [] s = some (d ∷ ds, [], s.stat)
read_at rand zero (d ∷ ds) (t ∷ ts) s =
    read_round rand d t s >>= λ r. some (r.0 ∷ ds, r.1 ∷ ts, r.2)
read_at rand (suc i) (d ∷ ds) (t ∷ ts) s =
    read_at rand i ds ts s >>= λ r. some (d ∷ r.0, t ∷ r.1, r.2)

unfoldable pub read_data : (ℕ → ℕ) → ℕ → Server → Option Server
unfolding read_at
read_data rand i s = read_at rand i s.sources s.threads s >>= λ r.
    some (record s { sources = r.0; threads = r.1; stat = r.2 })

module _ (json : JsonLib) (junk : ℕ → Bytes) where
  open json use {Value, null, get, set, of_string, as_int, of_int, of_uint, append, items}

  -- The loop of `configure`: the sources, their statistics, and the array of their keys.
  unfoldable pub create_sources : ℕ → List Value → Value → Server → Server × Value
  unfolding new_datasource stat_key StdMap.insert
  create_sources det [] array s = (s, array)
  create_sources det (book ∷ books) array s =
      let sid = as_int book in
      let key = stat_key det sid in
      create_sources det books (append array (of_int key)) (record s {
        sources = s.sources ++ new_datasource det sid (junk sid) ∷ [];
        stat = StdMap.insert key 0 s.stat;
      })

  unfoldable pub configure : Server → FsmMessage json → Server × FsmMessage json
  unfolding create_sources content set_answer
  configure s m =
      let jc = content json m in
      let (s', array) =
        create_sources (as_int (get (codes "detid") jc)) (items (get (codes "sourceid") jc)) null
          (record s { sources = []; stat = [] }) in
      (s', set_answer json array m)

  abbrev pub none_published : List Datasource → List ℕ
  none_published [] = []
  none_published (d ∷ ds) = 0 ∷ none_published ds

  unfoldable pub start : Server → FsmMessage json → Server × FsmMessage json
  start s m = (record s { event = 0; running = true; threads = none_published s.sources }, m)

  unfoldable pub stop : Server → FsmMessage json → Server × FsmMessage json
  stop s m = (record s { running = false; threads = [] }, m)

  unfoldable pub halt : Server → FsmMessage json → Server × FsmMessage json
  unfolding stop
  halt s m =
      let (s', m') = if s.running then stop s m else (s, m) in (record s' { sources = [] }, m')

  unfoldable pub download : Value
  download = set (codes "answer") (of_string (codes "download called")) null

  -- A line of the statistics.
  unfoldable pub stat_entry : ℕ × ℕ → Value
  stat_entry (key, event) = set (codes "event") (of_uint event) (
      set (codes "sourceid") (of_uint (bit_and key 0xFFFF))
        (set (codes "detid") (of_uint (bit_and (key / 2 ^ 16) 0xFFFF)) null))

  unfoldable pub stat_lines : Value → StdMap ℕ ℕ → Value
  unfolding stat_entry
  stat_lines array [] = array
  stat_lines array (e ∷ m) = stat_lines (append array (stat_entry e)) m

  unfoldable pub list : Server → Value
  unfolding stat_lines
  list s =
      set (codes "answer")
        (set (codes "dataSources") (stat_lines null s.stat)
          (set (codes "detector") (of_uint s.detid) null))
        null

  abbrev pub add :
      Str
      → Str
      → Str
      → (Server → FsmMessage json → Server × FsmMessage json)
      → Fsm json Server
      → Fsm json Server
  add cmd istate fstate method f = add_transition json Server cmd istate fstate method f

  abbrev pub server_states : Fsm json Server
  server_states = add_state json Server (codes "RUNNING") (
      add_state json Server (codes "CONFIGURED")
        (add_state json Server (codes "CREATED") (new_fsm json Server)))

  unfoldable pub server_machine : Fsm json Server
  unfolding add_state add_transition new_fsm configure start stop halt
  server_machine = add (codes "HALT") (codes "CONFIGURED") (codes "CREATED") halt (
      add (codes "HALT") (codes "RUNNING") (codes "CREATED") halt (
        add (codes "STOP") (codes "RUNNING") (codes "CONFIGURED") stop (
          add (codes "START") (codes "CONFIGURED") (codes "RUNNING") start (
            add (codes "CONFIGURE") (codes "CONFIGURED") (codes "CONFIGURED") configure (
              add (codes "CONFIGURE") (codes "CREATED") (codes "CONFIGURED") configure
                server_states)))))
