-- ===== src/Apps/Dummy.antt =====
-- test/dummyServer.cxx, and the program behind `TEST_MAIN` in src/fsmweb.cxx: a server of sources
-- whose threads publish one event after another. Both have the same methods, the second two web
-- commands more.
use levbdim.Base.{
  ℕ, zero, suc, ◌+◌, ◌*◌, List, [], ◌∷◌, ◌++◌, Option, some, Bool, true, false, ◌>>=◌,
  if◌then◌else◌, Str, codes,
}
use levbdim.Json.{JsonLib}
use levbdim.Buffer.{Bytes, data_source_id, u32}
use levbdim.Source.Datasource.{Datasource, new_datasource, publish}
use levbdim.Fsm.Message.{FsmMessage, content, set_answer}
use levbdim.Fsm.Machine.{Fsm, new_fsm, add_state, add_transition}
use levbdim.Fsm.Web.{FsmWeb, Functor, new_web, add_command, start_web}
use levbdim.Apps.Server.{fill, stat_key}

-- `threads` has `evt` and `bx` of each running thread, in the order of the sources.
pub record Dummy : Type 0 where
  pub sources : List Datasource
  pub running : Bool
  pub threads : List (ℕ × ℕ)

unfoldable pub new_dummy : Dummy
new_dummy = record { sources = []; running = false; threads = [] }

-- One round of `readdata`: the event is published, and counted up.
unfoldable pub publish_next : (ℕ → ℕ) → Datasource → ℕ × ℕ → Option (Datasource × ℕ × ℕ)
unfolding fill publish data_source_id
publish_next rand ds (evt, bx) = fill rand evt ds >>= λ filled.
    some (publish evt bx (u32 (data_source_id ds.buffer * 4)) filled, u32 (evt + 1), u32 (bx + 1))

unfoldable pub round_at :
    (ℕ → ℕ) → ℕ → List Datasource → List (ℕ × ℕ) → Option (List Datasource × List (ℕ × ℕ))
unfolding publish_next
round_at rand i [] threads = some ([], threads)
round_at rand i (d ∷ ds) [] = some (d ∷ ds, [])
round_at rand zero (d ∷ ds) (t ∷ ts) =
    publish_next rand d t >>= λ r. some (r.0 ∷ ds, (r.1, r.2) ∷ ts)
round_at rand (suc i) (d ∷ ds) (t ∷ ts) = round_at rand i ds ts >>= λ r. some (d ∷ r.0, t ∷ r.1)

-- A round of the thread with a number; a thread that finds `_running` cleared does nothing more.
unfoldable pub read_data : (ℕ → ℕ) → ℕ → Dummy → Option Dummy
unfolding round_at
read_data rand i s =
    if s.running
    then (round_at rand i s.sources s.threads >>= λ r.
        some (record s { sources = r.0; threads = r.1 }))
    else some s

module _ (json : JsonLib) (junk : ℕ → Bytes) where
  open json use {Value, null, get, set, of_string, as_int, of_int, append, items}

  -- The loop of `configure`: the sources, and the array of their keys.
  unfoldable pub create_sources : ℕ → List Value → Value → Dummy → Dummy × Value
  unfolding new_datasource stat_key
  create_sources det [] array s = (s, array)
  create_sources det (book ∷ books) array s =
      let sid = as_int book in
      create_sources det books (append array (of_int (stat_key det sid)))
        (record s { sources = s.sources ++ new_datasource det sid (junk sid) ∷ [] })

  unfoldable pub configure : Dummy → FsmMessage json → Dummy × FsmMessage json
  unfolding create_sources content set_answer
  configure s m =
      let jc = content json m in
      let (s', array) =
        create_sources (as_int (get (codes "detid") jc)) (items (get (codes "sourceid") jc)) null
          (record s { sources = [] }) in
      (s', set_answer json array m)

  abbrev pub new_threads : List Datasource → List (ℕ × ℕ)
  new_threads [] = []
  new_threads (d ∷ ds) = (0, 0) ∷ new_threads ds

  unfoldable pub start : Dummy → FsmMessage json → Dummy × FsmMessage json
  start s m = (record s { running = true; threads = new_threads s.sources }, m)

  -- The threads are joined.
  unfoldable pub stop : Dummy → FsmMessage json → Dummy × FsmMessage json
  stop s m = (record s { running = false; threads = [] }, m)

  unfoldable pub halt : Dummy → FsmMessage json → Dummy × FsmMessage json
  unfolding stop
  halt s m =
      let (s', m') = if s.running then stop s m else (s, m) in (record s' { sources = [] }, m')

  abbrev pub add :
      Str
      → Str
      → Str
      → (Dummy → FsmMessage json → Dummy × FsmMessage json)
      → Fsm json Dummy
      → Fsm json Dummy
  add cmd istate fstate method f = add_transition json Dummy cmd istate fstate method f

  unfoldable pub dummy_machine : Fsm json Dummy
  unfolding add_state add_transition new_fsm configure start stop halt
  dummy_machine = add (codes "HALT") (codes "CONFIGURED") (codes "CREATED") halt (
      add (codes "HALT") (codes "RUNNING") (codes "CREATED") halt (
        add (codes "STOP") (codes "RUNNING") (codes "CONFIGURED") stop (
          add (codes "START") (codes "CONFIGURED") (codes "RUNNING") start (
            add (codes "CONFIGURE") (codes "CONFIGURED") (codes "CONFIGURED") configure (
              add (codes "CONFIGURE") (codes "CREATED") (codes "CONFIGURED") configure (
                add_state json Dummy (codes "RUNNING") (
                  add_state json Dummy (codes "CONFIGURED")
                    (add_state json Dummy (codes "CREATED") (new_fsm json Dummy)))))))))

  -- The web commands of the second program.
  abbrev pub called : Str → Functor json Dummy
  called text s request = (s, set (codes "answer") (of_string text) null)

  unfoldable pub with_commands : FsmWeb json Dummy → FsmWeb json Dummy
  unfolding add_command
  with_commands w =
      add_command json Dummy (codes "LIST") (called (codes "list called"))
        (add_command json Dummy (codes "DOWNLOAD") (called (codes "download called")) w)

  -- The second program: the same machine under a web interface.
  unfoldable pub web_server : Str → Str → ℕ → FsmWeb json Dummy
  unfolding new_web with_commands start_web dummy_machine
  web_server name hostname port =
      start_web json Dummy hostname port
        (with_commands (record (new_web json Dummy name) { machine = dummy_machine }))
