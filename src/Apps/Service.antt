-- ===== src/Apps/Service.antt =====
-- example/src/exServer.cxx: the threads of the server of sources, over the transitions of its
-- machine.
pub mod Life
use levbdim.Base.{
  ℕ, zero, suc, ◌≡◌, ◌≢◌, ◌⊎◌, inl, inr, refl, sym, ap, ◌∙◌, List, [], ◌∷◌, Option, some, none,
  true, false, ◌>>=◌, if◌then◌else◌, Str, str_eq, codes, length, Option-cases, Bool-cases, arith,
}
use levbdim.Base.StdMap.{StdMap}
use levbdim.Json.{JsonLib, Laws}
use levbdim.Buffer.{Bytes}
use levbdim.Source.Datasource.{Datasource}
use levbdim.Fsm.Message.{FsmMessage, thrown_by, content, key_ne}
use levbdim.Fsm.Machine.{Fsm, new_fsm, add_state, process_command}
use levbdim.Fsm.Reach.{
  AllKeep, AllKeep-add_transition, quietly, at_both, AllKeep-no_transitions, IsKept-process_command,
}
use levbdim.Apps.Mains.{server_tick}
use levbdim.Apps.Server.{
  Server, new_server, increment_event, read_round, read_at, read_data, create_sources, configure,
  none_published, start, stop, halt, add, server_states, server_machine,
}

abbrev pub running_state : Str
running_state = codes "RUNNING"

abbrev IsBusy : Server → Type 0
IsBusy s = (s.running ≡ true) × (length s.threads ≡ length s.sources)

abbrev IsIdle : Server → Type 0
IsIdle s = (s.running ≡ false) × (s.threads ≡ [])

-- In the state `RUNNING` there is one thread for each source; in any other there is none.
abbrev pub IsInService : Str → Server → Type 0
IsInService state s = ((state ≡ running_state) × IsBusy s) ⊎ ((state ≢ running_state) × IsIdle s)

to_idle : (state : Str) (s : Server) → state ≢ running_state → IsInService state s → IsIdle s
to_idle state s other (inl (same, _)) = absurd (other same)
to_idle state s other (inr (_, idle)) = idle

pub created-ne-running : codes "CREATED" ≢ running_state
unfolding str_eq
created-ne-running = key_ne (codes "CREATED") running_state refl

configured-ne-running : codes "CONFIGURED" ≢ running_state
unfolding str_eq
configured-ne-running = key_ne (codes "CONFIGURED") running_state refl

module _ (json : JsonLib) (junk : ℕ → Bytes) where
  open json use {Value, null, get, as_int, items}

  create_sources-IsIdle :
      (det : ℕ) (books : List Value) (array : Value) (s : Server)
      → IsIdle s
      → IsIdle (create_sources json junk det books array s).0
  unfolding create_sources
  create_sources-IsIdle det [] array s idle = idle
  create_sources-IsIdle det (book ∷ books) array s idle = create_sources-IsIdle det books _ _ idle

  length-none_published : (ds : List Datasource) → length (none_published json junk ds) ≡ length ds
  length-none_published [] = refl
  length-none_published (d ∷ ds) = ap suc (length-none_published ds)

  configure-keeps :
      (state fstate : Str) (s : Server) (m : FsmMessage json)
      → state ≢ running_state
      → fstate ≢ running_state
      → IsInService state s
      → IsInService fstate (configure json junk s m).0
  unfolding configure
  configure-keeps state fstate s m other other' i = inr (
    other',
    create_sources-IsIdle (as_int (get (codes "detid") (content json m)))
        (items (get (codes "sourceid") (content json m))) null
        (record s { sources = []; stat = [] }) (to_idle state s other i),
  )

  start-keeps :
      (s : Server) (m : FsmMessage json)
      → IsInService (codes "CONFIGURED") s
      → IsInService running_state (start json junk s m).0
  unfolding start
  start-keeps s m i = inl (refl, (refl, length-none_published s.sources))

  stop-keeps :
      (s : Server) (m : FsmMessage json)
      → IsInService running_state s
      → IsInService (codes "CONFIGURED") (stop json junk s m).0
  unfolding stop
  stop-keeps s m i = inr (configured-ne-running, (refl, refl))

  halt-keeps :
      (state : Str) (s : Server) (m : FsmMessage json)
      → IsInService state s
      → IsInService (codes "CREATED") (halt json junk s m).0
  unfolding halt stop
  halt-keeps state s m i = inr (created-ne-running, ended i)
    where
      ended : IsInService state s → IsIdle (halt json junk s m).0
      ended (inl (_, (on, _))) = ground (arith, on)
      ended (inr (_, (off, no_threads))) = ground (arith, off, no_threads)

  -- A method that gives the message back.
  start-same : (s : Server) (m : FsmMessage json) → (start json junk s m).1 ≡ m
  unfolding start
  start-same s m = refl

  stop-same : (s : Server) (m : FsmMessage json) → (stop json junk s m).1 ≡ m
  unfolding stop
  stop-same s m = refl

  halt-same : (s : Server) (m : FsmMessage json) → (halt json junk s m).1 ≡ m
  unfolding halt stop
  halt-same s m = elim (Bool-cases s.running) [ inl on ↦ rw on refl | inr off ↦ rw off refl ]

  abbrev pub Kept : Fsm json Server → Type 0
  Kept = AllKeep json Server IsInService

  keep :
      (cmd istate fstate : Str) (method : Server → FsmMessage json → Server × FsmMessage json)
      (f : Fsm json Server)
      → ((s : Server) (m : FsmMessage json)
          → IsInService istate s
          → IsInService fstate (method s m).0)
      → ((s : Server) (m : FsmMessage json) → (method s m).1 ≡ m)
      → Kept f
      → Kept (add json junk cmd istate fstate method f)
  keep cmd istate fstate method f keeps same all =
      AllKeep-add_transition json Server IsInService cmd istate fstate method f
        (λ s m i.
          quietly json Server IsInService istate fstate (method s m).0 m (method s m).1 (same s m)
            (keeps s m i))
        all

  -- `configure` may throw, and keeps it in the state of before too.
  keep_configure :
      (istate : Str) (f : Fsm json Server)
      → istate ≢ running_state
      → Kept f
      → Kept (add json junk (codes "CONFIGURE") istate (codes "CONFIGURED") (configure json junk) f)
  keep_configure istate f other all =
      AllKeep-add_transition json Server IsInService (codes "CONFIGURE") istate (codes "CONFIGURED")
        (configure json junk) f
        (λ s m i.
          at_both json Server IsInService (thrown_by json m (configure json junk s m).1) istate
            (codes "CONFIGURED") (configure json junk s m).0
            (configure-keeps istate istate s m other other i)
            (configure-keeps istate (codes "CONFIGURED") s m other configured-ne-running i))
        all

  no_transitions : (server_states json junk).transitions ≡ []
  unfolding add_state new_fsm
  no_transitions = refl

  pub machine-AllKeep : Kept (server_machine json junk)
  unfolding server_machine
  machine-AllKeep =
      let f0 : Fsm json Server = server_states json junk in
      let k0 : Kept f0 = AllKeep-no_transitions json Server IsInService f0 no_transitions in
      let f1 : Fsm json Server =
        add json junk (codes "CONFIGURE") (codes "CREATED") (codes "CONFIGURED")
          (configure json junk) f0 in
      let k1 : Kept f1 = keep_configure (codes "CREATED") f0 created-ne-running k0 in
      let f2 : Fsm json Server =
        add json junk (codes "CONFIGURE") (codes "CONFIGURED") (codes "CONFIGURED")
          (configure json junk) f1 in
      let k2 : Kept f2 = keep_configure (codes "CONFIGURED") f1 configured-ne-running k1 in
      let f3 : Fsm json Server =
        add json junk (codes "START") (codes "CONFIGURED") running_state (start json junk) f2 in
      let k3 : Kept f3 =
        keep (codes "START") (codes "CONFIGURED") running_state (start json junk) f2 start-keeps
          start-same k2 in
      let f4 : Fsm json Server =
        add json junk (codes "STOP") running_state (codes "CONFIGURED") (stop json junk) f3 in
      let k4 : Kept f4 =
        keep (codes "STOP") running_state (codes "CONFIGURED") (stop json junk) f3 stop-keeps
          stop-same k3 in
      let f5 : Fsm json Server =
        add json junk (codes "HALT") running_state (codes "CREATED") (halt json junk) f4 in
      let k5 : Kept f5 =
        keep (codes "HALT") running_state (codes "CREATED") (halt json junk) f4
          (halt-keeps running_state) halt-same k4 in
      let f6 : Fsm json Server =
        add json junk (codes "HALT") (codes "CONFIGURED") (codes "CREATED") (halt json junk) f5 in
      let k6 : Kept f6 =
        keep (codes "HALT") (codes "CONFIGURED") (codes "CREATED") (halt json junk) f5
          (halt-keeps (codes "CONFIGURED")) halt-same k5 in
      k6
