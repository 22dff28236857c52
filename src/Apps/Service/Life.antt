-- ===== src/Apps/Service/Life.antt =====
-- example/src/exServer.cxx, example/src/exServer.cc: all runs of the server of sources, with the
-- rounds of its threads and the events that are counted up meanwhile.
use levbdim.Base.{
  ℕ, zero, suc, ◌≡◌, ◌≢◌, ◌⊎◌, inl, inr, refl, sym, ap, ◌∙◌, List, [], ◌∷◌, Option, some, none,
  true, false, ◌>>=◌, if◌then◌else◌, Str, str_eq, codes, length, Option-cases, Bool-cases, arith,
}
use levbdim.Base.StdMap.{StdMap}
use levbdim.Json.{JsonLib, Laws}
use levbdim.Buffer.{Bytes}
use levbdim.Source.Datasource.{Datasource}
use levbdim.Fsm.Message.{FsmMessage}
use levbdim.Fsm.Machine.{Fsm, new_fsm, add_state, process_command}
use levbdim.Fsm.Reach.{IsKept-process_command}
use levbdim.Apps.Mains.{server_tick}
use levbdim.Apps.Server.{
  Server, new_server, increment_event, read_round, read_at, read_data, server_machine,
}
use levbdim.Apps.Service.{IsInService, created-ne-running, Kept, machine-AllKeep}

empty : (xs : List ℕ) → length xs ≡ 0 → xs ≡ []
empty [] e = refl
empty (x ∷ xs) e = absurd (omega (arith, e))

module _ (json : JsonLib) (junk : ℕ → Bytes) where
  -- A round of a thread leaves as many sources and threads.
  read_at-lengths :
      (rand : ℕ → ℕ) (i : ℕ) (ds : List Datasource) (ts : List ℕ) (s : Server)
      (r : List Datasource × List ℕ × StdMap ℕ ℕ)
      → read_at rand i ds ts s ≡ some r
      → (length r.0 ≡ length ds) × (length r.1 ≡ length ts)
  unfolding read_at
  read_at-lengths rand i [] ts s r e = ground (arith, e)
  read_at-lengths rand i (d ∷ ds) [] s r e = ground (arith, e)
  read_at-lengths rand zero (d ∷ ds) (t ∷ ts) s r e = elim (Option-cases (read_round rand d t s)) [
    | inl fault ↦ ground (arith, e, fault)
    | inr (o, done) ↦ ground (arith, e, done)
  ]
  read_at-lengths rand (suc i) (d ∷ ds) (t ∷ ts) s r e =
      elim (Option-cases (read_at rand i ds ts s)) [
        | inl fault ↦ ground (arith, e, fault)
        | inr (o, done) ↦ ground (arith, e, done, read_at-lengths rand i ds ts s o done)
      ]

  -- What a server comes to: commands, rounds of its threads, and events that are counted up.
  pub data Life (f : Fsm json Server) (s : Server) : Fsm json Server → Server → Type 0 where
    created : Life f s f s
    commanded :
        (f' : Fsm json Server) (s' : Server) (m : FsmMessage json)
        → Life f s f' s'
        → Life f s
            (process_command json Server f' s' m).machine
            (process_command json Server f' s' m).app
    round :
        (f' : Fsm json Server) (s' s'' : Server) (rand : ℕ → ℕ) (thread : ℕ)
        → Life f s f' s'
        → read_data rand thread s' ≡ some s''
        → Life f s f' s''
    counted : (f' : Fsm json Server) (s' : Server) → Life f s f' s' → Life f s f' (server_tick s')

  read_data-keeps :
      (state : Str) (s s' : Server) (rand : ℕ → ℕ) (thread : ℕ)
      → read_data rand thread s ≡ some s'
      → IsInService state s
      → IsInService state s'
  unfolding read_data
  read_data-keeps state s s' rand thread e i =
      elim (Option-cases (read_at rand thread s.sources s.threads s)) [
        | inl fault ↦ absurd (ground (arith, e, fault))
        | inr (o, done) ↦
            kept o (read_at-lengths rand thread s.sources s.threads s o done)
              (ground (arith, e, done)) i
      ]
    where
      kept :
          (o : List Datasource × List ℕ × StdMap ℕ ℕ)
          → (length o.0 ≡ length s.sources) × (length o.1 ≡ length s.threads)
          → s' ≡ record s { sources = o.0; threads = o.1; stat = o.2 }
          → IsInService state s
          → IsInService state s'
      kept o (l, l') same (inl (here, (on, each))) =
          inl (here, (ground (arith, same, on), ground (arith, same, l, l', each)))
      kept o (l, l') same (inr (other, (off, no_threads))) = inr (
        other,
        (
          ground (arith, same, off),
          ap (λ (q : Server). q.threads) same ∙ empty o.1 (l' ∙ ap length no_threads),
        ),
      )

  tick-keeps : (state : Str) (s : Server) → IsInService state s → IsInService state (server_tick s)
  unfolding server_tick increment_event
  tick-keeps state s (inl (here, (on, each))) = inl (here, ground (arith, on, each))
  tick-keeps state s (inr (other, (off, no_threads))) = inr (other, ground (arith, off, no_threads))

  Life-keeps :
      Laws json
      → (f : Fsm json Server) (s : Server) (f' : Fsm json Server) (s' : Server) → Kept json junk f
      → IsInService f.state s
      → Life f s f' s'
      → Kept json junk f' × IsInService f'.state s'
  Life-keeps laws f s _ _ keep i created = (keep, i)
  Life-keeps laws f s _ _ keep i (commanded g t m l) =
      let (keep', i') = Life-keeps laws f s g t keep i l in
      IsKept-process_command json Server IsInService laws g t m keep' i'
  Life-keeps laws f s _ _ keep i (round g t t' rand thread l done) =
      let (keep', i') = Life-keeps laws f s g t keep i l in
      (keep', read_data-keeps g.state t t' rand thread done i')
  Life-keeps laws f s _ _ keep i (counted g t l) =
      let (keep', i') = Life-keeps laws f s g t keep i l in (keep', tick-keeps g.state t i')

  -- In every state of the server that commands, whatever they say, rounds of its threads in which
  -- nothing undefined is done, and counted events lead to, in any order: in the state `RUNNING` the
  -- flag is set and there is one thread for each source; in any other state the flag is cleared and
  -- there is no thread. So no thread works on a source that a command has deleted.
  pub server-IsInService :
      Laws json
      → (f' : Fsm json Server) (s' : Server) → Life (server_machine json junk) new_server f' s'
      → IsInService f'.state s'
  unfolding server_machine new_server add_state new_fsm str_eq levbdim.Base.StdMap.str_less
  server-IsInService laws f' s' l =
      (Life-keeps laws (server_machine json junk) new_server f' s' (machine-AllKeep json junk)
        (inr (created-ne-running, (refl, refl))) l).1
