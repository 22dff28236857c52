-- ===== src/Job/Kill.antt =====
-- src/fsmjob.cxx: the table holds running processes only, and `KILL` ends them all.
use mathlib.Core.Path.{ap₂}
use levbdim.Base.{
  ℕ, ◌<◌, ◌^◌, ◌≡◌, refl, ap, ◌∙◌, arith, List, [], ◌∷◌, Option-cases, some, ◌≢◌, inl, inr, Str,
  str_eq, codes, map, All, ==_refl,
}
use levbdim.Base.StdMap
use levbdim.Base.StdMap.{keys, All-place, nat_key}
use levbdim.Json.{JsonLib, Laws, appended}
use levbdim.Fsm.Message.{FsmMessage, set_answer, key_ne}
use levbdim.Job.Table.{
  FsmJob, System, ProcessMap, ProcessData, running, kill_process, kill_in, json_status, status_of,
  status_array,
}
use levbdim.Job.Status.{process_status}
use levbdim.Job.Control.{Net, kill_all, kill}

pid-ne-name : codes "PID" ≢ codes "NAME"
unfolding str_eq
pid-ne-name = key_ne (codes "PID") (codes "NAME") refl

pid-ne-status : codes "PID" ≢ codes "STATUS"
unfolding str_eq
pid-ne-status = key_ne (codes "PID") (codes "STATUS") refl

pub All-insert :
    {V : Type 0} (P : ℕ × V → Type 0) (k : ℕ) (v : V) (m : StdMap.StdMap ℕ V)
    → P (k, v)
    → All P m
    → All P (StdMap.insert k v m)
unfolding StdMap.insert
All-insert P k v m h a = elim (Option-cases (StdMap.find k m)) [
  | inl none' ↦ rw (none', StdMap.insert) (All-place P k v m h a)
  | inr (u, some') ↦ rw (some', StdMap.insert) a
]

module _ (json : JsonLib) where
  open json use {Value, null, get, set, as_uint, of_int, of_string, append, items}

  -- Every entry is a running process under its own id, which as an `int` is not negative.
  abbrev pub IsRunning : ℕ × ProcessData json → Type 0
  IsRunning (pid, p) = (p.status ≡ running) × (p.child_pid ≡ pid) × (pid < 2 ^ 31)

  abbrev pub IsTable : ProcessMap json → Type 0
  IsTable m = All IsRunning m

  abbrev pid_of : Value → ℕ
  pid_of book = as_uint (get (codes "PID") book)

  module _ {W : Type 0} (sys : System W) (net : Net W) where
    -- The signal goes to each process in turn.
    abbrev pub kill_each : List ℕ → ℕ → W → W
    kill_each [] sig w = w
    kill_each (pid ∷ pids) sig w = kill_each pids sig (sys.kill pid sig w)

    kill_process_first :
        (sig : ℕ) (w : W) (pid : ℕ) (p : ProcessData json) (m : ProcessMap json)
        → p.status ≡ running
        → kill_in json sys pid sig w ((pid, p) ∷ m) ≡ (sys.kill pid sig w, m)
    unfolding kill_in
    kill_process_first sig w pid p m run = rw (run, kill_in) (rw (==_refl pid) refl)

    kill_process_hit :
        (sig k : ℕ) (w : W) (j : FsmJob json) (pid : ℕ) (p : ProcessData json) (m : ProcessMap json)
        → p.status ≡ running
        → k ≡ pid
        → kill_process json sys k sig w (record j { process_map = (pid, p) ∷ m })
          ≡ (sys.kill pid sig w, record j { process_map = m })
    unfolding kill_process
    kill_process_hit sig k w j pid p m run same =
        ap (λ i. kill_process json sys i sig w (record j { process_map = (pid, p) ∷ m })) same
        ∙ (ap (λ wm. (wm.0, record j { process_map = wm.1 }))
            (kill_process_first sig w pid p m run))

    kill_all_lem :
        (books : List Value) (w : W) (j : FsmJob json) (m : ProcessMap json)
        → IsTable m
        → map pid_of books ≡ keys m
        → kill_all json sys net books w (record j { process_map = m })
          ≡ (kill_each (keys m) 9 w, record j { process_map = [] })
    unfolding kill_all
    kill_all_lem [] w j [] ok same = refl
    kill_all_lem [] w j (e ∷ m) ok same = ground arith
    kill_all_lem (b ∷ books) w j [] ok same = ground arith
    kill_all_lem (b ∷ books) w j ((pid, p) ∷ m) ok same =
        ap (λ wj. kill_all json sys net books wj.0 wj.1)
          (kill_process_hit 9 (pid_of b) w j pid p m ok.0.0 (ground arith))
        ∙ kill_all_lem books (sys.kill pid 9 w) j m ok.1 (ground arith)

    module _ (laws : Laws json) where
      -- The status of a process names it by its id.
      pid_of-status_of :
          (host : Str) (w : W) (pid : ℕ) (p : ProcessData json) (s : Str)
          → pid < 2 ^ 31
          → process_status (sys.status_lines pid w) ≡ some s
          → (book : Value) × (status_of json sys host w (pid, p) ≡ some book) × (pid_of book ≡ pid)
      unfolding status_of
      pid_of-status_of host w pid p s small read = (
        book,
        rw read refl,
        ap as_uint (
              laws.get-set_other (codes "STATUS") (codes "PID") (of_string s) named
                (laws.has_members-set
                  (laws.has_members-set (laws.has_members-set laws.has_members-null)))
                pid-ne-status
              ∙ (laws.get-set_other (codes "NAME") (codes "PID") (get (codes "NAME") p.process_info)
                    numbered (laws.has_members-set (laws.has_members-set laws.has_members-null))
                    pid-ne-name
                  ∙ laws.get-set_self (codes "PID") (of_int pid)
                      (set (codes "HOST") (of_string host) null)
                      (laws.has_members-set laws.has_members-null)))
            ∙ laws.as_uint-of_int pid small,
      )
        where
          numbered : Value
          numbered = set (codes "PID") (of_int pid) (set (codes "HOST") (of_string host) null)

          named : Value
          named = set (codes "NAME") (get (codes "NAME") p.process_info) numbered

          book : Value
          book = set (codes "STATUS") (of_string s) named

      -- Every line of status is readable.
      abbrev pub IsReadable : W → ℕ × ProcessData json → Type 0
      IsReadable w (pid, p) = (s : Str) × (process_status (sys.status_lines pid w) ≡ some s)

      status_array-keys :
          (array : Value) (host : Str) (w : W) (m : ProcessMap json)
          → IsTable m
          → All (IsReadable w) m
          → (books : List Value) × (status_array json sys array host w m
              ≡ some (appended json array books))
            × (map pid_of books ≡ keys m)
      unfolding status_array
      status_array-keys array host w [] ok read = ([], refl, refl)
      status_array-keys array host w ((pid, p) ∷ m) ok read =
          let (book, is, named) = pid_of-status_of host w pid p read.0.0 ok.0.2 read.0.1 in
          let (books, are, same) = status_array-keys (append array book) host w m ok.1 read.1 in
          (book ∷ books, rw (is, are), ap₂ (λ x xs. x ∷ xs) named same)

      -- `KILL` on a table of running processes whose status can be read sends signal 9 to each of
      -- them once, in the order of the table, leaves the table empty, and answers with no process.
      pub kill_lem :
          (w : W) (j : FsmJob json) (m : FsmMessage json)
          → IsTable j.process_map
          → All (IsReadable w) j.process_map
          → kill json sys net w j m
            ≡ some (
              kill_each (keys j.process_map) 9 w,
              record j { process_map = [] },
              set_answer json null m,
            )
      unfolding kill json_status status_array
      kill_lem w j m ok read =
          let (books, are, same) = status_array-keys null j.hostname w j.process_map ok read in
          rw (are, laws.items-appended books) (rw (kill_all_lem books w j j.process_map ok same))
