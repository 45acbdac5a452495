-- ===== src/Linux/Launch.antt =====
-- When `launch_program` of src/linux.rs finds nothing to launch, and that `execute` does not come back.
use rustybug.Prelude.{
  ℕ, ◌≡◌, refl, Bool, true, false, Option, none, some, List, [], ◌∷◌, ◌++◌, map, if◌then◌else◌,
  Bool-cases, inl, inr,
}
use rustybug.Prelude.Outcome.{
  Outcome, ok, err, panic, out_of_fuel, Action, pure, map_err, with_err, ◌>>=◌, ◌>>◌, ignore,
  run_then-eq-ok, run_then,
}
use rustybug.Host.{Text, Pid, Errno, ForkResult, parent, child, Host}
use rustybug.Ptrace.{request_trace}
use rustybug.Linux.{
  LaunchedProcess, LaunchError, os_error, failed_to_run, c_string, disable_aslr, is_aslr_enabled,
  execute, launch_program,
}

-- An action that gives no value.
abbrev Fails : {S E A : Type 0} → Action S E A → Type 0
Fails {S} {E} {A} m = (s s' : S) (a : A) → m s ≡ (ok a, s') → ⊥

bind-Fails :
    {S E A B : Type 0} (m : Action S E A) (k : A → Action S E B)
    → ((a : A) → Fails (k a))
    → Fails (m >>= k)
bind-Fails m k fails s s' b run =
    let (a, t, _, rest) = run_then-eq-ok (m s) k b s' run in fails a t s' b rest

module _ {Os Regs FpRegs : Type 0} (host : Host Os Regs FpRegs) where
  -- The last steps of `execute`, one by one.
  abbrev replace : Text → List Text → List (Text × Text) → Action Os LaunchError Pid
  replace test argv envar = do
    never ← with_err os_error (
        host.execve (c_string test) (map c_string argv)
          (map (λ (k, v). c_string (k ++ (b'=' ∷ []) ++ v)) envar))
    absurd never

  abbrev trace_and_replace : Text → List Text → List (Text × Text) → Action Os LaunchError Pid
  trace_and_replace test argv envar = do
    with_err os_error (request_trace host)
    replace test argv envar

  abbrev settle_layout : Bool → Action Os LaunchError (Unit {0})
  settle_layout enabled = if enabled then with_err os_error (disable_aslr host) else pure tt

  -- `execve` has no value to come back with.
  execute-Fails :
      (test : Text) (argv : List Text) (envar : List (Text × Text))
      → Fails (execute host test argv envar)
  unfolding execute
  execute-Fails test argv envar =
      bind-Fails (ignore {E = Errno} (host.setpgid 0 0))
        (λ _. do
          enabled ← (λ os. (ok (is_aslr_enabled host os), os))
          settle_layout enabled
          trace_and_replace test argv envar)
        (λ _.
          bind-Fails (λ os. (ok (is_aslr_enabled host os), os))
            (λ enabled. do settle_layout enabled; trace_and_replace test argv envar)
            (λ enabled.
              bind-Fails (settle_layout enabled) (λ _. trace_and_replace test argv envar)
                (λ _.
                  bind-Fails (with_err os_error (request_trace host)) (λ _. replace test argv envar)
                    (λ _. bind-Fails _ (λ never. absurd never) (λ never. absurd never)))))

  -- By what a call of `launch_program` gives, and the system it leaves: only a path that does not exist
  -- gives no process and does nothing. A process is the child that was forked after a pipe was made,
  -- with the reading end of that pipe for its output, and the writing end is closed.
  abbrev pub Launches : Text → Os → Outcome LaunchError (Option LaunchedProcess) → Os → Type 0
  Launches exe os (ok none) os' = (host.path_exists exe os ≡ false) × (os' ≡ os)
  Launches exe os (ok (some h)) os' =
      (host.path_exists exe os ≡ true)
      × ((reader : ℕ) × (writer : ℕ) × (os1 : Os) × (os2 : Os) × (host.pipe os
            ≡ (ok (reader, writer), os1))
          × (host.fork os1 ≡ (ok (parent h.pid), os2))
          × (h.stdout_reader ≡ some reader)
          × (os' ≡ host.close_fd writer os2))
  Launches exe os _ os' = host.path_exists exe os ≡ true

  abbrev child_end : Outcome LaunchError Pid → Outcome LaunchError (Option LaunchedProcess)
  child_end failed = elim failed [
    | ok _ ↦ ok none
    | err e ↦ err e
    | panic ↦ panic
    | out_of_fuel ↦ out_of_fuel
  ]

  child-Launches :
      (exe : Text) (os os' : Os) (r : Outcome LaunchError Pid)
      → host.path_exists exe os ≡ true
      → ((pid : Pid) → r ≡ ok pid → ⊥)
      → Launches exe os (child_end r) os'
  child-Launches exe os os' (ok pid) there never = absurd (never pid refl)
  child-Launches exe os os' (err e) there never = there
  child-Launches exe os os' panic there never = there
  child-Launches exe os os' out_of_fuel there never = there

  -- The two sides of the fork.
  abbrev sides :
      Text
      → ℕ
      → ℕ
      → Outcome Errno ForkResult × Os
      → Outcome LaunchError (Option LaunchedProcess) × Os
  sides exe reader writer (answer, os2) = elim answer [
    | ok (parent pid) ↦
        (ok (some (record { pid = pid; stdout_reader = some reader })), host.close_fd writer os2)
    | ok child ↦
        let (failed, os3) = execute host exe [] [] (host.close_fd reader os2) in
        (child_end failed, host.close_fd writer os3)
    | err e ↦ (err (failed_to_run e), host.close_fd reader (host.close_fd writer os2))
    | panic ↦ (panic, os2)
    | out_of_fuel ↦ (out_of_fuel, os2)
  ]

  sides-Launches :
      (exe : Text) (os os1 : Os) (reader writer : ℕ) (m : Outcome Errno ForkResult × Os)
      → host.path_exists exe os ≡ true
      → host.pipe os ≡ (ok (reader, writer), os1)
      → host.fork os1 ≡ m
      → (let (r, os') = sides exe reader writer m in Launches exe os r os')
  sides-Launches exe os os1 reader writer (ok (parent pid), os2) there piped forked =
      (there, (reader, writer, os1, os2, piped, forked, refl, refl))
  sides-Launches exe os os1 reader writer (ok child, os2) there piped forked =
      let (failed, os3) = execute host exe [] [] (host.close_fd reader os2) in
      child-Launches exe os (host.close_fd writer os3) failed there
        (λ pid e. execute-Fails exe [] [] (host.close_fd reader os2) os3 pid (λ i. (e i, os3)))
  sides-Launches exe os os1 reader writer (err e, os2) there piped forked = there
  sides-Launches exe os os1 reader writer (panic, os2) there piped forked = there
  sides-Launches exe os os1 reader writer (out_of_fuel, os2) there piped forked = there

  piped-Launches :
      (exe : Text) (os : Os) (m : Outcome Errno (ℕ × ℕ) × Os)
      → host.path_exists exe os ≡ true
      → host.pipe os ≡ m
      → (let (r, os') =
            run_then
              (map_err os_error m.0, m.1)
              (λ (reader, writer). λ os1. sides exe reader writer (host.fork os1)) in
          Launches exe os r os')
  piped-Launches exe os (ok (reader, writer), os1) there piped =
      sides-Launches exe os os1 reader writer (host.fork os1) there piped refl
  piped-Launches exe os (err e, os1) there piped = there
  piped-Launches exe os (panic, os1) there piped = there
  piped-Launches exe os (out_of_fuel, os1) there piped = there

  -- `launch_program` returns no process exactly if the path does not exist, and then does nothing.
  -- Otherwise it fails, or it returns a process: the child that was forked after a pipe was made, with
  -- the reading end of that pipe for its output, and the writing end has been closed.
  pub launch_program-Launches :
      (exe : Text) (os : Os) → (let (r, os') = launch_program host exe os in Launches exe os r os')
  unfolding launch_program
  launch_program-Launches exe os = elim (Bool-cases (host.path_exists exe os)) [
    | inl there ↦ rw (launch_program, there) (piped-Launches exe os (host.pipe os) there refl)
    | inr missing ↦ rw (launch_program, missing) (missing, refl)
  ]
