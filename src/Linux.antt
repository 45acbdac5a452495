-- ===== src/Linux.antt =====
-- src/linux.rs: launching the tracee. The child of `fork` goes on in `execute`, so a run of
-- `launch_program` is a run of the parent or of the child, as `fork` answers.
use rustybug.Prelude.{
  ℕ, ◌^◌, ◌-◌, bit_and, bit_or, Bool, true, false, not, ◌||◌, Option, none, some, List, [], ◌∷◌,
  ◌++◌, map, ◌==◌, if◌then◌else◌,
}
use rustybug.Prelude.Outcome.{
  Outcome, ok, err, panic, out_of_fuel, Action, pure, reads, with_err, ◌>>=◌, ◌>>◌, ignore,
}
use rustybug.Host.{Text, Pid, Errno, ForkResult, parent, child, Host}
use rustybug.Ptrace.{request_trace}
pub mod Aslr
pub mod Launch
mod Tests

pub record LaunchedProcess : Type 0 where
  pub pid : Pid
  pub stdout_reader : Option ℕ

-- The `anyhow::Error` that `launch_program` and `execute` give.
pub data LaunchError : Type 0 where
  os_error : Errno → LaunchError
  failed_to_run : Errno → LaunchError

-- `Persona::ADDR_NO_RANDOMIZE`
abbrev pub addr_no_randomize : ℕ
addr_no_randomize = 0x0040000

abbrev pub has_nul : Text → Bool
has_nul [] = false
has_nul (c ∷ s) = c == 0 || has_nul s

-- `CString::new(…).unwrap_or_default()`: a text with a NUL becomes the empty one.
abbrev pub c_string : Text → Text
c_string s = if has_nul s then [] else s

module _ {Os Regs FpRegs : Type 0} (host : Host Os Regs FpRegs) where
  -- The new descriptor is STDOUT_FILENO. `Errno::result` takes -1 for an error.
  unfoldable pub dup2_stdout : ℕ → Action Os Errno (Unit {0})
  dup2_stdout fd os =
      let ((res, errno), os') = host.dup2 fd 1 os in
      (if res == 2 ^ 32 - 1 then err errno else ok tt, os')

  unfoldable pub disable_aslr : Action Os Errno (Unit {0})
  disable_aslr = do
    this ← reads host.get_personality
    host.set_personality (bit_or this addr_no_randomize)
    pure tt

  -- An error counts as "not enabled".
  unfoldable pub is_aslr_enabled : Os → Bool
  is_aslr_enabled os = elim (host.get_personality os) [
    | ok x ↦ not (bit_and x addr_no_randomize == addr_no_randomize)
    | _ ↦ not true
  ]

  -- It comes back only with an error.
  unfoldable pub execute : Text → List Text → List (Text × Text) → Action Os LaunchError Pid
  execute test argv envar = do
    let program = c_string test
    ignore {E = Errno} (host.setpgid 0 0)
    enabled ← (λ os. (ok (is_aslr_enabled os), os))
    (if enabled then with_err os_error disable_aslr else pure tt)
    with_err os_error (request_trace host)
    never ← with_err os_error (
        host.execve program (map c_string argv)
          (map (λ (k, v). c_string (k ++ (b'=' ∷ []) ++ v)) envar))
    absurd never

  -- The ends of the pipe are closed where the code drops them.
  unfoldable pub launch_program : Text → Action Os LaunchError (Option LaunchedProcess)
  launch_program exe os =
      if not (host.path_exists exe os)
      then (ok none, os)
      else (do
        (reader, writer) ← with_err os_error host.pipe
        λ os1.
            let (answer, os2) = host.fork os1 in
            elim answer [
              | ok (parent pid) ↦ (
                ok (some (record { pid = pid; stdout_reader = some reader })),
                host.close_fd writer os2,
              )
              | ok child ↦
                  let (failed, os3) = execute exe [] [] (host.close_fd reader os2) in
                  (
                    elim failed [
                      | ok _ ↦ ok none
                      | err e ↦ err e
                      | panic ↦ panic
                      | out_of_fuel ↦ out_of_fuel
                    ],
                    host.close_fd writer os3,
                  )
              | err e ↦ (err (failed_to_run e), host.close_fd reader (host.close_fd writer os2))
              | panic ↦ (panic, os2)
              | out_of_fuel ↦ (out_of_fuel, os2)
            ])
          os
