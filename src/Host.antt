-- ===== src/Host.antt =====
-- What rustybug runs on: the calls of nix, libc, procfs, the file system and the clock that
-- src/ptrace_control.rs, src/process.rs, src/linux.rs and src/breakpoint.rs make. All of it is a
-- parameter, the record `Host`, over a state of the operating system that it keeps to itself; the
-- state holds the future too, so that what a `waitpid` finds is fixed by it. Reads leave the state
-- as it is.
pub mod Laws
pub mod Wrap
pub mod Toy
use rustybug.Prelude.{ℕ, ◌+◌, ◌-◌, ◌^◌, Bool, Option, List, leb, ltb, if◌then◌else◌}
use rustybug.Prelude.Outcome.{Outcome, ok, panic, Action}

-- Text as its code points; a path is its text.
abbrev pub Text : Type 0
Text = List ℕ

-- A pid is an `i32`, kept as its bit pattern, a number below 2^32.
abbrev pub Pid : Type 0
Pid = ℕ

-- nix's `Errno` by its number, where `UnknownErrno` is 0.
abbrev pub Errno : Type 0
Errno = ℕ

abbrev pub unknown_errno : Errno
unknown_errno = 0

-- nix's `Signal` by its number on x86-64 Linux.
abbrev pub Signal : Type 0
Signal = ℕ

abbrev pub sigkill : Signal
sigkill = 9

abbrev pub sigcont : Signal
sigcont = 18

abbrev pub sigstop : Signal
sigstop = 19

-- nix's `WaitStatus`. Exit codes and event numbers are `i32` bit patterns.
pub data WaitStatus : Type 0 where
  exited : Pid → ℕ → WaitStatus
  signaled : Pid → Signal → Bool → WaitStatus
  stopped : Pid → Signal → WaitStatus
  ptrace_event : Pid → Signal → ℕ → WaitStatus
  ptrace_syscall : Pid → WaitStatus
  continued : Pid → WaitStatus
  still_alive : WaitStatus

-- nix's `ForkResult`
pub data ForkResult : Type 0 where
  parent : Pid → ForkResult
  child : ForkResult

-- procfs's `MemoryMap`: the path of a mapping that has one, and where it begins.
pub record MemoryMap : Type 0 where
  pub pathname : Option Text
  pub address : ℕ

pub record Host (Os Regs FpRegs : Type 0) : Type 0 where
  -- whether the build checks arithmetic for overflow, as the dev profile does
  pub overflow_checks : Bool
  -- nix::sys::ptrace
  pub ptrace_read : Pid → ℕ → Os → Outcome Errno ℕ
  pub ptrace_write : Pid → ℕ → ℕ → Action Os Errno (Unit {0})
  pub ptrace_cont : Pid → Option Signal → Action Os Errno (Unit {0})
  pub ptrace_step : Pid → Option Signal → Action Os Errno (Unit {0})
  pub ptrace_detach : Pid → Option Signal → Action Os Errno (Unit {0})
  pub ptrace_attach : Pid → Action Os Errno (Unit {0})
  pub ptrace_traceme : Action Os Errno (Unit {0})
  pub ptrace_setoptions : Pid → ℕ → Action Os Errno (Unit {0})
  pub ptrace_getevent : Pid → Os → Outcome Errno ℕ
  -- `si_code` of the signal's `siginfo_t`
  pub ptrace_getsiginfo : Pid → Os → Outcome Errno ℕ
  pub ptrace_getregs : Pid → Os → Outcome Errno Regs
  pub ptrace_getfpregs : Pid → Os → Outcome Errno FpRegs
  pub ptrace_setregs : Pid → Regs → Action Os Errno (Unit {0})
  pub ptrace_setfpregs : Pid → FpRegs → Action Os Errno (Unit {0})
  -- libc::ptrace with PTRACE_PEEKUSER and PTRACE_POKEUSER: the value returned, and `errno`
  -- afterwards
  pub peek_user : Pid → ℕ → Os → ℕ × ℕ
  pub poke_user : Pid → ℕ → ℕ → Os → (ℕ × ℕ) × Os
  -- nix::sys::signal, nix::sys::wait (whether WNOHANG is given), nix::unistd
  pub kill : Pid → Signal → Action Os Errno (Unit {0})
  pub waitpid : Pid → Bool → Action Os Errno WaitStatus
  pub pipe : Action Os Errno (ℕ × ℕ)
  pub fork : Action Os Errno ForkResult
  pub setpgid : Pid → Pid → Action Os Errno (Unit {0})
  pub get_personality : Os → Outcome Errno ℕ
  pub set_personality : ℕ → Action Os Errno ℕ
  -- it returns only with an error
  pub execve : Text → List Text → List Text → Action Os Errno ⊥
  -- libc::read of at most so many bytes: what was read, or nothing at an error
  pub read_fd : ℕ → ℕ → Os → Option (List ℕ) × Os
  pub close_fd : ℕ → Os → Os
  -- libc::dup2: the value returned, an `i32` as its bit pattern, and `errno` afterwards
  pub dup2 : ℕ → ℕ → Os → (ℕ × ℕ) × Os
  -- the file system and procfs
  pub read_file : Text → Os → Outcome Errno (List ℕ)
  pub path_exists : Text → Os → Bool
  pub exe : Pid → Os → Option Text
  pub maps : Pid → Os → Option (List MemoryMap)
  -- `Instant::now`, in nanoseconds
  pub now : Os → ℕ

-- `a - b` on `u64`
abbrev pub sub_u64 : {E : Type 0} → Bool → ℕ → ℕ → Outcome E ℕ
sub_u64 checks a b = if leb b a then ok (a - b) else if checks then panic else ok (a + 2 ^ 64 - b)

-- `a + b` on `u64`
abbrev pub add_u64 : {E : Type 0} → Bool → ℕ → ℕ → Outcome E ℕ
add_u64 checks a b =
    if ltb (a + b) (2 ^ 64) then ok (a + b) else if checks then panic else ok (a + b - 2 ^ 64)

-- The part of the program's memory that is no field of an object: the operating system and the
-- statics CURRENT_ID of src/breakpoint.rs and LOADED_FILES of src/elf.rs.
pub record World (Os : Type 0) : Type 0 where
  pub os : Os
  pub current_id : ℕ
  pub loaded_files : List (Text × List ℕ)

-- A kernel call, made by code that has the world at hand.
abbrev pub on_os : {Os E A : Type 0} → Action Os E A → Action (World Os) E A
on_os m w = let (r, o) = m w.os in (r, record w { os = o })

-- Code on the world, called by a method that has an object too.
abbrev pub on_world : {W T E A : Type 0} → Action W E A → Action (T × W) E A
on_world m (t, w) = let (r, w') = m w in (r, (t, w'))
