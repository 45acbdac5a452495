-- ===== src/Host/Toy.antt =====
-- A small machine that keeps the laws of Host.Laws, for tests and witnesses: one process whose
-- memory is a function, a program counter, the wait statuses to come, a clock that moves at each
-- wait, the persona, and the signals sent.
use native.Mathlib.Nat.{mod-eq_of_lt, mod-lt, one-le-pow}
use rustybug.Prelude.{
  ℕ, suc, ◌+◌, ◌%◌, ◌^◌, ◌<◌, ◌≡◌, ◌≢◌, refl, sym, subst, true, none, some, List, [], ◌∷◌, ◌++◌,
  ◌==◌, if◌then◌else◌, arith,
}
use rustybug.Prelude.Outcome.{Outcome, ok, err}
use rustybug.Host.{Pid, Signal, WaitStatus, still_alive, parent, Host, World}
use rustybug.Host.Laws.{PtraceLaws, WaitLaws}

pub record Machine : Type 0 where
  pub memory : ℕ → ℕ
  pub rip : ℕ
  pub statuses : List WaitStatus
  pub clock : ℕ
  pub persona : ℕ
  pub signals : List (Pid × Signal)
  pub output : List ℕ

abbrev written : ℕ → ℕ → Machine → Machine
written a v m = record m { memory = λ x. if x == a then v else m.memory x }

abbrev next_status : List WaitStatus → WaitStatus
next_status [] = still_alive
next_status (s ∷ ss) = s

abbrev later_statuses : List WaitStatus → List WaitStatus
later_statuses [] = []
later_statuses (s ∷ ss) = ss

abbrev pub toy : Host Machine ℕ ℕ
toy = record {
  overflow_checks = true;
  ptrace_read = λ pid a m. ok (m.memory a % 2 ^ 64);
  ptrace_write = λ pid a v m. (ok tt, written a v m);
  ptrace_cont = λ pid sig m. (ok tt, m);
  ptrace_step = λ pid sig m. (ok tt, record m { rip = (m.rip + 1) % 2 ^ 64 });
  ptrace_detach = λ pid sig m. (ok tt, m);
  ptrace_attach = λ pid m. (ok tt, m);
  ptrace_traceme = λ m. (ok tt, m);
  ptrace_setoptions = λ pid o m. (ok tt, m);
  ptrace_getevent = λ pid m. ok 0;
  ptrace_getsiginfo = λ pid m. ok 0x80;
  ptrace_getregs = λ pid m. ok 0;
  ptrace_getfpregs = λ pid m. ok 0;
  ptrace_setregs = λ pid r m. (ok tt, m);
  ptrace_setfpregs = λ pid r m. (ok tt, m);
  peek_user = λ pid o m. (m.rip, 0);
  poke_user = λ pid o v m. ((0, 0), record m { rip = v });
  kill = λ pid s m. (ok tt, record m { signals = m.signals ++ (pid, s) ∷ [] });
  waitpid = λ pid nohang m. (
    ok (next_status m.statuses),
    record m { statuses = later_statuses m.statuses; clock = suc m.clock },
  );
  pipe = λ m. (ok (3, 4), m);
  fork = λ m. (ok (parent 7), m);
  setpgid = λ p q m. (ok tt, m);
  get_personality = λ m. ok m.persona;
  set_personality = λ p m. (ok m.persona, record m { persona = p });
  execve = λ p a e m. (err 2, m);
  read_fd = λ fd n m. (some m.output, record m { output = [] });
  close_fd = λ fd m. m;
  dup2 = λ fd to m. ((to, 0), m);
  read_file = λ path m. ok [];
  path_exists = λ path m. true;
  exe = λ pid m. none;
  maps = λ pid m. none;
  now = λ m. m.clock;
}

toy_read_written :
    (a v : ℕ) (m m' : Machine)
    → v < 2 ^ 64
    → written a v m ≡ m'
    → ◌≡◌ {A = Outcome ℕ ℕ} (ok (m'.memory a % 2 ^ 64)) (ok v)
toy_read_written a v m m' h e =
    subst (λ (x : Machine). ◌≡◌ {A = Outcome ℕ ℕ} (ok (x.memory a % 2 ^ 64)) (ok v)) e
      (ground (arith, mod-eq_of_lt h))

toy_read_elsewhere :
    (a v c : ℕ) (m m' : Machine)
    → c ≢ a
    → written a v m ≡ m'
    → ◌≡◌ {A = Outcome ℕ ℕ} (ok (m'.memory c % 2 ^ 64)) (ok (m.memory c % 2 ^ 64))
toy_read_elsewhere a v c m m' ne e =
    subst
      (λ (x : Machine). ◌≡◌ {A = Outcome ℕ ℕ} (ok (x.memory c % 2 ^ 64)) (ok (m.memory c % 2 ^ 64)))
      e (ground arith)

toy_read_lt : (x v : ℕ) → ◌≡◌ {A = Outcome ℕ ℕ} (ok (x % 2 ^ 64)) (ok v) → v < 2 ^ 64
toy_read_lt x v e = ground (arith, mod-lt x (one-le-pow 64 2 (omega arith)))

toy_no_error : (x : ℕ) → ◌≡◌ {A = Outcome ℕ (Unit {0})} (ok tt) (err x) → ⊥
toy_no_error x e = cc

abbrev jumped : ℕ → Machine → Machine
jumped v m = record m { rip = v }

toy_rip : (v : ℕ) (m m' : Machine) → jumped v m ≡ m' → ◌≡◌ {A = ℕ × ℕ} (m'.rip, 0) (v, 0)
toy_rip v m m' e = sym (λ i. ((e i).rip, 0))

toy_memory_kept :
    (v c : ℕ) (m m' : Machine)
    → jumped v m ≡ m'
    → ◌≡◌ {A = Outcome ℕ ℕ} (ok (m'.memory c % 2 ^ 64)) (ok (m.memory c % 2 ^ 64))
toy_memory_kept v c m m' e = sym (λ i. ok ((e i).memory c % 2 ^ 64))

pub toy-PtraceLaws : PtraceLaws toy
toy-PtraceLaws = record {
  read_lt = λ pid a v m e. toy_read_lt (m.memory a) v e;
  read_written = λ pid a v m m' h e. toy_read_written a v m m' h (λ i. (e i).1);
  read_elsewhere = λ pid a v c m m' ha hc ne e. toy_read_elsewhere a v c m m' ne (λ i. (e i).1);
  read_unwritten = λ pid a v c x m m' e. absurd (toy_no_error x (λ i. (e i).0));
  peek_poked = λ pid v ret x m m' h ne e. (0, toy_rip v m m' (λ i. (e i).1), λ _. refl);
  read_poked = λ pid v c ret x m m' e. toy_memory_kept v c m m' (λ i. (e i).1);
}

pub toy-WaitLaws : WaitLaws toy
toy-WaitLaws = record { later = λ pid nohang m. omega arith; returns = λ pid nohang m. tt }

-- A machine at rest: a word of instructions at 0x1000, and nothing else.
abbrev pub at_rest : Machine
at_rest = record {
  memory = λ a. if a == 0x1000 then 0x8877665544332211 else 0;
  rip = 0x1000;
  statuses = [];
  clock = 0;
  persona = 0;
  signals = [];
  output = [];
}

abbrev pub world_at : Machine → World Machine
world_at m = record { os = m; current_id = 0; loaded_files = [] }
