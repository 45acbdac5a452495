-- ===== src/Process/Life/Toy.antt =====
-- The small machine logs the signals that src/process.rs sends.
use rustybug.Prelude.{refl}
use rustybug.Host.Toy.{toy}
use rustybug.Process.Life.Sends.{IsLog}

pub toy-IsLog : IsLog toy (λ m. m.signals)
toy-IsLog = record {
  killed = λ pid s m. refl;
  waited = λ pid nohang m. refl;
  detached = λ pid s m. refl;
  closed = λ fd m. refl;
  kill_returns = λ pid s m. tt;
  wait_returns = λ pid nohang m. tt;
  detach_returns = λ pid s m. tt;
}
