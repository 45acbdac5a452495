-- ===== src/Lib.antt =====
-- A verification library for rustybug, a small ptrace debugger for Linux written in Rust.
--
-- The program. src/main.rs runs the application: a loop that draws, takes a terminal event,
-- collects the tracee's output and polls it; a prompt with a history of commands; and one
-- `DebuggerStateMachine`. src/commands.rs parses the commands. src/lib.rs is the
-- `DebuggerStateMachine`: it starts a program or attaches to one, and passes on continuing,
-- stepping, waiting, registers and breakpoints. src/process.rs is the traced process,
-- src/breakpoint.rs a breakpoint in it, src/ptrace_control.rs the ptrace calls, src/linux.rs the
-- launch, and src/elf.rs the executable with its debug information.
--
-- The model. A call that may fail gives an `Outcome`: a value, an error, a panic, or nothing for
-- lack of fuel. A method on `&mut self` is an `Action` on the object and the `World`, which holds
-- the operating system and the two statics of the program, CURRENT_ID and LOADED_FILES; what it
-- has changed stays changed after an error. Everything outside the repository is a parameter: the
-- kernel, libc, nix, procfs, the file system and the clock are the record `Host`, and object,
-- gimli and rustc-demangle are the record `Formats`. What is relied on in the kernel is named in
-- PtraceLaws, WaitLaws, PersonalityLaws, CodeLaws (Process.Session) and IsLog
-- (Process.Life.Sends), in rustc-demangle in DemangleLaws (Elf), and in ratatui's layout in Splits
-- (App.Draw.Within); a small machine, a small file and a layout by rows show that these can hold.
-- Numbers are natural numbers; the u64 and i64 arithmetic that can wrap is written out, an i64 or
-- an i32 is kept as its bit pattern, and an arithmetic overflow panics where the build checks for
-- it. A text is the list of its code points; a path is a text, and two are compared by their
-- components (Prelude.Paths).
--
-- The files.
-- - Prelude and the files under it: shared names, lists, association lists, texts, `Outcome` and
--   `Action`. Words: the bits and bytes of 64-bit words.
-- - Host: the record of kernel calls, their laws (Host.Laws) and the small machine (Host.Toy).
-- - Ptrace: src/ptrace_control.rs, function by function.
-- - Breakpoint: src/breakpoint.rs; `Breakpoint::new`, `enable`, `disable`, `process` and the
--   others have their names. Under it what they do to memory; Breakpoint.Hit says when one is
--   hit; Breakpoint.Overlay sees the code in memory as the program's with interrupts at a set of
--   armed addresses, Process.Exec.Armed relates a process's breakpoints to that set;
--   Process.Session is the step relation of setting, resuming, stepping and waiting.
-- - Linux: src/linux.rs; `launch_program`, `execute`, `disable_aslr`, `is_aslr_enabled`,
--   `dup2_stdout`.
-- - Process: src/process.rs. Waiting is in Process.Wait, `resume`, `step` and `set_breakpoint` in
--   Process.Exec, registers, memory and output in Process.Access, `launch`, `attach` and `drop`
--   in Process.Life. The `&mut` references that `resume` collects are positions in the list of
--   breakpoints.
-- - Commands: src/commands.rs. The types are in Commands.Syntax, the standard library's integer
--   parsing in Commands.Numbers, the parsers in Commands.Parse, the texts that a user types in
--   Commands.Print; the unit tests of the source are checked in Commands.Tests.
-- - Elf: src/elf.rs, with the cache of files in Elf.Cache and the lookups in Elf.Lookup; a small
--   file is in Elf.Toy.
-- - Debugger: src/lib.rs; what it shows (`Args::name`, `list_breakpoints`, `log_status`) is in
--   Debugger.Show.
-- - App: src/main.rs, with the history and its keys in App.History, what a command logs in
--   App.Report, `draw` and the widget in App.Draw, over ratatui's layout as a parameter, `main`
--   in App.Start, and what it leaves of the process in App.Ending.
--
-- Fuel. Two loops are run on fuel: the one of `blocking_wait_on_signal`, which is given enough by
-- any number above its time limit in nanoseconds if each wait moves the clock, and the one that
-- makes room in the history, which is given enough by a number above the length of the history.
-- The main loop is run over a list of turns, each what the terminal answers to drawing and, after
-- that, to reading an event, a failure of either ending the run with its error; it stops where the
-- list ends. Everything else is structural recursion; `trim_start_matches` takes as many rounds as
-- the text is long, and each takes a character off.
--
-- Not modelled. Argument parsing and the terminal set-up around `main`, and the text of log
-- messages: what is logged of a command's answer is a `Message` before it is made into text.
-- Styles and the settings of the log widget are fixed and left out, and so is what is logged
-- besides. Output of the tracee is kept as its bytes. Only x86-64 is modelled.
pub mod Prelude
pub mod Words
pub mod Host
pub mod Ptrace
pub mod Breakpoint
pub mod Linux
pub mod Process
pub mod Commands
pub mod Elf
pub mod Debugger
pub mod App
