-- ===== src/Elf/Cache/Once.antt =====
-- The cache of src/elf.rs: a file is read once.
use rustybug.Prelude.{
  ℕ, ◌≡◌, refl, sym, ◌∙◌, Bool-cases, Option-cases, inl, inr, Option, none, some, List, [], ◌∷◌,
}
use rustybug.Prelude.Paths.{components, path_eq, path_eq→eq, path_eq_same, path_eq_self}
use rustybug.Prelude.Outcome.{Outcome, ok, err, panic, out_of_fuel, reads, run_then-eq-ok}
use rustybug.Host.{Text, Errno, Host, World}
use rustybug.Elf.{Formats}
use rustybug.Elf.Cache.{get_bytes, cache_file, parsed, load}

get_bytes_first :
    (path : Text) (bytes : List ℕ) (cache : List (Text × List ℕ))
    → get_bytes path ((path, bytes) ∷ cache) ≡ some bytes
unfolding get_bytes
get_bytes_first path bytes cache = rw (path_eq_self path path refl) refl

-- A path is looked up by its components.
get_bytes_same :
    (p q : Text) (cache : List (Text × List ℕ))
    → components p ≡ components q
    → get_bytes p cache ≡ get_bytes q cache
unfolding get_bytes
get_bytes_same p q [] same = refl
get_bytes_same p q ((k, bytes) ∷ cache) same =
    rw (path_eq_same k p q same, get_bytes_same p q cache same) refl

module _ {Os Regs FpRegs : Type 0} (host : Host Os Regs FpRegs) where
  -- A file that is in the cache is not read again.
  cache_file-hit :
      (path : Text) (bytes : List ℕ) (w : World Os)
      → get_bytes path w.loaded_files ≡ some bytes
      → cache_file host path w ≡ (ok tt, w)
  unfolding cache_file
  cache_file-hit path bytes w e = rw (cache_file, e) refl

  cached :
      (path : Text) (w w1 : World Os) (o : Option (List ℕ))
      → get_bytes path w.loaded_files ≡ o
      → cache_file host path w ≡ (ok tt, w1)
      → (bytes : List ℕ) × (get_bytes path w1.loaded_files ≡ some bytes)
  unfolding cache_file
  cached path w w1 (some bytes) e run =
      let same : w ≡ w1 = λ i. ((sym (cache_file-hit path bytes w e) ∙ run) i).1 in
      (bytes, rw (← same) e)
  cached path w w1 none e run =
      let (bytes, w2, _, stored) =
        run_then-eq-ok (reads {E = Errno} (λ (w : World Os). host.read_file path w.os) w)
          (λ bytes w. (ok tt, record w { loaded_files = (path, bytes) ∷ w.loaded_files })) tt w1
          (rw (cache_file, e) at run) in
      let kept : w1.loaded_files ≡ (path, bytes) ∷ w2.loaded_files =
        sym (λ i. (stored i).1.loaded_files) in
      (bytes, rw kept (get_bytes_first path bytes w2.loaded_files))

  -- By what is read where the other file is not in the cache yet.
  read-keeps :
      (path q : Text) (bytes : List ℕ) (w : World Os) (r : Outcome Errno (List ℕ))
      → get_bytes q w.loaded_files ≡ none
      → host.read_file q w.os ≡ r
      → get_bytes path w.loaded_files ≡ some bytes
      → get_bytes path (cache_file host q w).1.loaded_files ≡ some bytes
  unfolding cache_file get_bytes
  read-keeps path q bytes w (ok content) new read e = elim (Bool-cases (path_eq q path)) [
    | inl same ↦
        let other = get_bytes_same q path w.loaded_files (path_eq→eq q path same) in
        absurd (cc (sym new ∙ other ∙ e))
    | inr differs ↦ rw (cache_file, new) (rw read (rw (get_bytes, differs) e))
  ]
  read-keeps path q bytes w (err x) new read e = rw (cache_file, new) (rw read e)
  read-keeps path q bytes w panic new read e = rw (cache_file, new) (rw read e)
  read-keeps path q bytes w out_of_fuel new read e = rw (cache_file, new) (rw read e)

  -- Caching any file leaves what the cache has of this one.
  cache_file-keeps :
      (path q : Text) (bytes : List ℕ) (w : World Os)
      → get_bytes path w.loaded_files ≡ some bytes
      → get_bytes path (cache_file host q w).1.loaded_files ≡ some bytes
  cache_file-keeps path q bytes w e = elim (Option-cases (get_bytes q w.loaded_files)) [
    | inl new ↦ read-keeps path q bytes w (host.read_file q w.os) new refl e
    | inr (there, has) ↦ rw (cache_file-hit q there w has) e
  ]

module _ {Os Regs FpRegs Obj Dwarf Header CompUnit : Type 0} (host : Host Os Regs FpRegs)
    (formats : Formats Obj Dwarf Header CompUnit) where
  load_with :
      (path : Text) (bytes : List ℕ) (w w1 : World Os)
      → cache_file host path w ≡ (ok tt, w1)
      → get_bytes path w1.loaded_files ≡ some bytes
      → load host formats path w ≡ (parsed host formats bytes, w1)
  unfolding load
  load_with path bytes w w1 run e = rw (load, run) (rw e refl)

  -- A load changes no more than the caching of its file.
  load-world :
      (q : Text) (w w1 : World Os) (r : Outcome Errno (Unit {0}))
      → cache_file host q w ≡ (r, w1)
      → (load host formats q w).1 ≡ w1
  unfolding load
  load-world q w w1 (ok u) e = rw (load, e) refl
  load-world q w w1 (err x) e = rw (load, e) refl
  load-world q w w1 panic e = rw (load, e) refl
  load-world q w w1 out_of_fuel e = rw (load, e) refl

  -- What may have happened by a later time: loads of any files, whatever came of them, and anything
  -- at all outside of the cache.
  pub data Later : World Os → World Os → Type 0 where
    now : {w : World Os} → Later w w
    loads : {w w2 : World Os} (q : Text) → Later (load host formats q w).1 w2 → Later w w2
    passes :
        {w w2 : World Os} (os : Os) (id : ℕ)
        → Later (record w { os = os; current_id = id }) w2
        → Later w w2

  still_cached :
      (path : Text) (bytes : List ℕ) (w w2 : World Os)
      → get_bytes path w.loaded_files ≡ some bytes
      → Later w w2
      → get_bytes path w2.loaded_files ≡ some bytes
  still_cached path bytes w w2 e now = e
  still_cached path bytes w w2 e (loads q rest) =
      let (r, w1) = cache_file host q w in
      let kept = cache_file-keeps host path q bytes w e in
      still_cached path bytes (load host formats q w).1 w2 (rw (load-world q w w1 r refl) kept) rest
  still_cached path bytes w w2 e (passes os id rest) =
      still_cached path bytes (record w { os = os; current_id = id }) w2 e rest

  -- If `cache_file` succeeds on a path, then there are bytes that a `load` of that path parses, and
  -- any `load` of that path at a later time parses the same bytes and changes nothing, whatever files
  -- have been loaded by then and whatever the file system holds, also where the path is spelled
  -- in another way with the same components.
  pub load-once :
      (path q : Text) (w w1 w2 : World Os)
      → cache_file host path w ≡ (ok tt, w1)
      → Later w1 w2
      → components q ≡ components path
      → (bytes : List ℕ) × (load host formats path w ≡ (parsed host formats bytes, w1))
        × (load host formats q w2 ≡ (parsed host formats bytes, w2))
  load-once path q w w1 w2 run after same =
      let (bytes, e) = cached host path w w1 (get_bytes path w.loaded_files) refl run in
      let there : get_bytes q w2.loaded_files ≡ some bytes =
        get_bytes_same q path w2.loaded_files same ∙ still_cached path bytes w1 w2 e after in
      (
        bytes,
        load_with path bytes w w1 run e,
        load_with q bytes w2 w2 (cache_file-hit host q bytes w2 there) there,
      )
