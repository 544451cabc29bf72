-- ===== src/Persist/File.antt =====
-- persist.go, `filePersist`: packets kept in files. The receiver is not nil.
pub mod Kept
pub mod Walked
pub mod Endless
use libmqtt.Prelude.{
  ℕ, zero, suc, ◌+◌, ◌-◌, ◌%◌, ◌^◌, ◌≡◌, Bool, true, false, List, [], ◌∷◌, ◌++◌, take, drop, length,
  ltb, leb, ◌==◌, ◌&&◌, ◌||◌, not, if◌then◌else◌, Option, none, some, Result, ok, err, panic, stuck,
  ◌>>=◌, Error, packet_dropped_by_strategy, bytes_eq,
}
use libmqtt.Util.Bytes.{Bytes}
use libmqtt.Packets.Types.{v311, Packet}
use libmqtt.Packets.Write.{bytes_of}
use libmqtt.Decoder.{decode}
use libmqtt.Persist.Strategy.{PersistStrategy, Table, put, erase}
use libmqtt.Persist.Mem.{default_persist_strategy}

-- What `filepath.Walk` calls its function with.
pub record Visit : Type 0 where
  pub path : Bytes
  pub name : Bytes
  pub is_dir : Bool
  pub failed : Bool

-- What that function returns: nil, or `SkipDir`.
pub data Verdict : Type 0 where
  go_on skip_dir : Verdict

-- The packages os, ioutil, path and filepath, over a state `F` of the files. `none` is an error of a
-- read, and no error of the others.
pub record FileSystem (F : Type 0) : Type 1 where
  pub join : Bytes → Bytes → Bytes
  pub read_file : Bytes → F → Option Bytes
  pub is_missing : Bytes → F → Bool
  pub write_file : Bytes → Bytes → F → F × Option Error
  pub remove : Bytes → F → F × Option Error
  pub remove_all : Bytes → F → F × Option Error
  -- The first visit is to the root.
  pub root : Bytes → F → Visit
  pub walk : {S : Type 0} → Bytes → F → (Visit → S → S × Verdict) → S → S
  -- A file that was written has what was written, and the others what they had.
  pub read_file-write_file :
      (path j content : Bytes) (files : F)
      → (write_file path content files).1 ≡ none
      → read_file j (write_file path content files).0
        ≡ (if bytes_eq path j then some content else read_file j files)
  -- Only the file of the path is removed.
  pub read_file-remove :
      (path j : Bytes) (files : F)
      → bytes_eq path j ≡ false
      → read_file j (remove path files).0 ≡ read_file j files
  -- A directory for which the function returns `SkipDir` is skipped with all that it holds.
  pub walk-skip_dir :
      {S : Type 0} (path : Bytes) (files : F) (f : Visit → S → S × Verdict) (s : S)
      → (root path files).is_dir ≡ true
      → (f (root path files) s).1 ≡ skip_dir
      → walk path files f s ≡ (f (root path files) s).0

-- `workers` counts the calls of `worker` that have been started.
pub record FilePersist (F : Type 0) : Type 0 where
  pub files : F
  pub dir_path : Bytes
  pub in_mem_buf : Table Packet
  pub strategy : PersistStrategy
  pub in_mem_size : ℕ
  pub n : ℕ
  pub workers : ℕ

abbrev pub file_suffix : Bytes
file_suffix = b'.' ∷ b'm' ∷ b'q' ∷ b't' ∷ b't' ∷ []

-- `strings.HasSuffix` and `strings.TrimSuffix`.
unfoldable pub has_suffix : Bytes → Bytes → Bool
has_suffix name suffix =
    leb (length suffix) (length name) && bytes_eq (drop (length name - length suffix) name) suffix

unfoldable pub trim_suffix : Bytes → Bytes → Bytes
trim_suffix name suffix =
    if has_suffix name suffix then take (length name - length suffix) name else name

abbrev pub strategy_or_default : Option PersistStrategy → PersistStrategy
unfolding default_persist_strategy
strategy_or_default none = default_persist_strategy
strategy_or_default (some s) = s

abbrev pub decoded : Option Bytes → Result Packet
decoded none = err Error.eof
decoded (some content) = do r ← decode v311 content; ok r.0

abbrev pub loaded : Result Packet → Result (Option Packet × Bool)
loaded (ok p) = ok (some p, true)
loaded (err e) = ok (none, false)
loaded panic = panic
loaded stuck = stuck

-- The calls of the caller's function, whose answer is dropped.
abbrev pub called : Bytes → List (Bytes × Packet) → Result Packet → Result (List (Bytes × Packet))
called name calls (ok p) = ok (calls ++ (trim_suffix name file_suffix, p) ∷ [])
called name calls (err e) = ok calls
called name calls panic = panic
called name calls stuck = stuck

module _ {F : Type 0} (system : FileSystem F) where
  unfoldable pub count_file : Visit → ℕ → ℕ × Verdict
  count_file v n =
      if v.failed || v.is_dir
      then (n, skip_dir)
      else if has_suffix v.name file_suffix
      then ((n + 1) % 2 ^ 32, go_on)
      else (n, go_on)

  unfoldable pub new_file_persist : Bytes → Option PersistStrategy → F → FilePersist F
  new_file_persist dir_path strategy files = record {
    files = files;
    dir_path = dir_path;
    in_mem_buf = [];
    strategy = strategy_or_default strategy;
    in_mem_size = 0;
    n = system.walk dir_path files count_file 0;
    workers = 0;
  }

  unfoldable pub get_filename : Bytes → FilePersist F → Bytes
  get_filename key m = system.join m.dir_path (key ++ file_suffix)

  unfoldable pub exists : Bytes → FilePersist F → Bool
  exists key m = not (system.is_missing (get_filename key m) m.files)

  -- The method `store`. The size in memory goes down by one, also if the packet was not in memory.
  abbrev pub written : FilePersist F → F × Option Error → FilePersist F × Result (Unit {0})
  written m (files, some e) = (record m { files = files }, err e)
  written m (files, none) = (
    record m {
      files = files;
      n = (m.n + 1) % 2 ^ 32;
      in_mem_size = (m.in_mem_size + (2 ^ 32 - 1)) % 2 ^ 32;
    },
    ok tt,
  )

  abbrev pub saved : Bytes → FilePersist F → Result Bytes → FilePersist F × Result (Unit {0})
  saved key m (ok bs) = written m (system.write_file (get_filename key m) bs m.files)
  saved key m (err e) = (m, err e)
  saved key m panic = (m, panic)
  saved key m stuck = (m, stuck)

  unfoldable pub save : Bytes → Option Packet → FilePersist F → FilePersist F × Result (Unit {0})
  save key none m = (m, ok tt)
  save key (some p) m = saved key m (bytes_of p)

  -- The method `Store`.
  unfoldable pub is_full : FilePersist F → Bool
  is_full m =
      ltb 0 m.strategy.max_count
      && m.strategy.drop_on_exceed
      && leb m.strategy.max_count ((m.n + m.in_mem_size) % 2 ^ 32)

  unfoldable pub buffer : Bytes → Option Packet → FilePersist F → FilePersist F
  buffer key p m = record m {
    in_mem_buf = put key p m.in_mem_buf;
    in_mem_size = (m.in_mem_size + 1) % 2 ^ 32;
    workers = if m.in_mem_size == 0 then m.workers + 1 else m.workers;
  }

  unfoldable pub store : Bytes → Option Packet → FilePersist F → FilePersist F × Result (Unit {0})
  store key p m =
      if is_full m
      then (m, err packet_dropped_by_strategy)
      else if not (exists key m) || m.strategy.duplicate_replace
      then (if ltb 0 m.strategy.interval then (buffer key p m, ok tt) else save key p m)
      else (m, ok tt)

  unfoldable pub get_packet_from_file : Bytes → FilePersist F → Result Packet
  get_packet_from_file path m = decoded (system.read_file path m.files)

  unfoldable pub load : Bytes → FilePersist F → Result (Option Packet × Bool)
  load key m = loaded (get_packet_from_file (get_filename key m) m)

  unfoldable pub range_file :
      FilePersist F
      → Visit
      → Result (List (Bytes × Packet))
      → Result (List (Bytes × Packet)) × Verdict
  range_file m v (ok calls) =
      if v.failed || v.is_dir
      then (ok calls, skip_dir)
      else if not (has_suffix v.name file_suffix)
      then (ok calls, go_on)
      else (called v.name calls (get_packet_from_file v.path m), go_on)
  range_file m v r = (r, go_on)

  unfoldable pub range : FilePersist F → Result (List (Bytes × Packet))
  range m = system.walk m.dir_path m.files (range_file m) (ok [])

  unfoldable pub delete : Bytes → FilePersist F → FilePersist F × Option Error
  delete key m =
      let r = system.remove (system.join m.dir_path key) m.files in (record m { files = r.0 }, r.1)

  unfoldable pub destroy : FilePersist F → FilePersist F × Option Error
  destroy m = let r = system.remove_all m.dir_path m.files in (record m { files = r.0 }, r.1)

  -- The loops of `worker`: over the packets in memory, each of them saved with its error dropped, and
  -- over the keys that were.
  abbrev pub unless_ended : FilePersist F × Result (Unit {0}) → Result (FilePersist F)
  unless_ended (m, ok u) = ok m
  unless_ended (m, err e) = ok m
  unless_ended (m, panic) = panic
  unless_ended (m, stuck) = stuck

  unfoldable pub save_all : Table Packet → FilePersist F → Result (FilePersist F)
  save_all [] m = ok m
  save_all ((key, none) ∷ t) m = save_all t m
  save_all ((key, some p) ∷ t) m = unless_ended (save key (some p) m) >>= λ m'. save_all t m'

  unfoldable pub erase_saved : Table Packet → Table Packet → Table Packet
  erase_saved [] t = t
  erase_saved ((key, none) ∷ ks) t = erase_saved ks t
  erase_saved ((key, some p) ∷ ks) t = erase_saved ks (erase key t)

  -- `worker`, with no other call in between, and with fuel for its calls of itself.
  unfoldable pub worker : ℕ → FilePersist F → Result (FilePersist F)
  worker zero m = stuck
  worker (suc fuel) m = save_all m.in_mem_buf m >>= λ m'.
      let m'' = record m' { in_mem_buf = erase_saved m.in_mem_buf m'.in_mem_buf } in
      let rest = worker fuel m'' in if ltb 0 m''.in_mem_size then rest else ok m''
