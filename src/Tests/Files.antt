-- ===== src/Tests/Files.antt =====
-- The theorems on packets in files at concrete inputs.
use libmqtt.Prelude.{
  ℕ, ◌+◌, ◌≤◌, ◌≡◌, refl, arith, true, false, List, [], ◌∷◌, ◌++◌, length, if◌then◌else◌, Option,
  none, some, ok, stuck, bytes_eq, bytes_eq_sound,
}
use libmqtt.Util.Bytes.{Bytes, put_uint16}
use libmqtt.Util.VarInt.{max_msg_size}
use libmqtt.Packets.Types.{v311, Packet, pub_ack, version, version_of, proto_version}
use libmqtt.Packets.Frame.V311.{body, first_byte, bytes_of-frame}
use libmqtt.Packets.Frame.{frame}
use libmqtt.Decoder.V311.RoundTrip.{received}
use libmqtt.Persist.Strategy.{PersistStrategy}
use libmqtt.Persist.File.{
  Visit, Verdict, go_on, skip_dir, FileSystem, FilePersist, file_suffix, get_filename, store, load,
  range, new_file_persist, is_full, worker,
}
use libmqtt.Persist.File.Kept.{load-store_at_once}
use libmqtt.Persist.File.Walked.{range-nothing}
use libmqtt.Persist.File.Endless.{worker-stuck}

-- A directory of files by their paths.
abbrev Files : Type 0
Files = List (Bytes × Bytes)

abbrev joined : Bytes → Bytes → Bytes
joined dir name = dir ++ b'/' ∷ name

abbrev dir_visit : Bytes → Visit
dir_visit path = record { path = path; name = path; is_dir = true; failed = false }

abbrev file_visit : Bytes → Visit
file_visit path = record { path = path; name = path; is_dir = false; failed = false }

-- The paths of the files, and what they have.
unfoldable content : Bytes → Files → Option Bytes
content path [] = none
content path ((p, c) ∷ fs) = if bytes_eq p path then some c else content path fs

unfoldable without : Bytes → Files → Files
without path [] = []
without path ((p, c) ∷ fs) =
    let rest = without path fs in if bytes_eq p path then rest else (p, c) ∷ rest

content-without :
    (path j : Bytes) (fs : Files)
    → bytes_eq path j ≡ false
    → content j (without path fs) ≡ content j fs
unfolding content without
content-without path j [] h = refl
content-without path j ((p, c) ∷ fs) h =
    ground (arith, bytes_eq_sound p path, content-without path j fs h)

-- The directory first, and then each of its files, up to the end that the function asks for.
unfoldable walk_files : {S : Type 0} → Files → (Visit → S → S × Verdict) → S × Verdict → S
walk_files fs f (s, skip_dir) = s
walk_files [] f (s, go_on) = s
walk_files ((p, c) ∷ fs) f (s, go_on) = walk_files fs f (f (file_visit p) s)

walk_files-skip_dir :
    {S : Type 0} (fs : Files) (f : Visit → S → S × Verdict) (r : S × Verdict)
    → r.1 ≡ skip_dir
    → walk_files fs f r ≡ r.0
unfolding walk_files
walk_files-skip_dir fs f (s, skip_dir) h = refl
walk_files-skip_dir fs f (s, go_on) h = ground arith

abbrev memory_files : FileSystem Files
unfolding content
memory_files = record {
  join = joined;
  read_file = content;
  is_missing = λ path fs. elim (content path fs) [ none ↦ true | some c ↦ false ];
  write_file = λ path c fs. ((path, c) ∷ fs, none);
  remove = λ path fs. (without path fs, none);
  remove_all = λ path fs. ([], none);
  root = λ path fs. dir_visit path;
  walk = λ path fs f s. walk_files fs f (f (dir_visit path) s);
  read_file-write_file = λ path j c fs h. refl;
  read_file-remove = content-without;
  walk-skip_dir = λ path fs f s h k. walk_files-skip_dir fs f _ k;
}

-- A PUBACK with the id 300.
abbrev acknowledged : Packet
acknowledged = pub_ack (record { proto_version = 4; packet_id = 300; code = 0; props = none })

acknowledged-version : version acknowledged ≡ v311
unfolding version version_of proto_version
acknowledged-version = refl

acknowledged_size : length (body acknowledged) ≤ max_msg_size
unfolding body put_uint16
acknowledged_size = omega arith

abbrev saving : ℕ → PersistStrategy
saving interval = record {
  interval = interval;
  max_count = 0;
  drop_on_exceed = true;
  duplicate_replace = true;
}

abbrev on_disk : ℕ → FilePersist Files
on_disk interval = record {
  files = [];
  dir_path = b'd' ∷ [];
  in_mem_buf = [];
  strategy = saving interval;
  in_mem_size = 0;
  n = 0;
  workers = 0;
}

abbrev a_key : Bytes
a_key = b'S' ∷ b'1' ∷ []

load-store_at_once_example :
    let r = store memory_files a_key (some acknowledged) (on_disk 0) in
    (r.1 ≡ ok tt)
    × (load memory_files a_key r.0 ≡ (
        if bytes_eq
          (get_filename memory_files a_key (on_disk 0))
          (get_filename memory_files a_key (on_disk 0))
        then ok (some (received acknowledged), true)
        else load memory_files a_key (on_disk 0)))
unfolding is_full memory_files
load-store_at_once_example =
    load-store_at_once memory_files a_key a_key acknowledged (on_disk 0)
      (record { has_room = refl; replaces = refl; at_once = refl; writes = λ c. refl })
      acknowledged-version (omega arith) acknowledged_size

-- A store with one file in its directory.
abbrev one_file : FilePersist Files
one_file = record (on_disk 0) {
  files = (joined (b'd' ∷ []) (a_key ++ file_suffix), 0x40 ∷ 2 ∷ 1 ∷ 44 ∷ []) ∷ [];
}

range-nothing_example :
    (range memory_files one_file ≡ ok [])
    × ((new_file_persist memory_files one_file.dir_path (some one_file.strategy) one_file.files).n
        ≡ 0)
unfolding memory_files
range-nothing_example = range-nothing memory_files one_file refl

worker-stuck_example :
    let m' =
      (store memory_files a_key
        (some acknowledged)
        (store memory_files a_key (some acknowledged) (on_disk 1)).0).0 in
    (m'.workers ≡ 0 + 1) × (worker memory_files 1000 m' ≡ stuck)
worker-stuck_example =
    worker-stuck memory_files 1000 a_key acknowledged acknowledged
      (frame (first_byte acknowledged) (body acknowledged)) (on_disk 1)
      (record { keeps_all = refl; replaces = refl; waits = omega arith }) refl refl
      (bytes_of-frame acknowledged acknowledged-version refl acknowledged_size)
