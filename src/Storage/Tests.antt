-- ===== src/Storage/Tests.antt =====
-- Two entries on disk, a file that is cut short, and their replay.
use let_dx.Base.{
  bit_xor, ◌≢◌, ◌≡◌, ℕ, true, false, some, List, [], ◌∷◌, ◌++◌, arith, length, take, refl,
}
use let_dx.Base.Bytes.{le_bytes}
use let_dx.Result.{ok, err}
use let_dx.Account.{AccountList, IsValid, account_list_new}
use let_dx.Storage.Crc.{crc_step, crc_table, crc_tail, crc_chunks, crc32c}
use let_dx.Storage.Crc.Reference.{divide_bytes, crc32c-divides}
use let_dx.Storage.Crc.Detection.{crc32c-detects}
use let_dx.Storage.Wal.Replay.Altered.{Detected, wal_replay-Detected}
use let_dx.Storage.Wal.{
  Entry, EntryData, EntryFits, entry_type, payload_bytes, entry_bytes, safe_bytes, read_entry,
}
use let_dx.Storage.Wal.Bytes.{read_entry-entry_bytes}
use let_dx.Storage.Wal.File.{Wal, wal_empty, sys_write}
use let_dx.Storage.Wal.Log.{header_bytes, log_file}
use let_dx.Storage.Wal.Open.{
  OpenDevice, created, wal_init, open_file, write_header, write_version, seek_end,
}
use let_dx.Storage.Wal.Write.{WriteDevice, wal_write}
use let_dx.Storage.Wal.Crash.{Found, wal_write_crash}
use let_dx.Storage.Wal.Replay.{ReplayDevice, wal_replay, wal_seek}
use let_dx.Storage.Wal.Replay.Apply.{Works}
use let_dx.Storage.Wal.Replay.Ends.{Damaged, cut}
use let_dx.Storage.Wal.Replay.Recovery.{IsLog, Recovered, wal_replay_truncates}
use let_dx.Storage.Wal.Replay.Refusal.{damage, wal_replay_refuses}

abbrev pub first_entry : Entry
first_entry = record { id = 0; timestamp = 5; payload = EntryData.add_account 0 100 3 }

abbrev pub second_entry : Entry
second_entry = record { id = 1; timestamp = 5; payload = EntryData.add_account 0 7 3 }

abbrev pub log : List Entry
log = first_entry ∷ second_entry ∷ []

abbrev pub file : Wal
file = record {
  transactions = 2;
  opened = true;
  bytes = log_file log;
  offset = length (log_file log);
}

pub first_entry-EntryFits : EntryFits first_entry
first_entry-EntryFits = record {
  id_fits = omega arith;
  timestamp_fits = omega arith;
  payload_fits = (omega arith, omega arith, omega arith);
}

pub second_entry-EntryFits : EntryFits second_entry
second_entry-EntryFits = record {
  id_fits = omega arith;
  timestamp_fits = omega arith;
  payload_fits = (omega arith, omega arith, omega arith);
}

-- A system on which nothing fails.
abbrev pub replay_device : ReplayDevice
replay_device = record {
  seeks_start = true;
  seeks_end = true;
  truncates = true;
  reads = λ offset. some 54;
  clock = λ seq. some 9;
  alloc = λ seq size. true;
}

pub replay_device-Works : Works replay_device
replay_device-Works = record {
  seeks_start = refl;
  seeks_end = refl;
  truncates = refl;
  reads = λ offset. (54, refl, omega arith);
  clock = λ seq. (9, refl);
  alloc = λ seq size. refl;
}

abbrev pub empty_list : AccountList
empty_list = record { accounts = []; capacity = 1024; length = 0 }

pub new_list : account_list_new true (λ size. true) ≡ some empty_list
unfolding account_list_new
new_list = refl

empty_list-IsValid : IsValid empty_list
empty_list-IsValid = record {
  counted = refl;
  within = omega arith;
  room = omega arith;
  fits = omega arith;
  in_range = tt;
}

log-IsLog : IsLog log empty_list
log-IsLog = record {
  fits = (first_entry-EntryFits, (second_entry-EntryFits, tt));
  replayable = (tt, (tt, tt));
  storable = omega arith;
}

-- The two entries, and 20 bytes of a third.
abbrev pub tail : List ℕ
tail = take 20 (safe_bytes first_entry)

abbrev cut_file : Wal
cut_file = record { transactions = 0; opened = true; bytes = log_file log ++ tail; offset = 0 }

tail_short : length tail ≡ 20
unfolding safe_bytes entry_bytes entry_type payload_bytes le_bytes
tail_short = refl

pub tail-Damaged : Damaged tail
tail-Damaged = cut (omega (arith, tail_short))

abbrev third_entry : Entry
third_entry = record { id = 2; timestamp = 9; payload = EntryData.add_account 1 2 0 }

longer-IsLog : IsLog (log ++ (third_entry ∷ [])) empty_list
longer-IsLog = record {
  fits = (
    first_entry-EntryFits,
    (
      second_entry-EntryFits,
      (
        record {
          id_fits = omega arith;
          timestamp_fits = omega arith;
          payload_fits = (omega arith, omega arith, omega arith);
        },
        tt,
      ),
    ),
  );
  replayable = (tt, (tt, (tt, tt)));
  storable = omega arith;
}

-- A write that stops after 20 bytes.
abbrev torn_write : WriteDevice
torn_write = record { writes = some 20; syncs = true }

abbrev pub creating : OpenDevice
creating = record {
  creates = created;
  opens = false;
  magic = some 8;
  version = some 2;
  seeks = true;
}

abbrev pub opened_file : Wal
opened_file = record { transactions = 0; opened = true; bytes = header_bytes; offset = 10 }

pub opens : wal_init creating true true wal_empty ≡ (ok tt, opened_file)
unfolding wal_init open_file write_header write_version seek_end wal_seek sys_write header_bytes
    le_bytes
opens = refl

crc32c-divides_example :
    crc32c (b'o' ∷ b'k' ∷ []) ≡ bit_xor (divide_bytes 0xffffffff (b'o' ∷ b'k' ∷ [])) 0xffffffff
crc32c-divides_example = crc32c-divides (b'o' ∷ b'k' ∷ []) (omega arith, (omega arith, tt))

-- The check value of CRC-32C, on the digits 1 to 9.
crc32c_check :
    crc32c (b'1' ∷ b'2' ∷ b'3' ∷ b'4' ∷ b'5' ∷ b'6' ∷ b'7' ∷ b'8' ∷ b'9' ∷ []) ≡ 0xe3069283
unfolding crc32c crc_chunks crc_tail crc_step crc_table
crc32c_check = refl

read_entry-entry_bytes_example : read_entry (entry_bytes first_entry) ≡ some first_entry
read_entry-entry_bytes_example = read_entry-entry_bytes first_entry first_entry-EntryFits

wal_write_crash_example :
    Found replay_device log third_entry empty_list (wal_write torn_write file third_entry)
wal_write_crash_example =
    wal_write_crash torn_write replay_device log file third_entry empty_list replay_device-Works
      empty_list-IsValid longer-IsLog refl refl

wal_replay_truncates_example :
    (w' : Wal) × (l' : AccountList) × (wal_replay replay_device true cut_file empty_list
      ≡ ok (w', l'))
    × Recovered log empty_list w' l'
wal_replay_truncates_example =
    wal_replay_truncates replay_device log tail cut_file empty_list replay_device-Works
      empty_list-IsValid log-IsLog refl tail-Damaged

wal_replay_refuses_example :
    wal_replay replay_device false cut_file empty_list ≡ err (damage tail-Damaged)
wal_replay_refuses_example =
    wal_replay_refuses replay_device log tail cut_file empty_list replay_device-Works
      empty_list-IsValid log-IsLog refl tail-Damaged (omega (arith, tail_short))

-- The last byte of the second entry is changed from 3 to 1 on disk.
abbrev changed_file : Wal
changed_file = record {
  transactions = 0;
  opened = true;
  bytes =
      log_file (first_entry ∷ [])
      ++ (((take 49 (entry_bytes second_entry) ++ (1 ∷ []))
            ++ le_bytes 4 (crc32c (entry_bytes second_entry)))
          ++ []);
  offset = 0;
}

last_byte : entry_bytes second_entry ≡ take 49 (entry_bytes second_entry) ++ (3 ∷ [])
unfolding entry_bytes entry_type payload_bytes le_bytes
last_byte = refl

crc32c-detects_example : crc32c ((b'o' ∷ []) ++ (b'k' ∷ [])) ≢ crc32c ((b'o' ∷ []) ++ (b'h' ∷ []))
crc32c-detects_example =
    crc32c-detects (b'o' ∷ []) b'k' b'h' [] (omega arith, tt) (omega arith) (omega arith) tt
      (λ e. omega arith)

wal_replay-Detected_example : Detected replay_device (first_entry ∷ []) changed_file empty_list
wal_replay-Detected_example =
    wal_replay-Detected replay_device (first_entry ∷ []) second_entry
      (take 49 (entry_bytes second_entry)) 3 1 [] [] changed_file empty_list replay_device-Works
      empty_list-IsValid
      (record { fits = (first_entry-EntryFits, tt); replayable = (tt, tt); storable = omega arith })
      last_byte (omega arith) (λ e. omega arith) refl
