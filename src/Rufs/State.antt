-- ===== src/Rufs/State.antt =====
-- The state of project4/code/rufs.c: the global superblock and the disk; and the result of a
-- function that changes it.
use cs416_operating_systems.Base.{ℕ}
use cs416_operating_systems.Base.Memory.{Bytes}
use cs416_operating_systems.Rufs.{Superblock, Errno}
use cs416_operating_systems.Rufs.Device.{Disk, write_through}

pub record Fs : Type 0 where
  pub sb : Superblock
  pub disk : Disk

-- What was written stays written after a failure.
pub data Outcome {ℓ} (A : Type ℓ) : Type ℓ where
  done : A → Fs → Outcome A
  fail : Errno → Fs → Outcome A

-- The state that a call leaves.
abbrev pub after {ℓ} : {A : Type ℓ} → Outcome A → Fs
after (done _ fs) = fs
after (fail _ fs) = fs

-- What a caller does with a result: `rest` if it is not negative, otherwise the caller's own
-- error `e`.
abbrev pub or_fail {ℓ κ} :
    {A : Type ℓ} {B : Type κ} → Outcome A → Errno → (A → Fs → Outcome B) → Outcome B
or_fail (done a fs) e rest = rest a fs
or_fail (fail _ fs) e rest = fail e fs

-- A block written whose caller ignores the result.
abbrev pub put_block : ℕ → Bytes → Fs → Fs
put_block n b fs = record fs { disk = write_through n b fs.disk }

-- What the system calls time, getuid and getgid answer: the times that dir_add and that the
-- operation itself reads.
pub record Caller : Type 0 where
  pub dir_time : ℕ
  pub time : ℕ
  pub uid : ℕ
  pub gid : ℕ
