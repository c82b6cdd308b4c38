-- ===== src/Cluster/Storage.antt =====
-- The storage errors of openraft that crates/cluster/src/log_store.rs and state_machine.rs build.
use lumen.Base.{Result}
use lumen.Core.Error.{Error}
use lumen.Proto.Openraft.{LogId}
use lumen.Proto.Conversions.{ConversionError}

-- The causes that a `StorageIOError` wraps.
pub data Cause : Type 0 where
  engine : Error → Cause
  conversion : ConversionError → Cause
  undecodable missing_record task_panicked file_failed : Cause

pub data StorageError : Type 0 where
  read_logs write_logs read_vote write_vote read_state_machine write_state_machine :
      Cause → StorageError
  apply_failed : LogId → Cause → StorageError

abbrev pub Stored : Type 0 → Type 0
Stored A = Result StorageError A
