-- ===== src/Core/Error.antt =====
-- The errors of the engine (crates/core/src/error.rs). A message that the code builds with
-- `format!` is a constructor with the values that it prints.
use lumen.Base.{ℕ, Text, Result, ok, err, ◌≡◌, ◌≢◌, arith}

pub data Message : Type 0 where
  -- log.rs and wal.rs
  record_exceeds_u32 : Message
  corrupt_wal_record : Message
  -- mapping.rs and document.rs
  empty_field_name : Message
  reserved_field_name : Text → Message
  fast_text_field : Text → Message
  unspecified_field_type : Message
  unknown_field_type : ℕ → Text → Message
  duplicate_field : Text → Message
  not_an_object : Message
  unmapped_field : Text → Message
  unexpected_type : Text → Text → Message
  value_type_mismatch : Text → Message
  -- catalog.rs and search.rs
  name_length : Message
  reserved_name : Text → Message
  name_alphabet : Text → Message
  invalid_json : Message
  invalid_query : Message
  invalid_uuid : Text → Message
  missing_mapping : Message
  invalid_snapshot_uuid : Text → Message
  entry_without_mapping : Text → Message
  missing_data_dir : Text → Message
  invalid_commit_payload : Message
  missing_system_field : Text → Message
  corrupt_snapshot : Message
  corrupt_archive_snapshot : Message
  invalid_archive_uuid : Text → Message
  archive_entry_without_mapping : Text → Message
  -- cluster.rs: a message of openraft
  raft_message : Text → Message

pub data IoError : Type 0 where
  not_found unexpected_eof other_io : IoError

pub data Error : Type 0 where
  collection_not_found : Text → Error
  schema_conflict : Text → Error
  mapping_error : Message → Error
  validation : Message → Error
  document_not_found : Text → Error
  recovery : Message → Error
  io : IoError → Error
  tantivy : Text → Error

-- `error::Result<T>`.
abbrev pub Fallible : Type 0 → Type 0
Fallible A = Result Error A

-- A call that may also panic, through an `expect`.
pub data Outcome {ℓ} (A : Type ℓ) : Type ℓ where
  done : A → Outcome A
  failed : Error → Outcome A
  panicked : Outcome A

abbrev pub outcome : {A : Type 0} → Fallible A → Outcome A
outcome (ok a) = done a
outcome (err e) = failed e

module _ {A : Type 0} where
  pub panicked_done : (a : A) → ◌≢◌ {A = Outcome A} panicked (done a)
  panicked_done a h = ground arith

  pub failed_done : (e : Error) (a : A) → ◌≢◌ {A = Outcome A} (failed e) (done a)
  failed_done e a h = ground arith

  pub done_inj : (a b : A) → ◌≡◌ {A = Outcome A} (done a) (done b) → a ≡ b
  done_inj a b h = cc
