-- ===== src/Index/Records.antt =====
-- What the index stores: the executables that were found, and the chunks of their documentation
-- (`BinaryEntry` of scan.rs and `Chunk` of chunk.rs in crates/termlm-indexer/src). A string or a
-- path is its bytes, a signed number its bit pattern.
use termlm.Base.{ℕ}
use termlm.Base.Text.{Text}
use termlm.Index.Bytes.{Bytes}

pub record BinaryEntry : Type 0 where
  pub name : Bytes
  pub path : Bytes
  pub mtime_secs : ℕ  -- i64
  pub size : ℕ  -- u64
  pub inode : ℕ  -- u64

-- a `DateTime<Utc>`: the seconds since 1970, an i64, and the nanoseconds in the second
pub record DateTime : Type 0 where
  pub secs : ℕ
  pub nanos : ℕ

pub record Chunk : Type 0 where
  pub command_name : Bytes
  pub path : Bytes
  pub extraction_method : Bytes
  pub section_name : Bytes
  pub chunk_index : ℕ
  pub total_chunks : ℕ
  pub doc_hash : Text
  pub extracted_at : DateTime
  pub text : Bytes
