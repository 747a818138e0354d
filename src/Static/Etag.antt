-- ===== src/Static/Etag.antt =====
-- crates/migux_static/src/etag.rs: the ETag of a file, from what the file system says of it.
pub mod Distinct
mod Tests
use migux.Common.{ℕ, ◌++◌, Option, none, some}
use migux.Text.{Str, lit}
use migux.Decimal.{decimal}

-- A time, in nanoseconds where the epoch is not after it.
pub data SystemTime : Type 0 where
  before_epoch : SystemTime
  since_epoch : ℕ → SystemTime

pub record Metadata : Type 0 where
  pub len : ℕ
  pub modified : Option SystemTime

pub record EtagInfo : Type 0 where
  pub value : Str
  pub header : Str
  pub mtime_nanos : ℕ

pub nanos : Option SystemTime → ℕ
nanos none = 0
nanos (some before_epoch) = 0
nanos (some (since_epoch n)) = n

etag_value : ℕ → ℕ → Str
unfolding decimal
etag_value size mtime_nanos = decimal size ++ (lit "-" ++ decimal mtime_nanos)

pub weak_etag_size_mtime : Metadata → EtagInfo
unfolding nanos etag_value
weak_etag_size_mtime metadata =
    let value = etag_value metadata.len (nanos metadata.modified) in
    record {
      value = value;
      header = lit "W/\"" ++ value ++ lit "\"";
      mtime_nanos = nanos metadata.modified;
    }
