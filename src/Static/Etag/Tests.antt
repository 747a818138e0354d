-- ===== src/Static/Etag/Tests.antt =====
-- The ETag of a file.
use migux.Common.{◌+◌, ◌*◌, ◌≡◌, refl, some}
use migux.Text.{lit}
use migux.Decimal.{decimal}
use migux.Static.Etag.{Metadata, since_epoch, nanos, weak_etag_size_mtime}
use migux.Static.Etag.Distinct.{weak_etag_size_mtime-injective}

abbrev file : Metadata
file = record { len = 12; modified = some (since_epoch 3400) }

abbrev same_file : Metadata
same_file = record { len = 10 + 2; modified = some (since_epoch (34 * 100)) }

file_header : (weak_etag_size_mtime file).header ≡ lit "W/\"12-3400\""
unfolding weak_etag_size_mtime decimal
file_header = refl

weak_etag_size_mtime-injective_example :
    (file.len ≡ same_file.len) × (nanos file.modified ≡ nanos same_file.modified)
weak_etag_size_mtime-injective_example = weak_etag_size_mtime-injective file same_file refl
