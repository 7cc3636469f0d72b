-- ===== src/Label/Room.antt =====
-- The room behind the last usable block, which `validate_primary_header` of nexus_label.rs does not
-- ask for.
use co_create_openebs.Label.Layout.{GptHeader, get_blocks, gpt_table_size, partition_table_space}
use co_create_openebs.Label.Format.{Codec, to_backup, checksum_header}
use co_create_openebs.Label.Validate.{validate_primary_header, validate_secondary_header}
use co_create_openebs.Prelude.{ℕ, ok, err, ◌≡◌, ◌<◌, ◌+◌, u64_mod, arith}

-- A primary header that passes its checks, and behind whose last usable block there is no room for
-- the partition table before the backup header: the backup that is made of it is refused with
-- `PartitionTableSpace`. No sum is to exceed 64 bits.
pub backup_without_room :
    (c : Codec) (h : GptHeader) (s n : ℕ)
    → n < u64_mod
    → 2 + get_blocks gpt_table_size s < u64_mod
    → h.lba_end + 1 + get_blocks gpt_table_size s < u64_mod
    → validate_primary_header h s n ≡ ok tt
    → h.lba_alt < h.lba_end + 1 + get_blocks gpt_table_size s
    → validate_secondary_header (to_backup c h) s n ≡ err partition_table_space
unfolding validate_primary_header validate_secondary_header to_backup checksum_header
backup_without_room c h s n a b e v l = ground arith
