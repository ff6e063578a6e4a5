-- ===== src/Inode/Expand/Place.antt =====
-- Counting the sectors that an inode names.
use os_labratory_spring.Prelude.{
  ℕ, min, ◌^◌, ◌+◌, ◌-◌, ◌*◌, ◌≤◌, ◌<◌, ◌≡◌, ltb, if◌then◌else◌, arith,
}
use os_labratory_spring.Inode.{
  Inode, indirect_block_ptrs, indirect_index_start, double_indirect_index_start,
  bytes_to_data_sectors,
}
use os_labratory_spring.Inode.Expand.{sub_size}

-- The number of data sectors that the pointers of an inode up to its indirect blocks name.
abbrev pub place : Inode → ℕ
place i =
    if ltb i.direct_index indirect_index_start
    then i.direct_index
    else 4 + (i.direct_index - indirect_index_start) * indirect_block_ptrs + i.indirect_index

pub place-Placed :
    (i i' : Inode) (n : ℕ)
    → indirect_index_start ≤ i.direct_index
    → i.direct_index ≤ i'.direct_index
    → i'.direct_index * indirect_block_ptrs + i'.indirect_index
      ≡ i.direct_index * indirect_block_ptrs + i.indirect_index + n
    → place i' ≡ place i + n
place-Placed i i' n start after e = ground arith

pub new_sectors :
    (old new_length : ℕ)
    → old ≤ new_length
    → new_length < 2 ^ 31
    → sub_size (bytes_to_data_sectors new_length) (bytes_to_data_sectors old)
      ≡ bytes_to_data_sectors new_length - bytes_to_data_sectors old
unfolding bytes_to_data_sectors
new_sectors old new_length le max = omega arith

pub new_sectors-lt :
    (old new_length : ℕ)
    → new_length < 2 ^ 31
    → bytes_to_data_sectors new_length - bytes_to_data_sectors old < 2 ^ 32
unfolding bytes_to_data_sectors
new_sectors-lt old new_length max = omega arith

pub place-direct :
    (i i' : Inode) (n k : ℕ)
    → (i.direct_index < indirect_index_start → i.indirect_index ≡ 0)
    → i'.indirect_index ≡ i.indirect_index
    → i'.direct_index ≡ i.direct_index + k
    → k ≡ min (indirect_index_start - i.direct_index) n
    → place i' ≡ place i + k
place-direct i i' n k z e d m = ground (arith, z)

pub place-room :
    (i : Inode) (n : ℕ)
    → indirect_index_start ≤ i.direct_index
    → place i + n ≤ 1156
    → i.direct_index * indirect_block_ptrs + i.indirect_index + n
      ≤ double_indirect_index_start * indirect_block_ptrs
place-room i n start h = ground arith
