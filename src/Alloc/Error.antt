-- ===== src/Alloc/Error.antt =====
-- `AllocError` of `ext4-core/src/alloc/mod.rs`.
use pengwin.Base.{ℕ}
use pengwin.Device.{BlockDeviceError}
use pengwin.GroupDesc.{GroupDescError}

pub data AllocError : Type 0 where
  no_free_blocks : AllocError
  no_free_inodes : AllocError
  double_freed : ℕ → AllocError
  group_desc : GroupDescError → AllocError
  block_device : BlockDeviceError → AllocError
