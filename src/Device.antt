-- ===== src/Device.antt =====
-- `ext4-core/src/block_device/mod.rs`: the block device trait and the multi-sector helpers.
-- The trait is an interface: `Dev` is the state of a device, an operation that changes the medium
-- is a `Run` over it, and any call may fail with an I/O error of the implementation's choice.
mod Sectors
pub mod Transfer
pub mod Image
pub use Sectors.{
  BlockDeviceError, out_of_range, io, invalid_geometry, not_supported, BlockDevice, IsLawful,
}
unfoldable pub use Sectors.{read_sectors, write_sectors, read_loop, write_loop}
