-- ===== src/Tests.antt =====
-- A device in memory and the theorems applied to concrete images.
mod Memory
mod Image
mod Allocating
mod Cached
mod Files
mod Inodes
mod Journaling
mod Storage
mod Parsing
mod Extents
mod Directories
mod Mounting
mod Contents
mod Paths
mod Parents
