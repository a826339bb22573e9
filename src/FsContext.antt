-- ===== src/FsContext.antt =====
-- `pengwin/src/fs_context.rs`: the file system as it is opened, and the resolution of paths. A
-- path is the bytes of a `str`; `lossy` stands for `String::from_utf8_lossy`. The
-- mutexes around the table and the writer are left out.
pub mod Resolve
use pengwin.Base.{
  ℕ, zero, suc, Bool, true, false, not, ◌==◌, ltb, if◌then◌else◌, Option, none, some, List, [], ◌∷◌,
  ◌++◌, length, Outcome, ok, err, map_err, ensure, M, done, pure, reads, map_fail,
}
use pengwin.Base.Fallible
use pengwin.Base.Stateful.{◌>>=◌, ◌>>◌}
use pengwin.Device.{BlockDevice}
use pengwin.Superblock
use pengwin.Superblock.{Superblock, SuperblockError}
use pengwin.GroupDesc
use pengwin.GroupDesc.{GroupDescTable, GroupDescError}
use pengwin.Inode.{Inode, InodeError, is_dir, read_inode}
use pengwin.Dir
use pengwin.Dir.{DirError, DirEntry, same_name}
use pengwin.File.{FileError}
use pengwin.Journal.Format.{JournalError, journal_errno, needs_recovery}
use pengwin.Journal.Load.{Journal, load}
use pengwin.Journal.Mount.{check_and_recover}
use pengwin.Journal.Writer
use pengwin.Journal.Writer.{JournalWriter}

pub data OpenMode : Type 0 where
  read_only read_only_force read_write : OpenMode

pub data Ext4FsError : Type 0 where
  superblock : SuperblockError → Ext4FsError
  group_desc : GroupDescError → Ext4FsError
  inode_error : InodeError → Ext4FsError
  dir_error : DirError → Ext4FsError
  file_error : FileError → Ext4FsError
  journal_error : JournalError → Ext4FsError
  not_found : List ℕ → Ext4FsError
  not_a_directory : List ℕ → Ext4FsError
  dot_dot_not_allowed : Ext4FsError
  symlink_loop : Ext4FsError
  dirty_journal_read_only : Ext4FsError

-- `Ext4Fs` beside the device.
pub record Ext4Fs : Type 0 where
  pub sb : Superblock
  pub gdt : GroupDescTable
  pub writer : JournalWriter
  pub is_read_only : Bool

abbrev pub slash : ℕ
slash = 47

abbrev pub root_inode : ℕ
root_inode = 2

abbrev pub max_symlink_hops : ℕ
max_symlink_hops = 40

-- `path.split('/').filter(|s| !s.is_empty())`: a name that has been read so far, if it is not
-- empty, ends at a slash and at the end.
abbrev pub end_name : List ℕ → List (List ℕ) → List (List ℕ)
end_name [] rest = rest
end_name (b ∷ name) rest = (b ∷ name) ∷ rest

unfoldable pub split_from : List ℕ → List ℕ → List (List ℕ)
split_from name [] = end_name name []
split_from name (b ∷ path) =
    let at_slash = end_name name (split_from [] path) in
    let inside = split_from (name ++ b ∷ []) path in if b == slash then at_slash else inside

unfoldable pub components : List ℕ → List (List ℕ)
components path = split_from [] path

module _ (lossy : List ℕ → List ℕ) (D : BlockDevice) (depth : ℕ) where
  -- The three ways to a journal.
  unfoldable pub open_journal :
      OpenMode → ℕ → Superblock → GroupDescTable → M D.Dev Ext4FsError Journal
  open_journal read_write fuel sb gdt =
      map_fail journal_error (check_and_recover D depth fuel sb gdt)
  open_journal read_only fuel sb gdt = do
    j ← reads (λ dev. map_err journal_error (load D dev sb gdt depth))
    reads (λ dev. ensure (j.sb.errno == 0) (journal_error (journal_errno j.sb.errno)))
    reads (λ dev. ensure (not (needs_recovery j.sb)) dirty_journal_read_only)
    pure j
  open_journal read_only_force fuel sb gdt =
      reads (λ dev. map_err journal_error (load D dev sb gdt depth))

  abbrev pub refuses_writes : OpenMode → Bool
  refuses_writes read_write = false
  refuses_writes read_only = true
  refuses_writes read_only_force = true

  -- `depth` bounds the descents of extent trees and `fuel` the replay.
  unfoldable pub open_inner : OpenMode → ℕ → M D.Dev Ext4FsError Ext4Fs
  open_inner mode fuel = do
    sb ← reads (λ dev. map_err superblock (Superblock.parse D dev))
    gdt ← reads (λ dev. map_err group_desc (GroupDesc.load D dev sb))
    j ← open_journal mode fuel sb gdt
    pure (record {
      sb = sb;
      gdt = gdt;
      writer = Writer.new j.sb j.blocks;
      is_read_only = refuses_writes mode;
    })

  module _ (dev : D.Dev) (fs : Ext4Fs) where
    unfoldable pub inode : ℕ → Outcome Ext4FsError Inode
    inode num = map_err inode_error (read_inode D dev fs.sb fs.gdt num)

    unfoldable pub read_dir : Inode → Outcome Ext4FsError (List DirEntry)
    read_dir dir_inode = map_err dir_error (Dir.read_dir lossy D dev fs.sb depth dir_inode)

    unfoldable pub lookup : Inode → List ℕ → Outcome Ext4FsError (Option ℕ)
    lookup dir_inode name = map_err dir_error (Dir.lookup lossy D dev fs.sb depth dir_inode name)

    -- The inode of an entry of the directory `current`.
    unfoldable pub enter : List ℕ → ℕ → List ℕ → Outcome Ext4FsError ℕ
    enter path current component = Fallible.◌>>=◌ (inode current) λ dir.
        Fallible.◌>>◌ (ensure (is_dir dir) (not_a_directory component)) (
          Fallible.◌>>=◌ (lookup dir component)
            λ found. elim found [ some n ↦ ok n | none ↦ err (not_found path) ])

    -- One component: `..` is refused and `.` stays.
    unfoldable pub step : List ℕ → ℕ → List ℕ → Outcome Ext4FsError ℕ
    step path current component =
        if same_name component (46 ∷ 46 ∷ [])
        then err dot_dot_not_allowed
        else if same_name component (46 ∷ [])
        then ok current
        else enter path current component

    unfoldable pub resolve_components : List ℕ → ℕ → List (List ℕ) → Outcome Ext4FsError ℕ
    resolve_components path current [] = ok current
    resolve_components path current (component ∷ rest) =
        Fallible.◌>>=◌ (step path current component) λ next. resolve_components path next rest

    unfoldable pub resolve_path_with_hops : List ℕ → ℕ → Outcome Ext4FsError ℕ
    resolve_path_with_hops path hops =
        Fallible.◌>>◌ (ensure (not (ltb max_symlink_hops hops)) symlink_loop)
          (resolve_components path root_inode (components path))

    unfoldable pub resolve_path : List ℕ → Outcome Ext4FsError ℕ
    resolve_path path = resolve_path_with_hops path 0
