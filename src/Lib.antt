-- ===== src/Lib.antt =====
-- A model of mega65fs, a FUSE driver that mounts the SD card of a MEGA65 over ethernet, and the
-- theorems that hold of it.
--
-- The program has two layers of its own. src/m65ftp_lib.c wraps a vendored FTP client for the MEGA65
-- (lib/libm65ftp) into calls like open, pread, pwrite and rename, with a table of descriptors and a
-- write buffer in memory for files that are created. src/mega65fs.c maps the FUSE callbacks to those
-- calls, and keeps a small cache of directory listings.
--
-- Every function is a program over an explicit state that returns an answer and the next state
-- (`Prog` in Base/Programs.antt), or no answer where a loop does not end or the process dies. Each call of the program holds its mutex from start to end, so that
-- a call is one step. The client library is not modelled: its globals that the wrapper touches are the
-- record `Card`, its functions are the record `Library`, an instance argument of every program that
-- calls it, and the theorems name what they ask of it (Card/Laws.antt). The C library's realloc and
-- clock are members of that record too.
--
--   Base            names, tests, lists, integers, 32-bit words and programs
--   Card            the globals and functions of the client library, and the laws asked of them
--   Store           the descriptor table, the stack of free descriptors, alloc_fd
--   Entry           the fields of a directory entry in the cached sector: pack_dir_entry_le16 and _le32,
--                   set_entry_first_cluster, set_entry_file_size
--   Chain           count_cluster_chain, the loops along a cluster chain, sector numbers
--   Flush           flush_write_buffer: its loops (Flush/Sectors.antt), what it leaves on the card
--                   (Flush/Whole.antt), what is read after it (Flush/Reads.antt)
--   Path            the splitting of a path, the search of a listing for a name
--   Files           m65ftp_open, m65ftp_open_writable, m65ftp_create, m65ftp_close, m65ftp_fsync, m65ftp_sync;
--                   Files/Synced.antt reads a descriptor on both sides of m65ftp_fsync
--   Buffer          the buffered branches of m65ftp_pread and m65ftp_pwrite
--   Read, Write     m65ftp_pread, m65ftp_pwrite
--   Truncate        m65ftp_ftruncate: the buffered branch, a chain that is cut (Truncate/Shrink.antt,
--                   Truncate/Shorter.antt), a file that moves to a longer block (Truncate/Allocated.antt,
--                   Truncate/ClusterCopy.antt, Truncate/Copied.antt, Truncate/Grown.antt,
--                   Truncate/Moved.antt, Truncate/Longer.antt), a growth that fails
--                   (Truncate/Rollback.antt)
--   Meta            m65ftp_stat, m65ftp_readdir, m65ftp_utimens: the FAT words (Meta/Words.antt), the
--                   bytes of the entry (Meta/Stamps.antt) and the call (Meta/Utimens.antt)
--   Dirs            m65ftp_mkdir, m65ftp_rmdir, m65ftp_unlink, m65ftp_rename, each with its own restores of
--                   current_dir, one before every return
--   Mbr             m65ftp_mbrinfo, and the table it answers in a boot record (Mbr/Table.antt)
--   Session         m65ftp_init, m65ftp_finish
--   Cache           the listing cache of src/mega65fs.c
--   Fs              the fs_ callbacks of src/mega65fs.c; Fs/Listing.antt is about fs_readdir with
--                   the cache below it, Fs/Invalidated.antt about the listings that are dropped
--   Main            the table of callbacks, main, the signal handler and unmounting in src/mega65fs.c
--   Keeps           rules by which the calls and callbacks keep the descriptor pool well formed
--   Sample, Tests   a concrete card, runs on it, and each theorem at a concrete input
--
-- Numbers. Unsigned 32-bit arithmetic is written out with `u32` and `sub32` where the source may wrap
-- around; descriptors, directory sectors and results are integers. Offsets and sizes of 64 bits are
-- natural numbers without a bound: no file comes near 2^63 bytes. `set` on a list outside its bounds
-- changes nothing, and a read outside a buffer gives 0; sectors are 512 bytes. A division by the size of a
-- cluster, which is 0 on a card whose boot sector says so, ends the process in the source; here
-- `divide` is then `crashed` (Base/Programs.antt), which answers nothing, and a theorem that such a
-- call returns asks for a sector in the clusters.
--
-- Loops. A loop whose rounds are bounded by the state is given that bound: the bytes left and one for
-- the reads, writes and flushes, since each round but the last handles at least one; 64 doublings for
-- a capacity; 8 halvings for a batch of at most 64 clusters. Loops that end where the card says so, along
-- a directory or a cluster chain, run on fuel that the caller chooses, and `none` says that it was not
-- enough: a chain with a cycle never ends in the source either.
--
-- Files on the card. Where a theorem is about the bytes of a file on the card, the file is a chain of
-- clusters, and the card is one whose sectors and table can be read off its state (Chain/Disk.antt,
-- Read/Places.antt): what the client library does with sectors of the data area then is what its
-- functions say. A theorem that allocates clusters asks that the library's search finds free ones in a
-- row and that its table takes the links (Flush/Block.antt, Truncate/Allocated.antt), one that frees them that deallocation
-- clears an entry of the table (Chain/Freed.antt), one that lists a directory that the library's
-- iteration goes along a list of entries (Dirs/Empty.antt).
--
-- Not modelled: FUSE, and the child process in which src/mega65fs.c runs fusermount, which is one
-- action; log output; the vendored library, its generated programs and the scripts.
pub mod Base
pub mod Card
pub mod Store
pub mod Entry
pub mod Chain
pub mod Flush
pub mod Path
pub mod Files
pub mod Buffer
pub mod Read
pub mod Write
pub mod Truncate
pub mod Meta
pub mod Dirs
pub mod Mbr
pub mod Session
pub mod Main
pub mod Keeps
pub mod Cache
pub mod Fs
pub mod Sample
pub mod Tests
