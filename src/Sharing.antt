-- ===== src/Sharing.antt =====
-- backend/src/lib/share-access.ts: which documents a share link opens. `Tables` holds the rows that
-- are read, `Climb` the walks up the parent chain of a folder, `Spread` the walk down from a folder,
-- and `Access` the two answers that are built from them.
pub mod Tables
pub mod Climb
pub mod Spread
pub mod Access
