-- ===== src/Folders.antt =====
-- The folders of one tenant: backend/src/lib/folder-name.ts and the operations of
-- backend/src/api/routes/folders.ts. `Names` picks the name of a new folder, `Tree` creates, moves and
-- deletes folders.
pub mod Names
pub mod Tree
