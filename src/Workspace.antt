-- ===== src/Workspace.antt =====
-- control_plane/workspace.py: the logical versions of the files of a workspace, over objects that are
-- stored under their digest.
pub mod Output
pub mod Publish
pub mod Versions
