-- ===== src/Discussions/Body.antt =====
-- The body of a comment (app/core/discussions/body): a document in the editor's JSON form.
pub mod Limits
pub mod Visits
pub mod Fits
pub mod Bounds
pub mod Nodes
pub mod Facts
pub mod Pipeline
pub mod Created
