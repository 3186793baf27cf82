-- ===== src/Pages/Read.antt =====
-- Reading a key of a built layout gives the edges of the key: the slots of a page, the window of a
-- descriptor, what the placing loop keeps, and the grouping of the edges.
pub mod Slots
pub mod Window
pub mod Stored
pub mod Grouping
pub mod Single
pub mod Complete
