-- ===== src/Par.antt =====
-- include/sl/exec/algo/tf/par and include/sl/exec/algo/sync/select.hpp: the users of `parallel_connection`.
pub mod Any
pub mod All
pub mod Select
