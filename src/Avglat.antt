-- ===== src/Avglat.antt =====
-- tgid_avglat/tgid_avglat.c: the average run delay of a process and its threads. `Module` has the
-- average and the files, `Files` the load and unload.
pub mod Module
pub mod Files
mod Tests
