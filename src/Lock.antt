-- ===== src/Lock.antt =====
-- The modules under lock/ and wakeup/. `Chrdev` is the load and unload of a character device, which
-- cdev_mutex.c, cdev_semaphore.c, rwsem.c and wakeup.c repeat, `Fops` and `Rwsem` are the reads and
-- writes of the first three, and `Counter` is the two threads of mutex.c and semaphore.c that share
-- a counter.
pub mod Chrdev
pub mod Counter
pub mod Fops
pub mod Rwsem
mod Tests
