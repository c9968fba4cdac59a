-- ===== src/Lib.antt =====
-- Verification of the C programs of the repository. Its core are the tracing modules (trace/) for
-- the Linux kernel, which find out for how long interrupts, the scheduler or a run queue held a
-- task up. Each module keeps its records in arrays of a fixed size, fills them in a timer handler
-- or in a probe of the scheduler, and shows them through files under /proc, where it is also
-- switched on and off.
--
-- `Irqoff` is trace/trace-irqoff/trace_irqoff.c. The per-CPU state is `Cpu` with a buffer and a
-- histogram for hard and for soft interrupts (`Data`); save_trace and trace_irqoff_record are in
-- `Record`, the handlers of the two timers in `Timers`, the files in `Control`, and the load and
-- unload in `Init`. `Control/Steps` is the module as a transition system, whose late ticks
-- `Control/Steps/Counts` counts along a run.
--
-- `Nosched` is trace/trace-noschedule/trace_noschedule.c: `Record` has the timer handler and the
-- histogram, `Switch` the probe of sched_switch, `Control` the files with the registration of the
-- probe, `Init` the load and unload. `Control/Steps` is the module as a transition system, in which a
-- step also says what it does to the number of times that the histograms should hold.
--
-- `Runqlat` is trace/runqlat/trace_runqlat.c: `Record` has record_task and record_task_commit,
-- `Probes` the three probes, `Control` the files, `Init` the load and unload. The arrays of traces
-- and tasks are described by a log of traces and the tasks of the wait that is not over
-- (`Record/Refines`), and each probe is a step on these. `Control/Steps` is the module as a
-- transition system.
--
-- `Trace` has what these modules repeat: the buffer of stacks (`Stacks`), the loop that finds a
-- histogram's bucket (`Shift`), the printed histogram (`Histogram`) and the search for tracepoints
-- (`Lookup`). `Pgcache` is kmem/pgcache_scan, a module that lists the files with the most pages in
-- the page cache, with its load through looked-up symbols (`Load`); `Bag` describes the list by the
-- numbers that the scans look for, without their order. `Prelude` has the arrays as
-- lists, the tests and the machine words.
--
-- `Pagemap` is the reading of physical addresses from the file pagemap: read_pagemap of
-- qemu_pci/v2p.c, which mem/read_pagemap.c repeats, and gva_to_gpa of qemu_pci/vtop.c. `Edu` is the
-- driver qemu_pci/edu_driver.c, over a device that is a parameter (`Fops`), with its probe and
-- removal (`Probe`). `Avglat` is tgid_avglat/tgid_avglat.c, which shows the average run delay of a
-- process. `Lock` has the two threads of lock/mutex/mutex.c and lock/semaphore/semaphore.c as a
-- transition system (`Counter`), and the load and unload that lock/cdev_mutex, lock/cdev_semaphore,
-- lock/rwsem and wakeup share (`Chrdev`), with their reads and writes (`Fops`, `Rwsem`).
-- `Futex` is the two processes of lock/futex/tfutex.c.
-- `Wakeup` is the wait queue of wakeup/wakeup.c as a transition system, in which the store to the
-- flag and the wake-up of a write are two steps. `Pci` is
-- qemu_pci/show_pci.c, which looks for PCI Express capabilities in the mapped configuration space,
-- and `Taskinfo` is taskinfo/taskinfo.c, which shows the threads of a process. `Hrtimer` is the
-- timer and the work item of hrtimer/hrtimer.c. `Kmem` is the slab caches of kmem/kmem.c.
-- `Threadsnoop` is bpf/threadsnoop.c, `Dirty` mem/dirty_mem.c, which keeps a buffer dirty. `Uio` is
-- uio/simple_uio.c (`Module`) and the loop of uio/uiopci.c and qemu_pci/tedu.c that waits for
-- interrupts (`Wait`). `Percpu` is percpu/percpu.c and `Workqueue` workqueue/sys_wq.c.
-- `Rundelay` is steal/get_rundelay.c, which samples the run delay of a thread from its file
-- schedstat. `Leet` is the two exercises of leet/. These programs do not call one another; where
-- two of them have the same code, as tgid_avglat.c and taskinfo.c in the load of their files, one
-- model serves both.
--
-- A handler of a module is one function from the state to the state, and what it reads of the
-- kernel (the clock, the current task, a saved stack, the answer of a registration) is in a record
-- that it takes; what the kernel documents of it is a hypothesis of the theorems that use it. In
-- the handlers of Runqlat that read a field before they take the lock, the values read there are
-- parameters of their own, so that another CPU may have written in between. Words wrap: `u64` and
-- `u32` reduce sums and products, `sub64` and `sub32` are the subtractions. A loop that halves a
-- delay runs on 64 units of fuel, and one that halves a state word of 32 bits on 32, since a word
-- is 0 after as many halvings as it has bits. The search for a capability runs on any fuel, since
-- the code has no bound. The binary search of Leet runs on one round more than the array has
-- elements, and the depth of a recursion is fuel of its own. The store of a duration or a count
-- outside its array is `none` in trace_noschedule.c, and so is one behind the buffer of dirty_mem.c;
-- other stores go to lists, where one outside would be lost, and the invariants of the modules bound
-- their indices.
--
-- Not modelled are the text that seq_printf and printk lay out (printed lines are values), the
-- parsing of what a user writes (a number, or none where the kernel refuses the text), the variants
-- for old kernels and debugging that the preprocessor leaves out, the reading of the arguments of a
-- program, and the other programs: examples of one service of the kernel, scripts and copies of
-- other projects (mem/vm, mem/linux-ftools, steal/getdelays.c, rdma, pci/pcimem).
pub mod Avglat
pub mod Dirty
pub mod Edu
pub mod Futex
pub mod Hrtimer
pub mod Irqoff
pub mod Kmem
pub mod Leet
pub mod Lock
pub mod Nosched
pub mod Pagemap
pub mod Pci
pub mod Percpu
pub mod Pgcache
pub mod Prelude
pub mod Rundelay
pub mod Runqlat
pub mod Taskinfo
pub mod Threadsnoop
pub mod Trace
pub mod Uio
pub mod Wakeup
pub mod Workqueue
