-- ===== src/Lock/Chrdev/Laws.antt =====
-- What the module holds after a load and after an unload.
use uio_linux_sample.Prelude.{arith, ◌≡◌, if◌then◌else◌}
use uio_linux_sample.Prelude.Words.{ℤ, pos}
use uio_linux_sample.Lock.Chrdev.{Answers, nothing, everything, is_error, init_mutex, exit_mutex}

-- The first error of the four requests, or 0.
abbrev pub first_error : Answers → ℤ
first_error a =
    if is_error a.alloc_chrdev_region
    then a.alloc_chrdev_region
    else if is_error a.cdev_add
    then a.cdev_add
    else if is_error a.class_create
    then a.class_create
    else if is_error a.device_create
    then a.device_create
    else pos 0

-- The load of each of the four modules gives the first error of its four requests, or 0 if there
-- is none; it holds nothing if there is one and otherwise everything, which the unload gives back.
pub init_mutex-cases :
    (a : Answers)
    → (init_mutex a ≡ (first_error a, if is_error (first_error a) then nothing else everything))
      × (exit_mutex (init_mutex a).1 ≡ nothing)
unfolding init_mutex exit_mutex
init_mutex-cases a = ground arith
