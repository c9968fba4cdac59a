-- ===== src/Lock/Chrdev.antt =====
-- The load and unload of a module with one character device: init_mutex of lock/cdev_mutex,
-- sem_init of lock/cdev_semaphore, rw_sem_init of lock/rwsem and schd_init of wakeup.
pub mod Laws
use uio_linux_sample.Prelude.{ℕ, Bool, true, false, if◌then◌else◌}
use uio_linux_sample.Prelude.Words.{ℤ, pos, negsuc}

-- What the kernel answers: a negative number is an error, for class_create and device_create the
-- one in the pointer.
pub record Answers : Type 0 where
  pub alloc_chrdev_region : ℤ
  pub cdev_add : ℤ
  pub class_create : ℤ
  pub device_create : ℤ

-- What the module holds.
pub record Resources : Type 0 where
  pub region : Bool
  pub cdev : Bool
  pub class : Bool
  pub device : Bool

abbrev pub nothing : Resources
nothing = record { region = false; cdev = false; class = false; device = false }

abbrev pub everything : Resources
everything = record { region = true; cdev = true; class = true; device = true }

abbrev pub is_error : ℤ → Bool
is_error (pos n) = false
is_error (negsuc n) = true

abbrev pub unregister_chrdev_region : Resources → Resources
unregister_chrdev_region r = record r { region = false }

abbrev pub cdev_del : Resources → Resources
cdev_del r = record r { cdev = false }

abbrev pub class_destroy : Resources → Resources
class_destroy r = record r { class = false }

abbrev pub device_destroy : Resources → Resources
device_destroy r = record r { device = false }

unfoldable pub init_mutex : Answers → ℤ × Resources
init_mutex a =
    let region = record nothing { region = true } in
    let cdev = record region { cdev = true } in
    let class = record cdev { class = true } in
    if is_error a.alloc_chrdev_region
    then (a.alloc_chrdev_region, nothing)
    else if is_error a.cdev_add
    then (a.cdev_add, unregister_chrdev_region region)
    else if is_error a.class_create
    then (a.class_create, unregister_chrdev_region (cdev_del cdev))
    else if is_error a.device_create
    then (a.device_create, unregister_chrdev_region (cdev_del (class_destroy class)))
    else (pos 0, record class { device = true })

-- sem_init goes on to initialise a semaphore, and rw_sem_init a reader-writer one, which holds
-- nothing.
abbrev pub sem_init : Answers → ℤ × Resources
sem_init a = init_mutex a

abbrev pub rw_sem_init : Answers → ℤ × Resources
rw_sem_init a = init_mutex a

abbrev pub schd_init : Answers → ℤ × Resources
schd_init a = init_mutex a

unfoldable pub exit_mutex : Resources → Resources
exit_mutex r = unregister_chrdev_region (cdev_del (class_destroy (device_destroy r)))

abbrev pub sem_exit : Resources → Resources
sem_exit r = exit_mutex r

abbrev pub rw_sem_cleanup : Resources → Resources
rw_sem_cleanup r = exit_mutex r

abbrev pub schd_cleanup : Resources → Resources
schd_cleanup r = exit_mutex r
