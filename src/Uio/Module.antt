-- ===== src/Uio/Module.antt =====
-- uio/simple_uio.c: the load and unload of the module, and the probe and removal of its device.
use uio_linux_sample.Prelude.{◌≡◌, refl, Bool, true, false, not, if◌then◌else◌}

-- What the module holds: the memory of kmalloc, the registration with UIO, the platform device and
-- the driver.
pub record Held : Type 0 where
  pub mem : Bool
  pub uio_device : Bool
  pub platform_device : Bool
  pub driver : Bool

abbrev pub nothing : Held
nothing = record { mem = false; uio_device = false; platform_device = false; driver = false }

pub data Reply : Type 0 where
  done enomem enodev failed : Reply

unfoldable pub drv_kpart_probe : Bool → Bool → Held → Reply × Held
drv_kpart_probe kmalloc uio_register_device h =
    if not kmalloc
    then (enomem, h)
    else if not uio_register_device
    then (enodev, record h { mem = true })
    else (done, record h { mem = true; uio_device = true })

unfoldable pub drv_kpart_remove : Held → Held
drv_kpart_remove h = record h { uio_device = false }

-- The answer of platform_device_register_simple is not looked at. The probe is not a part of this
-- function: the bus calls it for the device.
unfoldable pub uio_kpart_init : Bool → Bool → Held → Reply × Held
uio_kpart_init platform_device driver_register h =
    let h' = record h { platform_device = platform_device } in
    if driver_register then (done, record h' { driver = true }) else (failed, h')

unfoldable pub uio_kpart_exit : Held → Held
uio_kpart_exit h = record h { platform_device = false; driver = false }

-- Whatever the allocation and the registration answered, after the probe and, where it succeeded,
-- the removal the memory is held exactly if it was allocated, and the device is not registered.
pub probe-remove :
    (kmalloc register : Bool)
    → let (reply, h) = drv_kpart_probe kmalloc register nothing in
      ((drv_kpart_remove h).mem ≡ kmalloc) × ((drv_kpart_remove h).uio_device ≡ false)
unfolding drv_kpart_probe drv_kpart_remove
probe-remove true true = (refl, refl)
probe-remove true false = (refl, refl)
probe-remove false true = (refl, refl)
probe-remove false false = (refl, refl)
