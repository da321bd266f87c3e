-- ===== src/Module.antt =====
-- fs.c: the module's start and stop, with the inode cache of super.c, the sysfs directory of sysfs.c
-- and the device of ioctl.c; mounting and unmounting by the VFS.
pub mod Starts
pub mod Ioctl
use lkp_project.Prelude.{ℕ, Bool, true, false, ◌==◌, if◌then◌else◌, Option, none, some}

-- What the module registered with the kernel: the sysfs directory, the inode cache, the file system
-- type and the character device.
pub record Registered : Type 0 where
  pub sysfs_root : Bool
  pub inode_cache : Bool
  pub file_system : Bool
  pub device : Option ℕ

abbrev pub nothing_registered : Registered
nothing_registered = record {
  sysfs_root = false;
  inode_cache = false;
  file_system = false;
  device = none;
}

-- The outcomes of the calls: the two creations, the errno of register_filesystem and of
-- unregister_filesystem (0 for success), and the major number of register_chrdev, if it gives one.
pub record Registry : Type 0 where
  pub kobject_create_and_add : Bool
  pub kmem_cache_create : Bool
  pub register_filesystem : ℕ
  pub unregister_filesystem : ℕ
  pub register_chrdev : Option ℕ

-- ENOMEM
abbrev pub enomem_code : ℕ
enomem_code = 12

-- The errno (0 for success) and what is registered then.
abbrev pub Start : Type 0
Start = Registered → ℕ × Registered

unfoldable pub ouichefs_init_sysfs : Registry → Start
ouichefs_init_sysfs g r =
    if g.kobject_create_and_add then (0, record r { sysfs_root = true }) else (enomem_code, r)

unfoldable pub ouichefs_exit_sysfs : Registered → Registered
ouichefs_exit_sysfs r = record r { sysfs_root = false }

unfoldable pub ouichefs_init_inode_cache : Registry → Start
ouichefs_init_inode_cache g r =
    if g.kmem_cache_create then (0, record r { inode_cache = true }) else (enomem_code, r)

unfoldable pub ouichefs_destroy_inode_cache : Registered → Registered
ouichefs_destroy_inode_cache r = record r { inode_cache = false }

unfoldable pub register_file_system : Registry → Start
register_file_system g r = (
  g.register_filesystem,
  if g.register_filesystem == 0 then record r { file_system = true } else r,
)

unfoldable pub unregister_file_system : Registry → Registered → Registered
unregister_file_system g r =
    if g.unregister_filesystem == 0 then record r { file_system = false } else r

-- The outcome is not looked at.
unfoldable pub ouichefs_register_device : Registry → Registered → Registered
ouichefs_register_device g r = record r { device = g.register_chrdev }

unfoldable pub ouichefs_unregister_device : Registered → Registered
ouichefs_unregister_device r = record r { device = none }

-- `if (ret) goto …`: on an error `undo` is run.
abbrev pub or_undo : ℕ × Registered → (Registered → Registered) → Start → ℕ × Registered
or_undo (ret, r) undo go_on = if ret == 0 then go_on r else (ret, undo r)

unfoldable pub ouichefs_init : Registry → Start
ouichefs_init g r =
    or_undo (ouichefs_init_sysfs g r) (λ r. r)
      λ r. or_undo (ouichefs_init_inode_cache g r) ouichefs_exit_sysfs λ r.
        or_undo (register_file_system g r)
          (λ r. ouichefs_exit_sysfs (ouichefs_destroy_inode_cache r))
          λ r. (0, ouichefs_register_device g r)

unfoldable pub ouichefs_exit : Registry → Registered → Registered
ouichefs_exit g r =
    ouichefs_exit_sysfs
      (ouichefs_destroy_inode_cache (unregister_file_system g (ouichefs_unregister_device r)))
