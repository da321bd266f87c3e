-- ===== src/Examples/Modules.antt =====
-- Starting the module where register_filesystem fails, and a call of its ioctl.
use lkp_project.Prelude.{true, false, some, ◌≡◌, refl}
use lkp_project.State.{fail, einval}
use lkp_project.Module.{Registry, nothing_registered, ouichefs_init}
use lkp_project.Module.Starts.{AllOrNothing, ouichefs_init-AllOrNothing}
use lkp_project.Module.Ioctl.{DebugCall, show_block, ouichefs_ioctl}
use lkp_project.Examples.Host.{host, small_fs}

-- EBUSY
abbrev busy : Registry
busy = record {
  kobject_create_and_add = true;
  kmem_cache_create = true;
  register_filesystem = 16;
  unregister_filesystem = 0;
  register_chrdev = some 240;
}

ouichefs_init-AllOrNothing_example : AllOrNothing busy (ouichefs_init busy nothing_registered)
ouichefs_init-AllOrNothing_example = ouichefs_init-AllOrNothing busy

abbrev debug_call : DebugCall
debug_call = record {
  cmd = 7;
  debug_cmd = 7;
  is_readable = true;
  data_address = 4096;
  target = some 2;
  is_writable = true;
}

-- A small file's block is shown. The reference on the file is not given back, and neither is it where
-- the call fails.
ouichefs_ioctl_runs :
    ((ouichefs_ioctl host debug_call 1 small_fs).0 ≡ 2)
    × ((ouichefs_ioctl host (record debug_call { is_writable = false }) 1 small_fs).0 ≡ 2)
    × (ouichefs_ioctl host (record debug_call { data_address = 0 }) 1 small_fs
        ≡ (1, fail einval small_fs))
unfolding ouichefs_ioctl show_block
ouichefs_ioctl_runs = (refl, refl, refl)
