-- ===== src/Module/Starts.antt =====
-- The module's start and stop (fs.c).
use lkp_project.Prelude.{not, ℕ, true, ◌==◌, ◌≡◌, ◌≢◌, refl, arith, Bool-cases, inl, inr}
use lkp_project.Module.{
  Registered, nothing_registered, Registry, ouichefs_init_sysfs, ouichefs_exit_sysfs,
  ouichefs_init_inode_cache, ouichefs_destroy_inode_cache, register_file_system,
  unregister_file_system, ouichefs_register_device, ouichefs_unregister_device, ouichefs_init,
  ouichefs_exit,
}

-- Either the module starts with everything registered, the device if the kernel gave a number, and
-- stopping it leaves nothing behind but a file system type that cannot be unregistered; or it returns
-- an error and nothing stays registered.
pub data AllOrNothing (g : Registry) : ℕ × Registered → Type 0 where
  started :
      (r : Registered)
      → (r.sysfs_root ≡ true)
        × (r.inode_cache ≡ true)
        × (r.file_system ≡ true)
        × (r.device ≡ g.register_chrdev)
      → ouichefs_exit g r
        ≡ record nothing_registered { file_system = not (g.unregister_filesystem == 0) }
      → AllOrNothing g (0, r)
  refused : (ret : ℕ) → ret ≢ 0 → AllOrNothing g (ret, nothing_registered)

module _ (g : Registry) where
  -- Starting the module returns 0 with the sysfs root, the inode cache and the file system type
  -- registered, and the device if the kernel gave it a number, and stopping it then leaves nothing but a
  -- file system type that cannot be unregistered; or it returns an error and nothing stays registered.
  pub ouichefs_init-AllOrNothing : AllOrNothing g (ouichefs_init g nothing_registered)
  unfolding ouichefs_init ouichefs_init_sysfs ouichefs_init_inode_cache register_file_system
      ouichefs_register_device ouichefs_exit_sysfs ouichefs_destroy_inode_cache ouichefs_exit
      unregister_file_system ouichefs_unregister_device
  ouichefs_init-AllOrNothing = elim (Bool-cases g.kobject_create_and_add) [
    | inr no_root ↦ rw no_root (refused 12 (λ e. absurd (omega arith)))
    | inl root ↦ elim (Bool-cases g.kmem_cache_create) [
      | inr no_cache ↦ rw (root, no_cache) (refused 12 (λ e. absurd (omega arith)))
      | inl cache ↦ elim (Bool-cases (g.register_filesystem == 0)) [
        | inr no_type ↦
            rw (root, cache, no_type) (refused g.register_filesystem (ground (arith, no_type)))
        | inl type ↦
            rw (root, cache, type)
              (elim (Bool-cases (g.unregister_filesystem == 0)) [
                | inl gone ↦ started _ (refl, refl, refl, refl) (rw gone refl)
                | inr stays ↦ started _ (refl, refl, refl, refl) (rw stays refl)
              ])
      ]
    ]
  ]
