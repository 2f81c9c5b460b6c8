-- ===== src/Tests/Mountings.antt =====
-- A mount whose target is missing.
use sandals.Prelude.{ℕ, ◌≡◌, refl, [], codes, none, false, true, ◌==◌, length, if◌then◌else◌}
use sandals.Os.{Kernel, Res, ok, err, enoent, Call, open_dir, mount}
use sandals.Os.Returning.{Returning}
use sandals.Mounts.Entries.{Mount, do_mount}
use sandals.Mounts.Nodes.{chroot_relative, create_node}
use sandals.Mounts.Parts.{Restored}
use sandals.Mounts.Restore.{create_node-Restored}
use sandals.Mounts.Retry.{Mounts, do_mount-Mounts}
use sandals.Mounts.Target.{IsTarget, chroot_relative-IsTarget}
use sandals.Tests.Kernels.{obedient}

-- No directory is there, and the first mount fails.
abbrev answer : ℕ → Call → Res ℕ
answer calls (open_dir path) = err enoent
answer calls (mount src dest type binds ro options) = if calls == 0 then err enoent else ok 0
answer calls _ = ok 7

abbrev bare : Kernel
bare = record (obedient []) { call = λ t c. answer (length t) c }

abbrev tmpfs : Mount
tmpfs = record {
  src = codes "tmpfs";
  dest = codes "/a/b/";
  type = codes "tmpfs";
  binds = false;
  ro = true;
  options = [];
}

create_node-Restored_example :
    Returning (Restored (codes "/a/b/") []) (create_node bare 1 100 none (codes "/a/b/") [])
create_node-Restored_example = create_node-Restored bare 1 100 none (codes "/a/b/") [] refl

do_mount-Mounts_example : Returning (Mounts bare 1 100 tmpfs []) (do_mount bare 1 100 tmpfs [])
do_mount-Mounts_example = do_mount-Mounts bare 1 100 tmpfs [] refl

chroot_relative-IsTarget_example :
    Returning
      (λ text t'. IsTarget (codes "/srv//") (codes "//tmp") text × (t' ≡ []))
      (chroot_relative bare 1 100 (codes "/srv//") (codes "//tmp") [])
chroot_relative-IsTarget_example =
    chroot_relative-IsTarget bare 1 100 (codes "/srv//") (codes "//tmp") []
