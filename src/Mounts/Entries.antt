-- ===== src/Mounts/Entries.antt =====
-- src/mounts.c: `do_mounts`.
use sandals.Prelude.{
  ℕ, Bool, true, false, [], ◌++◌, Bytes, codes, str_eq, Option, none, some, if◌then◌else◌,
}
use sandals.Os.{Kernel, M, pure, ◌>>=◌, ◌>>◌, call, Res, ok, err, enoent, mount}
use sandals.Fail.{die}
use sandals.Json.{
  Tokens, array_items, object_members, key_of_member, jserror, jsget_object, jsget_str, jsget_bool,
  jsunknown, for_each,
}
use sandals.Request.{Request}
use sandals.Mounts.Nodes.{c_str, chroot_relative, create_node}

-- A mount definition whose members are being read.
pub record MountDef : Type 0 where
  pub type : Option Bytes
  pub src : Option Bytes
  pub dest : Option Bytes
  pub options : Bytes
  pub ro : Bool

abbrev new_mount : MountDef
new_mount = record { type = none; src = none; dest = none; options = []; ro = false }

-- What is given to `mount`; `binds` says that the flags are MS_BIND|MS_REC.
pub record Mount : Type 0 where
  pub src : Bytes
  pub dest : Bytes
  pub type : Bytes
  pub binds : Bool
  pub ro : Bool
  pub options : Bytes

-- `flags & MS_BIND ? src : NULL`.
abbrev pub bound_src : Mount → Option Bytes
bound_src m = if m.binds then some m.src else none

module _ (k : Kernel) (response_fd fuel : ℕ) where
  unfoldable pub mount_error : Mount → Bytes → Bytes → M (Unit {0})
  mount_error m dest reason = die k response_fd fuel tt (
      codes "mount('"
      ++ m.src
      ++ codes "','"
      ++ dest
      ++ codes "','"
      ++ m.type
      ++ codes "'): "
      ++ reason)

  -- The second mount, with MS_REMOUNT|MS_RDONLY.
  unfoldable pub after_remount : Mount → Bytes → Res ℕ → M (Unit {0})
  unfolding mount_error
  after_remount m dest (ok _) = pure tt
  after_remount m dest (err e) = mount_error m dest (k.strerror e)

  unfoldable pub remount : Mount → Bytes → M (Unit {0})
  unfolding after_remount
  remount m dest =
      if m.ro
      then call k (mount m.src dest m.type m.binds true m.options) >>= after_remount m dest
      else pure tt

  -- From `retry_mount` on, with `create_missing` unset.
  unfoldable pub after_retry : Mount → Bytes → Res ℕ → M (Unit {0})
  unfolding remount mount_error
  after_retry m dest (ok _) = remount m dest
  after_retry m dest (err e) = mount_error m dest (k.strerror e)

  unfoldable pub retry_mount : Mount → Bytes → M (Unit {0})
  unfolding after_retry
  retry_mount m dest =
      call k (mount m.src dest m.type m.binds false m.options) >>= after_retry m dest

  unfoldable pub after_mount : Mount → Bytes → Res ℕ → M (Unit {0})
  unfolding create_node retry_mount remount mount_error c_str
  after_mount m dest (ok _) = remount m dest
  after_mount m dest (err enoent) =
      create_node k response_fd fuel (bound_src m) dest >>= λ buf. retry_mount m (c_str buf)
  after_mount m dest (err e) = mount_error m dest (k.strerror e)

  -- From `retry_mount` on, with `create_missing` set.
  unfoldable pub do_mount : Mount → M (Unit {0})
  unfolding after_mount
  do_mount m = call k (mount m.src m.dest m.type m.binds false m.options) >>= after_mount m m.dest

  module _ (toks : Tokens) where
    -- The body of the loop over the members of a mount definition.
    unfoldable pub mount_member : ℕ → MountDef → ℕ → M MountDef
    mount_member root d value =
        let key = key_of_member toks value in
        if str_eq key (codes "type")
        then (jsget_str toks k response_fd fuel (some root) value >>= λ s.
            pure (record d { type = some s }))
        else if str_eq key (codes "src")
        then (jsget_str toks k response_fd fuel (some root) value >>= λ s.
            pure (record d { src = some s }))
        else if str_eq key (codes "dest")
        then (jsget_str toks k response_fd fuel (some root) value >>= λ s.
            pure (record d { dest = some s }))
        else if str_eq key (codes "options")
        then (jsget_str toks k response_fd fuel (some root) value >>= λ s.
            pure (record d { options = s }))
        else if str_eq key (codes "ro")
        then (jsget_bool toks k response_fd fuel (some root) value >>= λ b.
            pure (record d { ro = b }))
        else (jsunknown toks k response_fd fuel (some root) value >> pure d)

    -- A member that may not be NULL.
    unfoldable pub required : ℕ → ℕ → Bytes → Option Bytes → M Bytes
    required root mntdef text (some s) = pure s
    required root mntdef text none =
        jserror toks k response_fd fuel (some root) mntdef text >> pure []

    -- The source that `mount` is given: for all but a bind mount it is the type.
    unfoldable pub mount_source : ℕ → ℕ → Bytes → Option Bytes → M Bytes
    unfolding required
    mount_source root mntdef type src =
        if str_eq type (codes "bind")
        then required root mntdef (codes "'src' missing") src
        else pure type

    -- What follows the members in the body of the loop, as far as the mounts.
    unfoldable pub check_mount : ℕ → ℕ → Bytes → MountDef → M Mount
    unfolding required mount_source
    check_mount root mntdef chroot d = do
      type ← required root mntdef (codes "'type' missing") d.type
      dest ← required root mntdef (codes "'dest' missing") d.dest
      src ← mount_source root mntdef type d.src
      chrooted_dest ← chroot_relative k response_fd fuel chroot dest
      pure (record {
        src = src;
        dest = chrooted_dest;
        type = type;
        binds = str_eq type (codes "bind");
        ro = d.ro;
        options = d.options;
      })

    -- The body of the loop over the mounts.
    unfoldable pub mount_item : ℕ → Bytes → ℕ → M (Unit {0})
    unfolding mount_member check_mount do_mount
    mount_item root chroot mntdef = do
      o ← jsget_object toks k response_fd fuel (some root) mntdef
      d ← for_each (mount_member root) new_mount (object_members toks o)
      m ← check_mount root mntdef chroot d
      do_mount m

    unfoldable pub do_mounts : Request → M (Unit {0})
    unfolding mount_item
    do_mounts request = elim request.mounts [
      | none ↦ pure tt
      | some mounts ↦
          for_each (λ _ mntdef. mount_item request.json_root request.chroot mntdef) tt
            (array_items toks mounts)
    ]
