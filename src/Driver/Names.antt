-- ===== src/Driver/Names.antt =====
-- internal/controller/driver_controller.go: the name of a driver, its type, and the names and the port
-- that are derived from it.
pub mod Laws
use Prim.Native.Char.{Char, code}
use ceph_csi_operator.Prelude.{
  ℕ, String, List, Bool, if◌then◌else◌, ◌∷◌, Option, ◌==◌, none, ptr_or, [], some, eqb, leb, ◌&&◌,
  ◌||◌,
}
use ceph_csi_operator.Prelude.Text.{◌<>◌}
use ceph_csi_operator.Utils.Csi.Mounts.{
  ContainerPort, controller_plugin_csi_addons_container_ceph_fs_port,
  controller_plugin_csi_addons_container_rbd_port,
}
use Prim.Native.String.{[] as nil, ◌∷◌ as ◌∷ₛ◌}

-- `DriverType`: the constants
abbrev pub rbd_driver_type : String
rbd_driver_type = "rbd"

abbrev pub ceph_fs_driver_type : String
ceph_fs_driver_type = "cephfs"

abbrev pub nfs_driver_type : String
nfs_driver_type = "nfs"

abbrev pub nvmeof_driver_type : String
nvmeof_driver_type = "nvmeof"

abbrev pub driver_types : List String
driver_types = rbd_driver_type ∷ ceph_fs_driver_type ∷ nfs_driver_type ∷ nvmeof_driver_type ∷ []

-- The type that makes the whole text `<type>.csi.ceph.com`
unfoldable pub type_at : List String → String → Option String
type_at [] text = none
type_at (t ∷ types) text = if text == t <> ".csi.ceph.com" then some t else type_at types text

-- The rest of the text behind `.+\.`: at least one character and a dot; a newline ends the search.
unfoldable pub type_behind : String → Option String
unfolding type_at
type_behind nil = none
type_behind (c ∷ₛ text) =
    let rest = type_behind text in
    if eqb (code c) 10
    then none
    else if eqb (code c) 46
    then ptr_or (type_at driver_types text) rest
    else rest

unfoldable pub behind_first : String → Option String
unfolding type_behind
behind_first nil = none
behind_first (c ∷ₛ text) = if eqb (code c) 10 then none else type_behind text

-- `nameRegExp`, its group. The types have no dot, so there is one way to match at most.
unfoldable pub match_name : String → Option String
unfolding type_at behind_first
match_name name = ptr_or (type_at driver_types name) (behind_first name)

-- `generateName`, over the driver's name
unfoldable pub generate_name : String → String → String
generate_name driver_name suffix = driver_name <> "-" <> suffix

-- `[a-z0-9-]`
abbrev pub allowed : ℕ → Bool
allowed c = (leb 97 c && leb c 122) || (leb 48 c && leb c 57) || eqb c 45

-- `ReplaceAllString(name, "-")` at the pattern `[^a-z0-9-]`
unfoldable pub hyphenate : String → String
hyphenate nil = ""
hyphenate (c ∷ₛ text) =
    let rest = hyphenate text in if allowed (code c) then c ∷ₛ rest else "-" <> rest

-- `generateServiceName`
unfoldable pub generate_service_name : String → String → String
unfolding generate_name hyphenate
generate_service_name driver_name suffix = hyphenate (generate_name driver_name suffix)

-- `controllerPluginCsiAddonsContainerPort`, over the driver's type
unfoldable pub controller_plugin_csi_addons_container_port : String → ContainerPort
controller_plugin_csi_addons_container_port driver_type =
    if driver_type == ceph_fs_driver_type
    then controller_plugin_csi_addons_container_ceph_fs_port
    else controller_plugin_csi_addons_container_rbd_port
