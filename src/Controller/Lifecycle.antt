-- ===== src/Controller/Lifecycle.antt =====
-- The operations of server/NetworkController.cpp that create, destroy and change networks. Where the
-- source casts a `Network*` to `PhysicalNetwork*`, the fields of that class come from its kind.
pub mod Consistent
pub mod Elsewhere
pub mod FreeId
pub mod Switch
pub mod Preserves
use system_netd.Prelude.{
  ℕ, zero, suc, ◌+◌, Bool, true, false, not, ◌&&◌, ◌||◌, Option, none, some, List, [], ◌∷◌, leb,
  ltb, ◌==◌, if◌then◌else◌,
}
use system_netd.Prelude.Int.{ℤ, ltb_ℤ}
use system_netd.Prelude.Keys.{Name, nat_key}
use system_netd.Prelude.Steps.{Step, ◌>>◌, and_then, succeed, fail, update, for_each}
use system_netd.Containers.Map
use system_netd.Containers.Map.{Map}
use system_netd.UidRanges
use system_netd.UidRanges.{UidRanges}
use system_netd.Errno.{einval, enonet, esrch, eexist, ebusy}
use system_netd.Platform.{Platform}
use system_netd.Network.{
  Network, Kind, physical, PhysicalState, is_physical, is_virtual, can_add_users, get_permission,
  new_physical_network, new_virtual_network,
}
use system_netd.Network.Physical
use system_netd.Network.Dispatch
use system_netd.Controller.{
  Controller, get_network, is_valid_network, get_network_for_interface, vpns, run_on, netid_unset,
  min_net_id, max_net_id, min_oem_id, max_oem_id,
}

abbrev pub is_regular_id : ℕ → Bool
is_regular_id net_id = leb min_net_id net_id && leb net_id max_net_id

abbrev pub is_oem_id : ℕ → Bool
is_oem_id net_id = leb min_oem_id net_id && leb net_id max_oem_id

abbrev pub new_physical_state : Bool → PhysicalState
new_physical_state is_local = record {
  permission = 0;
  is_default = false;
  is_local_network = is_local;
}

module _ {W : Type 0} where
  -- A method of the class PhysicalNetwork, or else an error.
  unfoldable pub physical_of :
      ℕ → (PhysicalState → Step (Network × W)) → ℕ → Network → Kind → Step (Controller W)
  physical_of error m net_id n (physical f) = run_on net_id n (m f)
  physical_of error m net_id n _ = fail error

  -- The same, on what a look-up found.
  unfoldable pub physical_at :
      ℕ → ℕ → (PhysicalState → Step (Network × W)) → ℕ → Option Network → Step (Controller W)
  unfolding physical_of
  physical_at missing error m net_id none = fail missing
  physical_at missing error m net_id (some n) = physical_of error m net_id n n.kind

  -- the loop from MIN_OEM_ID on, over the rounds that are left
  unfoldable pub first_free : ℕ → ℕ → Controller W → ℕ
  first_free zero id c = id
  first_free (suc rounds) id c =
      let next = first_free rounds (id + 1) c in if not (is_valid_network c id) then id else next

  unfoldable pub oem_result : ℕ → ℕ × Controller W → ℕ × (ℕ × Controller W)
  oem_result id (zero, c) = (0, (id, c))
  oem_result id (suc e, c) = (suc e, (0, c))

module _ {W : Type 0} (p : Platform W) where
  unfoldable pub begin_default : ℕ → Step (Controller W)
  unfolding physical_at
  begin_default net_id c =
      if net_id == netid_unset
      then (0, c)
      else physical_at enonet einval (Physical.add_as_default p (vpns c)) net_id
          (get_network c net_id) c

  unfoldable pub end_default : Step (Controller W)
  unfolding physical_at
  end_default c =
      if c.default_net_id == netid_unset
      then (0, c)
      else physical_at esrch esrch (Physical.remove_as_default p (vpns c)) c.default_net_id
          (get_network c c.default_net_id) c

  unfoldable pub set_default_network : ℕ → Step (Controller W)
  unfolding begin_default end_default
  set_default_network net_id c =
      if net_id == c.default_net_id
      then (0, c)
      else (do
        begin_default net_id
        end_default
        update (λ s. record s { default_net_id = net_id }))
          c

  unfoldable pub has_physical : Map ℕ Network → Bool
  has_physical [] = false
  has_physical ((id, n) ∷ ns) = (is_physical n && leb min_net_id n.net_id) || has_physical ns

  unfoldable pub update_polling : Controller W → Controller W
  unfolding has_physical
  update_polling c = record c {
    world = if has_physical c.networks then p.resume_polling c.world else p.suspend_polling c.world;
  }

  unfoldable pub enter_network : ℕ → ℕ × (Network × W) → Controller W → ℕ × Controller W
  enter_network net_id (zero, (n, w)) c =
      (0, update_polling (record c { networks = Map.insert net_id n c.networks; world = w }))
  enter_network net_id (suc e, (n, w)) c = (suc e, record c { world = w })

  unfoldable pub create_physical_network : ℕ → ℕ → Bool → Step (Controller W)
  unfolding enter_network update_polling
  create_physical_network net_id permission is_local c =
      if not (is_regular_id net_id || is_oem_id net_id)
      then (einval, c)
      else if is_valid_network c net_id
      then (eexist, c)
      else enter_network net_id
          (Physical.set_permission p (vpns c) (new_physical_state is_local) permission
            (new_physical_network net_id is_local, c.world))
          c

  -- The errno, the netId that is written through the pointer, which is not null, and the state.
  unfoldable pub create_physical_oem_network : ℕ → Controller W → ℕ × (ℕ × Controller W)
  unfolding first_free oem_result create_physical_network
  create_physical_oem_network permission c =
      let id = first_free max_oem_id min_oem_id c in
      if ltb max_oem_id id
      then (enonet, (0, c))
      else oem_result id (create_physical_network id permission false c)

  -- the loop over the interfaces of the default network
  unfoldable pub fallthrough_over : ℕ → Bool → Network → Step (Controller W)
  fallthrough_over vpn_net_id add n c =
      let r =
        for_each n.interfaces
          (λ interface.
            Physical.modify_fallthrough_of p vpn_net_id interface (get_permission n) add)
          c.world in
      (r.0, record c { world = r.1 })

  unfoldable pub fallthrough_from : ℕ → Bool → Option Network → Step (Controller W)
  unfolding fallthrough_over
  fallthrough_from vpn_net_id add none = fail esrch
  fallthrough_from vpn_net_id add (some n) =
      if not (is_physical n) then fail einval else fallthrough_over vpn_net_id add n

  unfoldable pub modify_fallthrough : ℕ → Bool → Step (Controller W)
  unfolding fallthrough_from
  modify_fallthrough vpn_net_id add c =
      if c.default_net_id == netid_unset
      then (0, c)
      else fallthrough_from vpn_net_id add (get_network c c.default_net_id) c

  unfoldable pub create_virtual_network : ℕ → Bool → ℤ → Bool → Step (Controller W)
  unfolding modify_fallthrough
  create_virtual_network net_id secure vpn_type exclude_local_routes c =
      if not (is_regular_id net_id)
      then (einval, c)
      else if is_valid_network c net_id
      then (eexist, c)
      else if ltb_ℤ vpn_type p.native_vpn_service || ltb_ℤ p.native_vpn_oem vpn_type
      then (einval, c)
      else (modify_fallthrough net_id true
            >> update (λ s. record s {
              networks =
                  Map.insert net_id (new_virtual_network net_id secure exclude_local_routes)
                    s.networks;
            }))
          c
