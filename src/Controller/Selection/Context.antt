-- ===== src/Controller/Selection/Context.antt =====
-- What `getNetworkContext` of server/NetworkController.cpp tells the resolver of the app's sockets.
use system_netd.Prelude.{
  ℕ, ◌%◌, ◌^◌, ◌≡◌, ◌≢◌, refl, ◌⊎◌, inl, inr, Bool, false, not, ◌&&◌, ◌==◌, if◌then◌else◌, arith,
  Bool-cases, ==_iff,
}
use system_netd.Fwmark.{empty_mark, int_value, from_int_value}
use system_netd.Platform.{Platform}
use system_netd.Controller.{Controller, can_protect, get_permission_for_user, netid_unset}
use system_netd.Controller.Lifecycle.Consistent.{IsConsistent}
use system_netd.Controller.Selection.{
  get_network_for_connect, get_network_for_dns, get_network_context,
}
use system_netd.Controller.Selection.Connect.{Usable, connect-Usable}

app_mark-Read :
    (id permission : ℕ) (explicit protected : Bool)
    → let mark = from_int_value (
        int_value (record empty_mark {
          net_id = id;
          explicitly_selected = explicit;
          protected_from_vpn = protected;
          permission = permission;
        })) in
      (mark.net_id ≡ id % 2 ^ 16)
      × (mark.explicitly_selected ≡ explicit)
      × (mark.protected_from_vpn ≡ protected)
      × (mark.permission ≡ permission % 4)
unfolding int_value from_int_value empty_mark
app_mark-Read id permission explicit protected =
    (ground arith, ground arith, ground arith, ground arith)

module _ {W : Type 0} (p : Platform W) (c : Controller W) (net_id uid : ℕ) where
  -- The network for the app's sockets is the one that is named, or else one that may be chosen
  -- implicitly.
  abbrev pub Chosen : ℕ → Type 0
  Chosen id =
      ((net_id ≢ netid_unset) × (id ≡ net_id))
      ⊎ ((net_id ≡ netid_unset) × Usable (λ v. v.secure ≡ false) c uid id)

  context_net_id :
      IsConsistent c
      → Chosen (if not (net_id == netid_unset) then net_id else get_network_for_connect c uid)
  context_net_id k = elim (Bool-cases (net_id == netid_unset)) [
    | inl unset ↦ rw unset (inr ((==_iff net_id 0).0 unset, connect-Usable c uid k))
    | inr named ↦ rw named (inl (ground (arith, named), refl))
  ]

  -- In a consistent state, the context of a query names the network that the query names, or if it
  -- names none, NETID_UNSET or an existing network that is not a secure VPN; the app's mark carries
  -- that netId, cut to 16 bits, and the permission of the user, cut to 2 bits, the explicit bit
  -- exactly if the query names a network, and the protect bit exactly if it does and the user may
  -- protect sockets; and the DNS part is that of `getNetworkForDns`.
  context-Chosen :
      IsConsistent c
      → let context = get_network_context p c net_id uid in
        let mark = from_int_value context.app_mark in
        Chosen context.app_net_id
        × (mark.net_id ≡ context.app_net_id % 2 ^ 16)
        × (mark.explicitly_selected ≡ not (net_id == netid_unset))
        × (mark.protected_from_vpn ≡ (not (net_id == netid_unset) && can_protect p c uid))
        × (mark.permission ≡ get_permission_for_user p c uid % 4)
        × ((context.dns_net_id, context.dns_mark) ≡ get_network_for_dns p c net_id uid)
  unfolding get_network_context
  context-Chosen k =
      let explicit = not (net_id == netid_unset) in
      let id = if explicit then net_id else get_network_for_connect c uid in
      let read =
        app_mark-Read id (get_permission_for_user p c uid) explicit
          (explicit && can_protect p c uid) in
      (context_net_id k, read.0, read.1, read.2, read.3, refl)
