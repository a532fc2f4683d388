-- ===== src/FwmarkServer/Queries.antt =====
-- What the server answers to a client that asks whether a user has access to a network.
use system_netd.Prelude.{
  ℕ, ◌≡◌, ◌≢◌, ◌↔◌, ◌⊎◌, inl, inr, refl, Bool, true, not, List, some, ◌==◌, if◌then◌else◌, arith,
  Bool-cases,
}
use system_netd.Prelude.Int.{ℤ}
use system_netd.Errno.{eperm, ebadmsg, eshutdown}
use system_netd.Fwmark.{permission_system, has_permission}
use system_netd.Network.{Network}
use system_netd.Platform.{Platform}
use system_netd.Controller.{
  Controller, invalid_uid, get_network, get_permission_for_user, is_system_user,
}
use system_netd.Controller.Access.{check_user_network_access, Entitled, check_access-Entitled}
use system_netd.FwmarkServer.{
  query_user_access, FwmarkCommand, FwmarkConnectInfo, Sockets, has_destination_address,
}
use system_netd.FwmarkServer.Process.{
  message, is_query, size_of_command, process_client, on_data_available,
}

module _ {W : Type 0} (p : Platform W) (k : Sockets W) (redirect : Bool) (uid : ℕ) where
  -- The user that is asked about has access to the network that is asked about.
  abbrev pub HasAccess : Controller W → ℕ → ℕ → Type 0
  HasAccess c user net_id =
      (n : Network) × (get_network c net_id ≡ some n)
      × (user ≢ invalid_uid)
      × ((is_system_user p c user ≡ true) ⊎ Entitled p c user n)

  answered :
      (length : ℕ) (command : FwmarkCommand) (info : FwmarkConnectInfo) (fds : List ℤ)
      (c : Controller W)
      → command.cmd_id ≡ query_user_access
      → on_data_available p k redirect uid (message length command info fds) c ≡ (
        if length == 0
            then eshutdown
            else if not (length == size_of_command)
            then ebadmsg
            else if not (has_permission (get_permission_for_user p c uid) permission_system)
            then eperm
            else check_user_network_access p c command.uid command.net_id,
        c,
      )
  unfolding on_data_available process_client is_query has_destination_address
  answered length command info fds c e = elim (Bool-cases (length == 0)) [
    | inl empty ↦ rw empty refl
    | inr some_bytes ↦ elim (Bool-cases (length == size_of_command)) [
      | inr other ↦ rw (e, some_bytes, other) refl
      | inl whole ↦
          elim (Bool-cases (has_permission (get_permission_for_user p c uid) permission_system)) [
            | inl system ↦ rw (e, some_bytes, whole, system) refl
            | inr ordinary ↦ rw (e, some_bytes, whole, ordinary) refl
          ]
    ]
  ]

  -- A message that asks whether a user has access to a network is answered with 0 exactly if it has the
  -- length of a command without an address, the client has PERMISSION_SYSTEM, the user is known and
  -- the network exists, and the user has PERMISSION_SYSTEM or is entitled to the network. Whatever
  -- the answer is, no network, no permission and no mark of a socket changes.
  pub query-HasAccess :
      (length : ℕ) (command : FwmarkCommand) (info : FwmarkConnectInfo) (fds : List ℤ)
      (c : Controller W)
      → command.cmd_id ≡ query_user_access
      → let r = on_data_available p k redirect uid (message length command info fds) c in
        (r.1 ≡ c)
        × ((r.0 ≡ 0) ↔ (
            (length ≡ size_of_command)
            × (has_permission (get_permission_for_user p c uid) permission_system ≡ true)
            × HasAccess c command.uid command.net_id))
  query-HasAccess length command info fds c e =
      let access = check_access-Entitled p c command.uid command.net_id in
      rw (answered length command info fds c e) (
        refl,
        (
          λ ok. (ground (arith, ok), ground (arith, ok), access.0 (ground (arith, ok))),
          λ (whole, system, has). rw (whole, system, access.1 has) refl,
        ),
      )
