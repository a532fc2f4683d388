-- ===== src/Client/Granted.antt =====
-- What it takes for `setNetworkForSocket` and `setNetworkForProcess` of client/NetdClient.cpp to
-- succeed, with a server that can be reached.
use system_netd.Prelude.{
  ℕ, ◌^◌, ◌%◌, ◌≡◌, ◌≢◌, refl, sym, ◌∙◌, ap, inl, inr, Bool, true, false, Option, none, [], ◌∷◌,
  ◌==◌, Bool-cases, arith,
}
use system_netd.Prelude.Int.{ℤ, pos, negsuc, ltb_ℤ}
use system_netd.Fwmark.{Fwmark, int_value, from_int_value}
use system_netd.Platform.{Platform}
use system_netd.Controller.{Controller, can_protect, get_permission_for_user, netid_unset}
use system_netd.Controller.Access.{check_user_network_access}
use system_netd.FwmarkServer.{
  select_network, FwmarkConnectInfo, Answer, value, refused, Sockets, select, handle,
  is_supported_family, with_net_id, af_inet6, has_destination_address,
}
use system_netd.FwmarkServer.Process.{
  write_mark, with_mark, with_domain, with_fds, on_data_available,
}
use system_netd.Client.{Local, command_of, check_socket}
use system_netd.Client.Served.{served, send-served, process_client-fds, info_or_none}
use system_netd.Client.Shims.{Opened, opened, failed, Libc, set_network_for_socket}
use system_netd.Client.Process.{
  Process, without_flag, try_network, sock_dgram_cloexec, set_network_for_target,
}

-- An `errno` of a call that failed is not 0.
pub record HasErrors {W : Type 0} (k : Sockets W) : Type 0 where
  pub domain : (w : W) (fd : ℤ) (e : ℕ) → k.get_domain w fd ≡ refused e → e ≢ 0
  pub mark : (w : W) (fd : ℤ) (e : ℕ) → k.get_mark w fd ≡ refused e → e ≢ 0

module _ {W : Type 0} (p : Platform W) (k : Sockets W) (redirect : Bool) (uid : ℕ) where
  -- The user may use the network, and the kernel accepted a mark for the socket that has the explicit
  -- bit and the netId.
  abbrev pub Selected : ℕ → ℤ → Controller W → Type 0
  Selected net_id fd c =
      (check_user_network_access p c uid net_id ≡ 0)
      × ((m : Fwmark) × (m.explicitly_selected ≡ true)
          × (m.net_id ≡ net_id % 2 ^ 16)
          × ((k.set_mark fd (int_value m) c.world).0 ≡ 0))

  module _ (net_id : ℕ) (fd : ℤ) (info : FwmarkConnectInfo) (c : Controller W)
      (some_id : net_id ≢ 0) where
    select-Selected :
        (m : Fwmark) (permission : ℕ)
        → (write_mark p k redirect uid fd (select p k c uid net_id permission m) c).0 ≡ 0
        → Selected net_id fd c
    unfolding select write_mark
    select-Selected m permission e =
        elim (Bool-cases (check_user_network_access p c uid net_id == 0)) [
          | inl may ↦ (
            ground (arith, may),
            (
              record (with_net_id net_id m) {
                explicitly_selected = true;
                protected_from_vpn = can_protect p c uid;
                permission = permission % 4;
              },
              refl,
              refl,
              rw (may) at e,
            ),
          )
          | inr denied ↦ absurd (ground (arith, denied, rw (denied) at e))
        ]

    mark-Selected :
        (a : Answer)
        → ((x : ℕ) → a ≡ refused x → x ≢ 0)
        → (with_mark p k redirect uid fd (command_of select_network net_id 0 0) info a c).0 ≡ 0
        → Selected net_id fd c
    unfolding with_mark handle
    mark-Selected (refused x) proper e = absurd (proper x refl e)
    mark-Selected (value mark) proper e =
        let named : (net_id == netid_unset) ≡ false = ground (arith, some_id) in
        select-Selected (from_int_value mark) (get_permission_for_user p c uid) (rw (named) at e)

    domain-Selected :
        (a : Answer)
        → HasErrors k
        → ((x : ℕ) → a ≡ refused x → x ≢ 0)
        → (with_domain p k redirect uid fd (command_of select_network net_id 0 0) info a c).0 ≡ 0
        → Selected net_id fd c
    unfolding with_domain
    domain-Selected (refused x) errors proper e = absurd (proper x refl e)
    domain-Selected (value family) errors proper e =
        elim (Bool-cases (is_supported_family family)) [
          | inl fits ↦
              mark-Selected (k.get_mark c.world fd) (errors.mark c.world fd) (rw (fits) at e)
          | inr other ↦ absurd (ground (arith, rw (other) at e))
        ]

    fds-Selected :
        HasErrors k
        → (s : ℤ)
        → (with_fds p k redirect uid (command_of select_network net_id 0 0) info (fd ∷ []) (s, c)).0
          ≡ 0
        → Selected net_id fd c
    unfolding with_fds
    fds-Selected errors s e = elim (Bool-cases (ltb_ℤ fd (pos 0))) [
      | inl bad ↦ absurd (ground (arith, rw (bad) at e))
      | inr good ↦
          domain-Selected (k.get_domain c.world fd) errors (errors.domain c.world fd)
            (rw (good) at e)
    ]

  module _ (local : Local (Option ℕ × Controller W)) (libc : Libc (Option ℕ × Controller W))
      (errors : HasErrors k) where
    -- If `setNetworkForSocket` gives 0 for a network that is not NETID_UNSET, then the user may use the
    -- network, and the socket was given a mark with the explicit bit and the netId.
    pub set_network-Selected :
        (net_id : ℕ) (fd : ℤ) (s : Option ℕ × Controller W)
        → net_id ≢ 0
        → (set_network_for_socket local (served p k redirect uid) libc net_id fd s).0 ≡ 0
        → Selected net_id fd s.1
    unfolding set_network_for_socket on_data_available has_destination_address
    set_network-Selected net_id fd s some_id e = elim (Bool-cases (check_socket local s fd == 0)) [
      | inl ok ↦
          let command = command_of select_network net_id 0 0 in
          let served_path = send-served p k redirect uid command fd none s in
          let framed =
            process_client-fds p k redirect uid command fd none (negsuc 0, s.1) refl refl in
          fds-Selected net_id fd (info_or_none none) s.1 some_id errors (negsuc 0)
            (sym (ap (λ r. r.0) framed) ∙ (sym (ap (λ r. r.0) served_path) ∙ rw (ok) at e))
      | inr bad ↦ absurd (ground (arith, bad, rw (bad) at e))
    ]

    try-Selected :
        (net_id : ℕ) (o : Opened × (Option ℕ × Controller W))
        → net_id ≢ 0
        → ((x : ℕ) → o.0 ≡ failed x → x ≢ 0)
        → (try_network local (served p k redirect uid) libc net_id o).0 ≡ 0
        → (fd : ℤ) × (o.0 ≡ opened fd) × Selected net_id fd (o.1).1
    unfolding try_network
    try-Selected net_id (failed x, s) some_id proper e = absurd (proper x refl e)
    try-Selected net_id (opened fd, s) some_id proper e =
        (fd, refl, set_network-Selected net_id fd s some_id e)

    -- If no call fails with the errno 0: if `setNetworkForProcess` or `setNetworkForResolv` gives 0 for
    -- a network that is not NETID_UNSET, with a server that can be reached, then the user may use that
    -- network, as a socket shows that got its mark, and the process keeps it.
    pub set_target-Selected :
        (use_local_nameservers requested : ℕ) (store : ℕ → Process → Process) (process : Process)
        (s : Option ℕ × Controller W)
        → let net_id = without_flag use_local_nameservers requested in
          let made = libc.socket af_inet6 sock_dgram_cloexec 0 s in
          let r =
            set_network_for_target local
              (served p k redirect uid)
              libc
              use_local_nameservers
              requested
              store
              (process, s) in
          net_id ≢ 0
          → ((x : ℕ) → made.0 ≡ failed x → x ≢ 0)
          → r.0 ≡ 0
          → ((fd : ℤ) × (made.0 ≡ opened fd) × Selected net_id fd (made.1).1)
            × ((r.1).0 ≡ store requested process)
    unfolding set_network_for_target
    set_target-Selected use_local_nameservers requested store process s some_id proper e =
        let net_id = without_flag use_local_nameservers requested in
        let made = libc.socket af_inet6 sock_dgram_cloexec 0 s in
        let channel = served p k redirect uid in
        let set : (net_id == netid_unset) ≡ false = ground (arith, some_id) in
        elim (Bool-cases ((try_network local channel libc net_id made).0 == 0)) [
          | inl ok ↦
              (try-Selected net_id made some_id proper (ground (arith, ok)), rw (set, ok) refl)
          | inr bad ↦ absurd (ground (arith, bad, rw (set, bad) at e))
        ]
