-- ===== src/Routing/Routes/Asked.antt =====
-- What `modifyIpRoute` asks the kernel for.
use system_netd.Prelude.{ℕ, ◌≡◌, Option, none, some, refl, sym, ◌∙◌}
use system_netd.Prelude.Keys.{Name}
use system_netd.RouteTables.{Kernel}
use system_netd.Routing.Prefix.{Prefix, Parsed, refused, parsed, parse_prefix}
use system_netd.Routing.Prefix.Complete.{parse_prefix-parsed}
use system_netd.Routing.Prefix.Read.{IsPrefix, Reads, parse_prefix-Reads}
use system_netd.Routing.Routes.{
  RouteAction, Texts, Routes, Aimed, not_aimed, aimed, target_of, send_to, send_parsed,
  modify_ip_route,
}
use system_netd.Routing.Routes.Proper.{
  Aims, target_of-Aims, route_request-IsRequest, Asks, no_destination, no_prefix, no_target, asked,
}

module _ {W : Type 0} (kernel : Kernel W) (routes : Routes W) (texts : Texts) (action : RouteAction)
    (table : ℕ) (interface nexthop : Option Name) (mtu priority : ℕ) (w : W) where
  send_to-Asks :
      (text : Name) (p : Prefix) (a : Aimed)
      → IsPrefix texts.get_addr_info text p
      → Aims texts p.family (kernel.if_name_to_index w) interface nexthop a
      → Asks routes texts action table mtu priority
          (kernel.if_name_to_index w)
          interface
          (some text)
          nexthop
          w
          (send_to kernel routes texts action table p mtu priority a w)
  unfolding send_to
  send_to-Asks text p (not_aimed e) h g = no_target text p e refl h g refl
  send_to-Asks text p (aimed t) h g =
      asked text p _ refl h
        (route_request-IsRequest texts action table mtu priority (kernel.if_name_to_index w)
          interface nexthop p t g)
        refl

  send_parsed-Asks :
      (text : Name) (o : Parsed)
      → parse_prefix texts.get_addr_info 16 text ≡ o
      → Reads texts.get_addr_info text o
      → Asks routes texts action table mtu priority
          (kernel.if_name_to_index w)
          interface
          (some text)
          nexthop
          w
          (send_parsed kernel routes texts action table interface nexthop mtu priority o w)
  unfolding send_parsed
  send_parsed-Asks text (refused e) read h =
      no_prefix text e refl
        (λ p spelt. absurd (cc (sym read ∙ parse_prefix-parsed texts.get_addr_info text p spelt))) h
        refl
  send_parsed-Asks text (parsed p) read h =
      send_to-Asks text p (target_of texts p.family (kernel.if_name_to_index w) interface nexthop) h
        (target_of-Aims texts p.family (kernel.if_name_to_index w) interface nexthop)

  -- `modifyIpRoute` fails without a request if there is no destination, the destination does not spell
  -- a prefix, the interface is not known, or the next hop is no address. Otherwise it makes one
  -- request, and its result is the kernel's. The request has the action, the table, the MTU and the
  -- priority of the call, and the prefix that the destination spells: the address before the slash and
  -- the length behind it, at most 32 for IPv4 and 128 for IPv6. For the words unreachable and throw it
  -- has that type and neither interface nor gateway. For all else it is of type unicast, with the
  -- index of the interface, which is not 0, and the address that the next hop is read as, or without
  -- them if they are not named. It is in the scope of the link exactly without a gateway, and has
  -- `NLM_F_EXCL` exactly to create a route whose prefix is not link-local.
  pub modify_ip_route-Asks :
      (destination : Option Name)
      → Asks routes texts action table mtu priority
          (kernel.if_name_to_index w)
          interface
          destination
          nexthop
          w
          (modify_ip_route kernel routes texts action table interface destination nexthop mtu
            priority w)
  unfolding modify_ip_route
  modify_ip_route-Asks none = no_destination refl refl
  modify_ip_route-Asks (some destination) =
      send_parsed-Asks destination (parse_prefix texts.get_addr_info 16 destination) refl
        (parse_prefix-Reads texts.get_addr_info 16 destination)
