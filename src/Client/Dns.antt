-- ===== src/Client/Dns.antt =====
-- client/NetdClient.cpp: queries for names by way of the local socket of the resolver.
use system_netd.Prelude.{
  ℕ, zero, suc, ◌+◌, ◌-◌, ◌*◌, ◌/◌, ◌%◌, Bool, not, Option, none, some, List, [], ◌∷◌, ◌++◌, bytes,
  length, ltb, ◌==◌, if◌then◌else◌,
}
use system_netd.Prelude.Int.{ℤ, pos, negsuc, ltb_ℤ, eqb_ℤ, to_uint32}
use system_netd.Prelude.Keys.{Name}
use system_netd.Prelude.Steps.{Step}
use system_netd.Errno.{eperm, ebadf, eio, einval, enosys, emsgsize, eopnotsupp}
use system_netd.Controller.{netid_unset}
use system_netd.Client.Shims.{Opened, opened, failed}
use system_netd.Client.Process.{Process, get_network_for_resolv}
use system_netd.Client.Answers.{Chunk, chunk, Written, write_failed, written, Files, read_be32}

-- `b64_ntop` of libc, a text of at most so many bytes; `ParseInt` of libbase; the code of a result,
-- ResponseCode::DnsProxyQueryResult.
pub record Formats : Type 0 where
  pub b64_ntop : List ℕ → ℕ → Option Name
  pub parse_int : Name → Option ℤ
  pub dns_proxy_query_result : ℤ

-- MAX_CMD_SIZE
abbrev pub max_cmd_size : ℕ
max_cmd_size = 4096

abbrev pub div_ceil : ℕ → ℕ → ℕ
div_ceil dividend divisor = (dividend + divisor - 1) / divisor

-- `std::to_string`, with as many digits as the number has at most.
abbrev digits_below : ℕ → ℕ → Name
digits_below zero n = []
digits_below (suc count) n =
    let rest = digits_below count (n / 10) in
    (if ltb n 10 then [] else rest) ++ ((48 + n % 10) ∷ [])

abbrev pub to_string : ℕ → Name
to_string n = digits_below (n + 1) n

unfoldable pub query_text : ℕ → ℕ → Name → Name
query_text net_id flags encoded =
    bytes "resnsend "
    ++ to_string net_id
    ++ bytes " "
    ++ to_string flags
    ++ bytes " "
    ++ encoded
    ++ (0 ∷ [])

module _ {W : Type 0} (files : Files W) where
  unfoldable pub after_connect : ℤ → ℕ × W → Opened × W
  after_connect fd (error, w) =
      if error == 0 then (opened fd, w) else (failed error, files.close fd w)

  unfoldable pub after_open : Opened × W → Opened × W
  unfolding after_connect
  after_open (failed e, w) = (failed e, w)
  after_open (opened fd, w) = after_connect fd (files.connect_proxy fd w)

  -- `allowed` is allowNetworkingForProcess.
  unfoldable pub dns_open_proxy : Bool → W → Opened × W
  unfolding after_open
  dns_open_proxy allowed w =
      if files.is_local_mode w
      then (failed enosys, w)
      else if not allowed
      then (failed eperm, w)
      else after_open (files.open_proxy w)

  unfoldable pub error_of_write : Written × W → ℕ × W
  error_of_write (write_failed e, w) = (e, w)
  error_of_write (written n, w) = (if n == 0 then eio else 0, w)

  unfoldable pub send_data : ℤ → List ℕ → Step W
  unfolding error_of_write
  send_data fd buf w =
      if ltb_ℤ fd (pos 0) then (ebadf, w) else error_of_write (files.write fd buf w)

-- `use_local_nameservers` is the flag of a netId, and `process` what the process chose.
module _ {W : Type 0} (files : Files W) (formats : Formats) (use_local_nameservers : ℕ)
    (process : Process) where
  unfoldable pub send_query : Name → Opened × W → Opened × W
  unfolding send_data
  send_query cmd (failed e, w) = (failed e, w)
  send_query cmd (opened fd, w) =
      let sent = send_data files fd cmd w in
      if sent.0 == 0
      then (opened fd, files.shutdown fd sent.1)
      else (failed sent.0, files.close fd sent.1)

  unfoldable pub send_encoded : ℕ → ℕ → Option Name → W → Opened × W
  unfolding send_query dns_open_proxy query_text
  send_encoded net_id flags none w = (failed emsgsize, w)
  send_encoded net_id flags (some encoded) w =
      let cmd =
        query_text (get_network_for_resolv use_local_nameservers process net_id) flags encoded in
      if ltb max_cmd_size (length cmd)
      then (failed emsgsize, w)
      else send_query cmd (dns_open_proxy files process.allow_networking_for_process w)

  unfoldable pub res_network_send : ℕ → List ℕ → ℕ → W → Opened × W
  unfolding send_encoded
  res_network_send net_id msg flags w =
      send_encoded net_id flags (formats.b64_ntop msg (div_ceil (length msg) 3 * 4 + 1)) w

  unfoldable pub net_id_of : Option ℤ × W → ℕ × (ℕ × W)
  net_id_of (none, w) = (files.last_errno w, (0, w))
  net_id_of (some net_id, w) = (0, (to_uint32 net_id, w))

  unfoldable pub after_code : ℤ → Option ℤ → W → ℕ × (ℕ × W)
  unfolding net_id_of read_be32
  after_code fd none w = (einval, (0, w))
  after_code fd (some code) w =
      if eqb_ℤ code formats.dns_proxy_query_result
      then net_id_of (read_be32 files fd w)
      else (eopnotsupp, (0, w))

  -- The code has three bytes and a space, of which the space is cut off.
  unfoldable pub after_response : ℤ → Chunk × W → ℕ × (ℕ × W)
  unfolding after_code
  after_response fd (chunk (a ∷ b ∷ c ∷ d ∷ []), w) =
      after_code fd (formats.parse_int (a ∷ b ∷ c ∷ [])) w
  after_response fd (_, w) = (files.last_errno w, (0, w))

  -- The netId for names, with the error of the call before it.
  unfoldable pub get_network_for_dns_internal : ℤ → W → ℕ × (ℕ × W)
  unfolding send_data after_response
  get_network_for_dns_internal fd w =
      let resolv_net_id = get_network_for_resolv use_local_nameservers process netid_unset in
      let sent =
        send_data files fd (bytes "getdnsnetid " ++ to_string resolv_net_id ++ (0 ∷ [])) w in
      if eqb_ℤ fd (negsuc 0)
      then (ebadf, (0, w))
      else if sent.0 == 0
      then after_response fd (files.read fd 4 sent.1)
      else (sent.0, (0, sent.1))

  unfoldable pub get_on : Opened × W → ℕ × (ℕ × W)
  unfolding get_network_for_dns_internal
  get_on (failed e, w) = (e, (0, w))
  get_on (opened fd, w) =
      let r = get_network_for_dns_internal fd w in (r.0, (r.1.0, files.close fd r.1.1))

  unfoldable pub get_network_for_dns : W → ℕ × (ℕ × W)
  unfolding get_on dns_open_proxy
  get_network_for_dns w = get_on (dns_open_proxy files process.allow_networking_for_process w)
