-- ===== src/Client/Served.antt =====
-- client/FwmarkClient.cpp and server/FwmarkServer.cpp together: the server at the other end of the
-- channel. The state of the channel is the answer that waits to be read.
use system_netd.Prelude.{
  ℕ, ◌+◌, ◌≡◌, refl, sym, Bool, true, false, Option, none, some, List, [], ◌∷◌,
}
use system_netd.Prelude.Int.{ℤ, pos}
use system_netd.Controller.{Controller}
use system_netd.Platform.{Platform}
use system_netd.FwmarkServer.{FwmarkCommand, FwmarkConnectInfo, Sockets, has_destination_address}
use system_netd.FwmarkServer.Process.{
  Received, message, size_of_command, size_of_connect_info, is_query, with_fds, process_client,
  on_data_available,
}
use system_netd.Client.{
  Message, Reply, silent, answered, Channel, message_of, error_of, exchange, send_connected, send,
}

-- The bytes that no sender wrote.
abbrev no_connect_info : FwmarkConnectInfo
no_connect_info = record { error = pos 0; latency_ms = 0; addr = [] }

abbrev pub info_or_none : Option FwmarkConnectInfo → FwmarkConnectInfo
info_or_none none = no_connect_info
info_or_none (some info) = info

abbrev length_of : Option FwmarkConnectInfo → ℕ
length_of none = size_of_command
length_of (some info) = size_of_command + size_of_connect_info

abbrev descriptors : Option ℤ → List ℤ
descriptors none = []
descriptors (some fd) = fd ∷ []

-- What the server receives of a message. A descriptor stands for the socket, in both processes.
abbrev pub received_of : Message → Received
received_of m =
    message (length_of m.connect_info) m.command (info_or_none m.connect_info) (descriptors m.fd)

abbrev take_answer : {W : Type 0} → Option ℕ × Controller W → Reply × (Option ℕ × Controller W)
take_answer (none, c) = (silent, (none, c))
take_answer (some e, c) = (answered e, (none, c))

-- A server that can be reached, for a client with the UID.
abbrev pub served :
    {W : Type 0} → Platform W → Sockets W → Bool → ℕ → Channel (Option ℕ × Controller W)
served p k redirect uid = record {
  open_channel = λ s. (0, s);
  connect_channel = λ s. (true, s);
  send_message =
      λ m s. let r = on_data_available p k redirect uid (received_of m) s.1 in (0, (some r.0, r.1));
  receive = take_answer;
  close_channel = λ s. s;
}

abbrev pub is_there : Option FwmarkConnectInfo → Bool
is_there none = false
is_there (some info) = true

module _ {W : Type 0} (p : Platform W) (k : Sockets W) (redirect : Bool) (uid : ℕ) where
  -- Sending a command to a server is the server's work on that command.
  pub send-served :
      (command : FwmarkCommand) (fd : ℤ) (info : Option FwmarkConnectInfo)
      (s : Option ℕ × Controller W)
      → let r = on_data_available p k redirect uid (received_of (message_of command fd info)) s.1 in
        send (served p k redirect uid) command fd info s ≡ (r.0, (none, r.1))
  unfolding send send_connected exchange error_of
  send-served command fd info s = refl

  -- A message with a descriptor, and with an address exactly if the command has one, has the length
  -- that the server expects.
  pub process_client-fds :
      (command : FwmarkCommand) (fd : ℤ) (info : Option FwmarkConnectInfo) (s : ℤ × Controller W)
      → is_query p k redirect uid command.cmd_id ≡ false
      → is_there info ≡ has_destination_address command.cmd_id redirect
      → process_client p k redirect uid
          (message (length_of info) command (info_or_none info) (fd ∷ []))
          s
        ≡ with_fds p k redirect uid command (info_or_none info) (fd ∷ []) s
  unfolding process_client
  process_client-fds command fd none s other fits = rw (other) (rw (sym fits) refl)
  process_client-fds command fd (some info) s other fits = rw (other) (rw (sym fits) refl)
