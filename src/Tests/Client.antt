-- ===== src/Tests/Client.antt =====
-- The client with the server in the sample state.
use system_netd.Prelude.{
  ℕ, ◌<◌, List, length, ◌≡◌, ◌≢◌, refl, true, false, Option, none, [], ◌∷◌, arith,
}
use system_netd.Prelude.Int.{ℤ, pos}
use system_netd.Controller.{Controller}
use system_netd.FwmarkServer.{value}
use system_netd.Client.{Local, Sockaddr, Channel}
use system_netd.Client.Served.{served}
use system_netd.Client.Shims.{Libc, opened, failed, accepted}
use system_netd.Client.Process.{Process, initial_process, set_network_for_target, without_flag}
use system_netd.Client.Granted.{HasErrors, Selected, set_target-Selected}
use system_netd.FwmarkServer.{has_destination_address, handle}
use system_netd.FwmarkServer.Process.{on_data_available}
use system_netd.Containers.Map
use system_netd.UidRanges
use system_netd.Fwmark.{has_permission}
use system_netd.Network.{is_virtual, applies_to_user}
use system_netd.Controller.{is_system_user, get_permission_for_user, applies_to}
use system_netd.Controller.Access.{check_user_network_access}
use system_netd.Client.Answers.{Chunk, chunk, written, Files, read_data}
use system_netd.Client.Answers.Read.{Took, Streams, Reads, read_data-Reads}
use system_netd.Tests.Samples.{up, state}
use system_netd.Tests.Marks.{sample_sockets}

abbrev Shared : Type 0
Shared = Option ℕ × Controller ℕ

abbrev sample_local : Local Shared
sample_local = record {
  marking_disabled = λ s. false;
  get_domain = λ s fd. value 2;
  get_mark = λ s fd. value 0;
  close = λ fd s. s;
}

abbrev sample_libc : Libc Shared
sample_libc = record {
  accept4 = λ fd has_addr flags s. (accepted (pos 7) 2, s);
  connect = λ fd addr s. (0, s);
  socket = λ domain type protocol s. (opened (pos 6), s);
  latency_ms = λ s t. 3;
}

abbrev sample_shared : Shared
sample_shared = (none, state)

abbrev sample_channel : Channel Shared
sample_channel = served up sample_sockets true 10001

abbrev there : Sockaddr
there = record { sa_family = 2; bytes = [] }

errors_test : HasErrors sample_sockets
errors_test = record {
  domain = λ w fd e h. ground (arith, h);
  mark = λ w fd e h. ground (arith, h);
}

not_failed : (x : ℕ) → opened (pos 6) ≡ failed x → x ≢ 0
not_failed x h = ground (arith, h)

abbrev store_network : ℕ → Process → Process
store_network id process = record process { net_id_for_process = id }

switched_test :
    (set_network_for_target sample_local
      (served up sample_sockets false 10001)
      sample_libc
      0
      101
      store_network
      (initial_process, (none, state))).0
    ≡ 0
unfolding set_network_for_target on_data_available has_destination_address handle
    check_user_network_access Map.find is_system_user has_permission get_permission_for_user
    is_virtual applies_to applies_to_user UidRanges.has_uid
switched_test = refl

set_target-Selected_example :
    ((fd : ℤ) × (opened (pos 6) ≡ opened fd) × Selected up sample_sockets false 10001 101 fd state)
    × (((set_network_for_target sample_local
            (served up sample_sockets false 10001)
            sample_libc
            0
            101
            store_network
            (initial_process, (none, state))).1
          ).0
        ≡ store_network 101 initial_process)
unfolding without_flag
set_target-Selected_example =
    set_target-Selected up sample_sockets false 10001 sample_local sample_libc errors_test 0 101
      store_network initial_process (none, state) (omega arith) not_failed switched_test

-- A stream that gives a byte at a time.
abbrev first_byte : List ℕ → Chunk × List ℕ
first_byte [] = (chunk [], [])
first_byte (b ∷ bs) = (chunk (b ∷ []), bs)

abbrev sample_files : Files (List ℕ)
sample_files = record {
  is_local_mode = λ w. false;
  open_proxy = λ w. (opened (pos 3), w);
  connect_proxy = λ fd w. (0, w);
  read = λ fd n w. first_byte w;
  write = λ fd buf w. (written (length buf), w);
  shutdown = λ fd w. w;
  close = λ fd w. w;
  last_errno = λ w. 0;
}

takes_first : (n : ℕ) (w : List ℕ) → 0 < n → 0 < length w → Took sample_files (pos 3) (λ v. v) n w
takes_first n [] some_asked some_left = absurd (omega (arith, some_left))
takes_first n (b ∷ bs) some_asked some_left = record {
  byte = b;
  others = [];
  after = bs;
  reads = refl;
  split = refl;
  bounded = omega (arith, some_asked);
}

abbrev sample_stream : Streams sample_files (pos 3)
sample_stream = record { content = λ w. w; takes = takes_first }

read_data-Reads_example :
    Reads sample_files
      (pos 3)
      sample_stream
      2
      []
      (7 ∷ 8 ∷ 9 ∷ [])
      (read_data sample_files (pos 3) 2 (7 ∷ 8 ∷ 9 ∷ []))
read_data-Reads_example =
    read_data-Reads sample_files (pos 3) sample_stream 2 (7 ∷ 8 ∷ 9 ∷ []) refl (omega arith)
      (omega arith)
