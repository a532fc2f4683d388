-- ===== src/Tests/Tables.antt =====
-- The tables of interfaces with a kernel that knows every name by the index 7 and cannot flush
-- local tables.
use system_netd.Prelude.{ℕ, ◌+◌, ◌≡◌, refl, true, [], ◌∷◌, ltb, if◌then◌else◌}
use system_netd.Prelude.Keys.{Name, name_key, names_equal}
use system_netd.Prelude.Steps.{Step}
use system_netd.Containers.Map.{Map}
use system_netd.Errno.{enodev}
use system_netd.RouteTables.{Kernel, get_route_table_for_interface, get_if_index, flush_routes}
use system_netd.RouteTables.Kept.{LooksUp, lookup-LooksUp}
use system_netd.Tests.Samples.{wlan, tun}

abbrev pub flushes : ℕ → Step ℕ
flushes table w = ((if ltb table 1000000000 then 0 else enodev), w + 1)

abbrev pub sample_kernel : Kernel ℕ
sample_kernel = record { if_name_to_index = λ w name. 7; flush_table = flushes }

abbrev wlan_table : Map Name ℕ
wlan_table = (wlan, 1007) ∷ []

lookup-LooksUp_example :
    LooksUp sample_kernel tun true 7
      (wlan_table, 0)
      (get_route_table_for_interface sample_kernel tun true (wlan_table, 0))
lookup-LooksUp_example = lookup-LooksUp sample_kernel tun true (wlan_table, 0)

-- The local flush fails, the call returns its errno, and the name is forgotten.
half_flushed_test : flush_routes sample_kernel wlan (wlan_table, 0) ≡ (19, ([], 2))
unfolding flush_routes names_equal
half_flushed_test = refl

index_test : get_if_index wlan wlan_table ≡ 7
unfolding get_if_index names_equal
index_test = refl
