-- ===== src/Factory/Examples.antt =====
-- A composite receiver that internal/prefix/factory.go cannot finish, for want of an interface.
use dynamic_prefix_operator.Prelude.{Option, none, some, [], ◌∷◌, String}
use dynamic_prefix_operator.Net.{Addr}
use dynamic_prefix_operator.Factory.{AcquisitionSpec, create_receiver}
use dynamic_prefix_operator.Factory.Claims.{Accounted, create_receiver-Accounted}

abbrev no_addresses : String → Option Addr
no_addresses s = none

abbrev unfinished : AcquisitionSpec
unfinished = record {
  dhcpv6_pd = some (record { interface = "wan0"; requested_prefix_length = none });
  router_advertisement = some (record { interface = ""; enabled = none; trusted_routers = [] });
  prefix_filter = none;
}

create_receiver-Accounted_example :
    Accounted ("lan0" ∷ []) (create_receiver no_addresses unfinished ("lan0" ∷ []))
create_receiver-Accounted_example = create_receiver-Accounted no_addresses unfinished ("lan0" ∷ [])
