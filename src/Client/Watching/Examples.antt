-- ===== src/Client/Watching/Examples.antt =====
-- A client of three servers that starts with the second; the first one leads.
use fir_etcd.Prelude.{pos, minus_one, [], ◌∷◌}
use fir_etcd.Client.{Client}
use fir_etcd.Client.Watching.{stream_failed, begin_watching, watch_turns}
use fir_etcd.Client.Watching.Waits.{AllWaitWell, begin_watching-AllWaitWell}
use fir_etcd.Client.Watching.Leader.{all_valid, led_by}

abbrev three : Client
three = record {
  servers = 3;
  next_send_local_id = 1;
  latest_offset = pos 1;
  s_to_c = minus_one ∷ minus_one ∷ minus_one ∷ [];
}

begin_watching-AllWaitWell_example : AllWaitWell (
    watch_turns
      (begin_watching three)
      ((all_valid, led_by 0 []) ∷ (all_valid, λ i. stream_failed) ∷ []))
begin_watching-AllWaitWell_example =
    begin_watching-AllWaitWell three
      ((all_valid, led_by 0 []) ∷ (all_valid, λ i. stream_failed) ∷ [])
