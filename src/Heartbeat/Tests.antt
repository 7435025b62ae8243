-- ===== src/Heartbeat/Tests.antt =====
-- Runs of the heartbeat manager and its agents on small inputs. An address is spelled by its first
-- character, and a request's body by the number that it carries.
use terry.Base.{ℕ, ◌≡◌, ◌↔◌, refl, ◌∷◌, true, none, some, List, [], arith, ◌==◌, ◌>>=◌, Returns}
use terry.Base.Int.{pos, ◌-ℤ◌}
use terry.Base.Maps
use terry.Base.Maps.{update}
use terry.Ruler.{mu_ruler, MigrationInfo}
use terry.Heartbeat.{
  address, malformed, Env, HeartbeatAgent, unknown_heartbeat, HbManager, new, add_heartbeat_agent,
  clear_ip, clear_node_info, string_to_int_ip, is_expired, remove_agent, sweep,
  check_heartbeat_timeout, both_found, has_bucket, ip_is_valid_for_migration, heartbeat_closed,
  set_limit, set_buckets, init_node_heartbeat_info, update_last_bucket_load,
}
use terry.Heartbeat.Agent.{
  InReq, init, recycler, update_time_stamp, begin, do_heartbeat_handshake, do_heartbeat,
  load_heartbeat, bucket_vec, read_back, msg_mu_cs_heartbeat_handshake, msg_mu_cs_heartbeat,
}
use terry.Heartbeat.Migration.{CanMove, ip_is_valid_for_migration_lem}
use terry.Heartbeat.Consistent.{IsConsistent}
use terry.Heartbeat.Sweep.{NamesGone}
use terry.Heartbeat.Check.{Checked, check_heartbeat_timeout_lem}
use terry.Heartbeat.Writes.{mu_node}
use terry.Heartbeat.Loads.{Recorded, read_back-Recorded}
use terry.Heartbeat.Events.{
  opened, closed, handle, Reach, start, step, Reach-IsConsistent, Reach-safe,
}

program : Unit {0}
unfolding Maps.find Maps.insert Maps.assign Maps.erase Maps.at ◌-ℤ◌ new add_heartbeat_agent clear_ip
    clear_node_info string_to_int_ip is_expired remove_agent sweep check_heartbeat_timeout
    both_found has_bucket ip_is_valid_for_migration heartbeat_closed set_limit set_buckets
    init_node_heartbeat_info update_last_bucket_load init recycler update_time_stamp begin
    do_heartbeat_handshake do_heartbeat load_heartbeat bucket_vec read_back handle
program = tt

abbrev first_of {ℓ} : {A : Type ℓ} → A → (ℕ → A) → List ℕ → A
first_of missing f [] = missing
first_of missing f (c ∷ s) = f c

-- The world at a time.
abbrev at_time : ℕ → Env
at_time t = record {
  now = some t;
  inet_pton = first_of malformed address;
  mu_handshake = first_of none some;
  su_handshake = first_of none some;
  mu_heartbeats = first_of none (λ c. some ((c, 40) ∷ []));
  su_heartbeats = first_of none (λ c. some ((c, 40) ∷ []));
}

-- Two agents, of the addresses 7 and 9, that were heard at the times 10 and 90.
abbrev fleet : HbManager
fleet = init (at_time 90) 2 (9 ∷ []) (init (at_time 10) 1 (7 ∷ []) new)

fleet-Reach : Reach fleet
unfolding program
fleet-Reach =
    step (at_time 90) (opened 2 (9 ∷ [])) (step (at_time 10) (opened 1 (7 ∷ [])) start refl refl)
      refl refl

abbrev agent_7 : HeartbeatAgent
unfolding program
agent_7 = record { oppo_ip = 7 ∷ []; m_time_stamp = pos 10; m_type = unknown_heartbeat }

Reach-safe_example :
    IsConsistent fleet × Returns IsConsistent (handle (at_time 100) (closed 1) fleet)
unfolding program
Reach-safe_example = Reach-safe (at_time 100) (closed 1) fleet-Reach refl

-- Bucket 3 is on node 7, and not on node 9.
abbrev two_nodes : HbManager
two_nodes = record new {
  m_mu_last_load =
      (
        7,
        record {
          storage_limit = 100;
          bucket_list = record { bucket_nr = 3; bucket_load = 5 } ∷ [];
        },
      )
      ∷ (9, record { storage_limit = 100; bucket_list = [] })
      ∷ [];
}

abbrev move_3 : MigrationInfo
move_3 = record { bucket_nr = 3; src_ip = 7; dest_ip = 9 }

can_move_3 : (ip_is_valid_for_migration mu_ruler move_3 two_nodes).1 ≡ true
unfolding program
can_move_3 = refl

ip_is_valid_for_migration_lem_example :
    ((ip_is_valid_for_migration mu_ruler move_3 two_nodes).0 ≡ two_nodes)
    × (((ip_is_valid_for_migration mu_ruler move_3 two_nodes).1 ≡ true)
        ↔ CanMove move_3 two_nodes.m_mu_last_load)
ip_is_valid_for_migration_lem_example = ip_is_valid_for_migration_lem mu_ruler move_3 two_nodes

fleet-NamesGone :
    NamesGone (at_time 100) 100 (pos 50) (λ ip. ip == 7) fleet.agents fleet.m_heartbeat_agent_list
unfolding program
fleet-NamesGone a agent on here old ip named = ground arith

check_heartbeat_timeout_lem_example :
    Returns
      (Checked 100 (pos 50) (λ ip. ip == 7) fleet)
      (check_heartbeat_timeout (at_time 100) (pos 50) fleet)
check_heartbeat_timeout_lem_example =
    check_heartbeat_timeout_lem (at_time 100) (pos 50) (λ ip. ip == 7) fleet 100 refl
      (Reach-IsConsistent fleet-Reach) fleet-NamesGone

abbrev shake_req : InReq
shake_req = record { cmd = msg_mu_cs_heartbeat_handshake; length_of_body = 1; io_buf = 100 ∷ [] }

abbrev beat_req : InReq
beat_req = record { cmd = msg_mu_cs_heartbeat; length_of_body = 1; io_buf = 3 ∷ [] }

read_back-Recorded_example :
    Returns
      (Recorded mu_node 7 100 ((3, 40) ∷ []) fleet)
      (read_back (at_time 95) shake_req 1 fleet >>= read_back (at_time 96) beat_req 1)
unfolding program
read_back-Recorded_example =
    read_back-Recorded (at_time 95) (at_time 96) 1 7 fleet agent_7 mu_node shake_req beat_req 100
      ((3, 40) ∷ []) refl refl refl refl (ground arith) refl refl (ground arith) refl
