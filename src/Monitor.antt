-- ===== src/Monitor.antt =====
-- MonitorClient.cpp and `ChatServer::SendMonitor`: what the chat server reports to the monitor
-- server, in packets with the LAN header.
pub mod Reports
mod Examples
use chat_server_mt.Base.{ℕ, List, [], ◌∷◌}
use chat_server_mt.Packet.{Packet, put_value, ushort, uchar, int}
use chat_server_mt.Maker.{Env, alloc}
use chat_server_mt.Chat.{Server}

-- en_PACKET_SS_MONITOR_LOGIN, en_PACKET_SS_MONITOR_DATA_UPDATE, and the number of the chat server.
abbrev pub monitor_login : ℕ
monitor_login = 20001

abbrev pub monitor_data_update : ℕ
monitor_data_update = 20002

abbrev pub chat_server_no : ℕ
chat_server_no = 3

-- What the packet holds that OnEnterServerJoin sends.
unfoldable pub on_enter_server_join : Env → Packet
on_enter_server_join env = put_value int chat_server_no (put_value ushort monitor_login (alloc env))

unfoldable pub send_monitor_data : Env → ℕ → ℕ → ℕ → Packet
send_monitor_data env data_type data_val time_stamp = put_value int time_stamp (
    put_value int data_val
      (put_value uchar data_type (put_value ushort monitor_data_update (alloc env))))

-- What SendMonitor asks of the other parts: the two performance counters, GetSessionCount and
-- GetUsePool.
pub record Readings : Type 0 where
  pub process_total : ℕ
  pub private_mbytes : ℕ
  pub session_count : ℕ
  pub use_pool : ℕ

-- The packets of SendMonitor, from dfMONITOR_DATA_TYPE_CHAT_SERVER_RUN to
-- dfMONITOR_DATA_TYPE_CHAT_PACKET_POOL.
unfoldable pub send_monitor : Env → Readings → Server → ℕ → List Packet
unfolding send_monitor_data
send_monitor env m s time_stamp =
    send_monitor_data env 30 1 time_stamp
    ∷ send_monitor_data env 31 m.process_total time_stamp
    ∷ send_monitor_data env 32 m.private_mbytes time_stamp
    ∷ send_monitor_data env 33 m.session_count time_stamp
    ∷ send_monitor_data env 34 s.login_cnt time_stamp
    ∷ send_monitor_data env 35 s.collect_msg_tps time_stamp
    ∷ send_monitor_data env 36 m.use_pool time_stamp
    ∷ []
