-- ===== src/Monitor/Examples.antt =====
-- The reports of a server with two users.
use chat_server_mt.Base.{◌≡◌, [], ◌∷◌, map}
use chat_server_mt.Maker.Examples.{server_env, server_env-IsReady}
use chat_server_mt.Chat.Examples.{town}
use chat_server_mt.Monitor.{Readings, send_monitor}
use chat_server_mt.Monitor.Reports.{wire_lan, report, send_monitor_lem}

abbrev readings : Readings
readings = record { process_total = 12; private_mbytes = 300; session_count = 3; use_pool = 40 }

send_monitor_lem_example :
    map wire_lan (send_monitor server_env readings town 1700000000)
    ≡ report 30 1 1700000000
      ∷ report 31 12 1700000000
      ∷ report 32 300 1700000000
      ∷ report 33 3 1700000000
      ∷ report 34 2 1700000000
      ∷ report 35 0 1700000000
      ∷ report 36 40 1700000000
      ∷ []
send_monitor_lem_example = send_monitor_lem server_env-IsReady readings town 1700000000
