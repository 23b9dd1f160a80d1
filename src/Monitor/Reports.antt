-- ===== src/Monitor/Reports.antt =====
-- The bytes of a report on the wire.
use chat_server_mt.Base.{
  ℕ, suc, ◌-◌, ◌+◌, ◌/◌, ◌≤◌, ◌≡◌, ◌∙◌, ap, ap₂, List, [], ◌∷◌, ◌++◌, map, arith, length, take,
  slice, blit, blit-nil, u8,
}
use chat_server_mt.Packet.{
  Packet, le_bytes, size_of, ushort, uchar, int, set_len_lan, get_data_size_lan, lan_header_size,
  net_header_size,
}
use chat_server_mt.Packet.Inv.{payload, length-payload}
use chat_server_mt.Maker.{Env}
use chat_server_mt.Maker.Layouts.{IsReady, Holds, alloc-Holds, put_value-Holds}
use chat_server_mt.Chat.{Server}
use chat_server_mt.Monitor.{monitor_data_update, send_monitor_data, Readings, send_monitor}

-- The bytes that a send with the LAN header puts on the wire.
unfoldable pub wire_lan : Packet → List ℕ
wire_lan p =
    slice (set_len_lan p).hidden_buf (net_header_size - lan_header_size) (get_data_size_lan p)

wire_lan_mem :
    (mem : List ℕ) (n : ℕ)
    → net_header_size ≤ length mem
    → slice (blit mem 3 (u8 n ∷ u8 (n / 256) ∷ [])) 3 (n + 2)
      ≡ le_bytes 2 n ++ slice mem net_header_size n
wire_lan_mem (a ∷ b ∷ c ∷ d ∷ e ∷ rest) n h =
    ap (λ k. take k (u8 n ∷ u8 (n / 256) ∷ blit rest 0 [])) {y = suc (suc n)} (omega arith)
    ∙ ap (λ t. u8 n ∷ u8 (n / 256) ∷ take n t) (blit-nil rest)
wire_lan_mem _ n h = absurd (omega arith)

wire_lan-Holds :
    {env : Env} {p : Packet} {q : List ℕ} → Holds env p q → wire_lan p ≡ le_bytes 2 (length q) ++ q
unfolding wire_lan set_len_lan get_data_size_lan
wire_lan-Holds {p = p} {q = q} h =
    wire_lan_mem p.hidden_buf p.data_size (omega (arith, h.valid.storage))
    ∙ ap₂ (λ n t. le_bytes 2 n ++ t) size (at ∙ h.holds)
  where
    size : p.data_size ≡ length q
    size = omega (arith, length-payload h.valid, ap length h.holds)

    at : slice p.hidden_buf net_header_size p.data_size ≡ payload p
    at =
        ap (λ k. slice p.hidden_buf k p.data_size) {x = net_header_size}
          {y = net_header_size + p.read_pos} (omega (arith, h.start))

-- A report as the monitor server expects it: the length, the type, the kind of value, the value,
-- and the time.
abbrev pub report : ℕ → ℕ → ℕ → List ℕ
report data_type data_val time_stamp =
    le_bytes 2 11
    ++ (le_bytes 2 monitor_data_update
        ++ le_bytes 1 data_type
        ++ le_bytes 4 data_val
        ++ le_bytes 4 time_stamp)

module _ {env : Env} (h : IsReady env) where
  -- With a valid pooled packet of at least 512 bytes, SendMonitorData goes out as a LAN frame of
  -- length 11 with its type, the kind of value, the value and the time stamp.
  pub send_monitor_data_lem :
      (data_type data_val time_stamp : ℕ)
      → wire_lan (send_monitor_data env data_type data_val time_stamp)
        ≡ report data_type data_val time_stamp
  unfolding send_monitor_data size_of
  send_monitor_data_lem data_type data_val time_stamp = wire_lan-Holds (
      put_value-Holds h int time_stamp (omega arith) (
        put_value-Holds h int data_val (omega arith) (
          put_value-Holds h uchar data_type (omega arith)
            (put_value-Holds h ushort monitor_data_update (omega arith) (alloc-Holds h)))))

  -- With a valid pooled packet of at least 512 bytes, SendMonitor sends seven reports with the LAN
  -- header, in the order of the kinds 30 to 36: the constant 1, the two performance counters, the
  -- sessions, the logins, the messages of the last second and the packets in use, each with the
  -- time stamp.
  pub send_monitor_lem :
      (m : Readings) (s : Server) (time_stamp : ℕ)
      → map wire_lan (send_monitor env m s time_stamp)
        ≡ report 30 1 time_stamp
          ∷ report 31 m.process_total time_stamp
          ∷ report 32 m.private_mbytes time_stamp
          ∷ report 33 m.session_count time_stamp
          ∷ report 34 s.login_cnt time_stamp
          ∷ report 35 s.collect_msg_tps time_stamp
          ∷ report 36 m.use_pool time_stamp
          ∷ []
  unfolding send_monitor
  send_monitor_lem m s time_stamp =
      let r = λ (t v : ℕ). send_monitor_data_lem t v time_stamp in
      ap₂ ◌∷◌ (r 30 1) (
        ap₂ ◌∷◌ (r 31 m.process_total) (
          ap₂ ◌∷◌ (r 32 m.private_mbytes) (
            ap₂ ◌∷◌ (r 33 m.session_count) (
              ap₂ ◌∷◌ (r 34 s.login_cnt)
                (ap₂ ◌∷◌ (r 35 s.collect_msg_tps) (ap (λ x. x ∷ []) (r 36 m.use_pool)))))))
