-- ===== src/Dpi/Predict.antt =====
-- The estimate of the traffic that a packet costs: tms/tms/TMSDataTypes.h, used by
-- ic-dpi/ic-dpi/PcapModule.cpp.
use https_tunnel_proxy.Base.{ℕ, ◌+◌, ◌-◌, ◌*◌, ◌/◌, ◌^◌, ◌≤◌, ◌<◌, ◌≡◌, arith, if◌then◌else◌}
use https_tunnel_proxy.Base.Int.{add32, signed32, ltb_ℤ, pos}

-- The header of a packet and of the acknowledgement that answers it.
abbrev pub tcp_ack_len : ℕ
tcp_ack_len = 32 + 20

-- `tcplen` is an `int`, given by its bit pattern; for `tcplen <= 0` only the acknowledgement counts.
unfoldable pub telecom_traffic_predict : ℕ → ℕ
telecom_traffic_predict tcplen =
    if ltb_ℤ (pos 0) (signed32 tcplen)
    then add32 (add32 tcplen tcp_ack_len) ((tcplen - 1) / 1388 * tcp_ack_len)
    else add32 tcplen tcp_ack_len

-- A payload of 1 to 2^30 bytes costs itself and 52 bytes for each segment of at most 1388 bytes that
-- it takes, the last one begun included.
pub telecom_traffic_predict_segments :
    (n segments : ℕ)
    → 0 < n
    → n ≤ 2 ^ 30
    → (segments - 1) * 1388 < n
    → n ≤ segments * 1388
    → telecom_traffic_predict n ≡ n + 52 * segments
unfolding telecom_traffic_predict
telecom_traffic_predict_segments n segments lo hi p q =
    ground (arith, segment_count n segments lo p q)
  where
    segment_count :
        (n segments : ℕ)
        → 0 < n
        → (segments - 1) * 1388 < n
        → n ≤ segments * 1388
        → (n - 1) / 1388 + 1 ≡ segments
    segment_count n segments lo p q = omega arith
