-- ===== src/Dpi/Packet.antt =====
-- `dpi_packet_process` of ic-dpi/ic-dpi/PcapModule.cpp: whose packet it is, what it costs and which
-- FIN flag it sets. The capture library hands over the bytes of the frame and its length on the wire.
use https_tunnel_proxy.Base.{
  ℕ, ◌+◌, ◌-◌, ◌*◌, ◌/◌, ◌%◌, ◌^◌, ◌≤◌, ◌<◌, ◌≡◌, refl, ap, ◌∙◌, List, ◌∷◌, ◌++◌, Bool, arith,
  length, take, drop, ◌==◌, if◌then◌else◌, drop_past, take_past,
}
use https_tunnel_proxy.Base.Int.{sub32}
use https_tunnel_proxy.Wire.Bytes.{le, from_le, field, length-le, from_le-le}
use https_tunnel_proxy.Dpi.Predict.{telecom_traffic_predict, tcp_ack_len}
use https_tunnel_proxy.Dpi.Counter.Update.{extend, fin_type_n, fin_type_c, fin_type_s, fin_type_r}

-- The arguments of the call of `OnTrafficReport`.
pub record Charge : Type 0 where
  pub client : ℕ
  pub traffic : ℕ
  pub fin_type : ℕ

-- DPI_GET_TCP_HEAD: `ip_hl` is the low half of the first byte of the IP header.
abbrev pub tcp_head : List ℕ → List ℕ
tcp_head ip_hdr = drop (field ip_hdr 0 1 % 16 * 4) ip_hdr

-- DPI_GET_FIN and DPI_GET_RST: bits 0 and 2 of byte 13 of the TCP header.
abbrev pub get_fin : List ℕ → Bool
get_fin tcp_hdr = field tcp_hdr 13 1 % 2 == 1

abbrev pub get_rst : List ℕ → Bool
get_rst tcp_hdr = field tcp_hdr 13 1 / 4 % 2 == 1

unfoldable pub dpi_packet_process : ℕ → ℕ → List ℕ → Charge
unfolding telecom_traffic_predict
dpi_packet_process tms_addr len packet =
    let ip_hdr = drop 14 packet in
    let tcp_hdr = tcp_head ip_hdr in
    let src_addr = field ip_hdr 12 4 in
    let dst_addr = field ip_hdr 16 4 in
    let fin = get_fin tcp_hdr in
    let rst = get_rst tcp_hdr in
    let fin_type =
      if src_addr == tms_addr
      then (if fin then fin_type_s else fin_type_n)
      else if fin
      then fin_type_c
      else fin_type_n in
    record {
      client = if src_addr == tms_addr then dst_addr else src_addr;
      traffic = extend (telecom_traffic_predict (sub32 (sub32 len 14) tcp_ack_len));
      fin_type = if rst then fin_type_r else fin_type;
    }

-- A frame as it stands on the wire: a link header, an IP header of `words` 32-bit words with its
-- options, a TCP header with its flags, and what follows them.
pub record Wire : Type 0 where
  pub link : List ℕ
  pub version : ℕ
  pub words : ℕ
  pub fixed : List ℕ
  pub src : ℕ
  pub dst : ℕ
  pub options : List ℕ
  pub tcp_fixed : List ℕ
  pub flags : ℕ
  pub rest : List ℕ

pub record IsWire (w : Wire) : Type 0 where
  pub link : length w.link ≡ 14
  pub version : w.version < 16
  pub words : w.words < 16
  pub fixed : length w.fixed ≡ 11
  pub src : w.src < 256 ^ 4
  pub dst : w.dst < 256 ^ 4
  pub options : 20 + length w.options ≡ w.words * 4
  pub tcp_fixed : length w.tcp_fixed ≡ 13

abbrev pub tcp_part : Wire → List ℕ
tcp_part w = w.tcp_fixed ++ (w.flags ∷ w.rest)

abbrev pub ip_part : Wire → List ℕ
ip_part w =
    ((w.version * 16 + w.words) ∷ w.fixed)
    ++ (le 4 w.src ++ (le 4 w.dst ++ (w.options ++ tcp_part w)))

abbrev pub on_wire : Wire → List ℕ
on_wire w = w.link ++ ip_part w

abbrev first : Wire → List ℕ
first w = (w.version * 16 + w.words) ∷ w.fixed

first-length : (w : Wire) → IsWire w → length (first w) ≡ 12
first-length w h = omega (arith, h.fixed)

src_of : (w : Wire) → IsWire w → field (ip_part w) 12 4 ≡ w.src
unfolding field
src_of w h =
    ap (λ bs. from_le (take 4 bs)) (drop_past 12 0 (first w) _ (first-length w h))
    ∙ ap from_le (take_past 4 (le 4 w.src) _ (length-le 4 w.src))
    ∙ from_le-le 4 w.src h.src

dst_of : (w : Wire) → IsWire w → field (ip_part w) 16 4 ≡ w.dst
unfolding field
dst_of w h =
    ap (λ bs. from_le (take 4 bs))
      (drop_past 12 4 (first w) _ (first-length w h)
        ∙ drop_past 4 0 (le 4 w.src) _ (length-le 4 w.src))
    ∙ ap from_le (take_past 4 (le 4 w.dst) _ (length-le 4 w.dst))
    ∙ from_le-le 4 w.dst h.dst

tcp_of : (w : Wire) → IsWire w → tcp_head (ip_part w) ≡ tcp_part w
unfolding field from_le
tcp_of w h =
    let e : (w.version * 16 + w.words + 256 * 0) % 16 * 4
        ≡ 12 + (4 + (4 + (length w.options + 0))) =
      omega (arith, h.options, h.words) in
    rw e (
      drop_past 12 _ (first w) _ (first-length w h)
      ∙ drop_past 4 _ (le 4 w.src) _ (length-le 4 w.src)
      ∙ drop_past 4 _ (le 4 w.dst) _ (length-le 4 w.dst)
      ∙ drop_past (length w.options) 0 w.options (tcp_part w) refl)

flags_of : (w : Wire) → IsWire w → field (tcp_part w) 13 1 ≡ w.flags
unfolding field from_le
flags_of w h =
    ap (λ bs. from_le (take 1 bs)) (drop_past 13 0 w.tcp_fixed _ h.tcp_fixed) ∙ omega arith

-- The FIN flag that a packet sets: RST before all, else the side that sends a FIN.
abbrev pub fin_of : Bool → ℕ → ℕ
fin_of from_tms flags =
    if flags / 4 % 2 == 1
    then fin_type_r
    else if flags % 2 == 1
    then (if from_tms then fin_type_s else fin_type_c)
    else fin_type_n

-- Whatever options the headers carry, a packet is charged to the end of the connection that is not
-- the proxy server, at the estimate for its length without the 66 bytes of headers, and its flags
-- are read from the TCP header behind the options.
pub dpi_packet_process-on_wire :
    (tms_addr len : ℕ) (w : Wire)
    → IsWire w
    → dpi_packet_process tms_addr len (on_wire w) ≡ record {
      client = if w.src == tms_addr then w.dst else w.src;
      traffic = extend (telecom_traffic_predict (sub32 (sub32 len 14) tcp_ack_len));
      fin_type = fin_of (w.src == tms_addr) w.flags;
    }
unfolding dpi_packet_process
dpi_packet_process-on_wire tms_addr len w h =
    rw (drop_past 14 0 w.link (ip_part w) h.link, src_of w h, dst_of w h, tcp_of w h, flags_of w h)
      (ground arith)

-- A frame of 66 to 2^30 bytes carries the bytes above 66 as payload, and is charged a positive
-- amount below 2^31 that grows with its length.
pub dpi_packet_process_cost :
    (tms_addr len : ℕ) (packet : List ℕ)
    → 66 ≤ len
    → len ≤ 2 ^ 30
    → ((dpi_packet_process tms_addr len packet).traffic ≡ telecom_traffic_predict (len - 66))
      × (len - 14 ≤ (dpi_packet_process tms_addr len packet).traffic)
      × ((dpi_packet_process tms_addr len packet).traffic < 2 ^ 31)
unfolding dpi_packet_process telecom_traffic_predict
dpi_packet_process_cost tms_addr len packet lo hi = ground arith
