-- ===== src/Dpi/Handler.antt =====
-- `Connect::HandleRecvMsg` of ic-dpi/ic-dpi/ConnectMgr.cpp: which calls of `LvldbMgr` the messages
-- of the proxy server and of the recorder cause.
use https_tunnel_proxy.Base.{
  ℕ, ◌≡◌, refl, ap, ◌∙◌, List, [], ◌∷◌, ◌++◌, ◌≢◌, arith, length, map, flatten, All, ltb, ◌==◌,
  if◌then◌else◌, append-nil, append_assoc,
}
use https_tunnel_proxy.Wire.Bytes.{frame, field, le, from_le}
use https_tunnel_proxy.Wire.MessageEnum
use https_tunnel_proxy.Wire.Messages.{
  SynUserTuple, encode_syn_user_tuple, decode_syn_user_tuple, decode_traffic_report_rsp, msg_id,
}
use https_tunnel_proxy.Wire.RoundTrip.{SynUserTupleFits, decode-encode_syn_user_tuple}
use https_tunnel_proxy.Dpi.Stream.{buff_size}
use https_tunnel_proxy.Dpi.Stream.Chunks.{alive, receive}
use https_tunnel_proxy.Dpi.Stream.Deliver.{idle, IsMessage, Delivers, acted, receive-frames}

pub data Call : Type 0 where
  on_user_login : SynUserTuple → Call
  on_traffic_report_reply : ℕ → Call

-- The calls so far, the buffer and the length of the message in it.
unfoldable pub handle_recv_msg : List Call → List ℕ → ℕ → List Call
handle_recv_msg calls msg msglen =
    if ltb msglen 4
    then calls
    else if msg_id msg == MessageEnum.syn_user_tuple
    then calls ++ on_user_login (decode_syn_user_tuple msg) ∷ []
    else if msg_id msg == MessageEnum.traffic_report_rsp
    then calls ++ on_traffic_report_reply (decode_traffic_report_rsp msg).ip ∷ []
    else calls

-- The message of a login.
abbrev pub IsLogin : List ℕ → Type 0
IsLogin m = (u : SynUserTuple) × SynUserTupleFits u × (m ≡ encode_syn_user_tuple u)

length-encode_syn_user_tuple : (u : SynUserTuple) → length (encode_syn_user_tuple u) ≡ 24
unfolding encode_syn_user_tuple le
length-encode_syn_user_tuple u = refl

decode-behind :
    (u : SynUserTuple) (behind : List ℕ)
    → decode_syn_user_tuple (encode_syn_user_tuple u ++ behind)
      ≡ decode_syn_user_tuple (encode_syn_user_tuple u)
unfolding encode_syn_user_tuple decode_syn_user_tuple field le
decode-behind u behind = refl

msg_id-behind :
    (u : SynUserTuple) (behind : List ℕ) → msg_id (encode_syn_user_tuple u ++ behind) ≡ 12
unfolding encode_syn_user_tuple msg_id field le from_le
msg_id-behind u behind = refl

handle-login :
    (calls : List Call) (u : SynUserTuple) (behind : List ℕ)
    → SynUserTupleFits u
    → handle_recv_msg calls (encode_syn_user_tuple u ++ behind) (length (encode_syn_user_tuple u))
      ≡ calls ++ on_user_login u ∷ []
unfolding handle_recv_msg
handle-login calls u behind f = rw (
  length-encode_syn_user_tuple u,
  msg_id-behind u behind,
  decode-behind u behind,
  decode-encode_syn_user_tuple u f,
)

abbrev act_login : List Call → List ℕ → List Call
act_login calls m = calls ++ on_user_login (decode_syn_user_tuple m) ∷ []

acts_login :
    (calls : List Call) (m behind : List ℕ)
    → IsLogin m
    → handle_recv_msg calls (m ++ behind) (length m) ≡ act_login calls m
acts_login calls m behind (u, f, e) =
    rw (e, decode-encode_syn_user_tuple u f) (handle-login calls u behind f)

logins_acted :
    (calls : List Call) (us : List SynUserTuple)
    → All SynUserTupleFits us
    → acted act_login calls (map encode_syn_user_tuple us) ≡ calls ++ map on_user_login us
logins_acted calls [] f = rw append-nil
logins_acted calls (u ∷ us) f =
    ap (λ v. acted act_login (calls ++ on_user_login v ∷ []) (map encode_syn_user_tuple us))
      (decode-encode_syn_user_tuple u f.0)
    ∙ logins_acted (calls ++ on_user_login u ∷ []) us f.1
    ∙ append_assoc calls (on_user_login u ∷ []) (map on_user_login us)

are_messages :
    (us : List SynUserTuple)
    → All SynUserTupleFits us
    → All (λ m. IsMessage m × IsLogin m) (map encode_syn_user_tuple us)
are_messages [] f = tt
are_messages (u ∷ us) f = (
  (
    (omega (arith, length-encode_syn_user_tuple u), omega (arith, length-encode_syn_user_tuple u)),
    (u, f.0, refl),
  ),
  are_messages us f.1,
)

-- The logins that the proxy server announces are registered one by one, in order, with the user, the
-- application and the address that were sent, however the network cuts the stream.
pub receive-logins :
    (k : ℕ) (buf : List ℕ) (us : List SynUserTuple) (xs : List ℕ) (xss : List (List ℕ))
    → length buf ≡ buff_size
    → All SynUserTupleFits us
    → All (λ ys. ys ≢ []) (xs ∷ xss)
    → flatten (xs ∷ xss) ≡ flatten (map frame (map encode_syn_user_tuple us))
    → Delivers handle_recv_msg
        (map on_user_login us)
        (receive handle_recv_msg (alive (idle k buf) []) (xs ∷ xss))
receive-logins k buf us xs xss h f n e = rw (← logins_acted [] us f) (
    receive-frames handle_recv_msg act_login IsLogin acts_login k buf []
      (map encode_syn_user_tuple us) xs xss h (are_messages us f) n e)
