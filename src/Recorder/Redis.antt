-- ===== src/Recorder/Redis.antt =====
-- What trafficRecorder/trafficRecorder/TRNet.cpp uses of Redis and of the C library. Both are
-- parameters. A command stands for the text that `sprintf` prints of it.
use https_tunnel_proxy.Base.{ℕ, List, Option}
use https_tunnel_proxy.Wire.Messages.{Timeval}

pub data Command : Type 0 where
  -- get auth:MOBILE:APP and get bal:MOBILE:APP
  get_auth get_bal : ℕ → ℕ → Command
  -- set bal:MOBILE:APP BALANCE
  set_bal : ℕ → ℕ → ℕ → Command
  -- rpush dtl:MOBILE:APP HOST,TRAFFIC,BEGIN,END
  rpush_dtl : ℕ → ℕ → List ℕ → ℕ → Timeval → Timeval → Command
  -- expire auth:MOBILE:APP SECONDS
  expire_auth : ℕ → ℕ → ℕ → Command

-- redisReply: its type, with the text or the number that goes with it. An integer is a bit pattern.
pub data Reply : Type 0 where
  nil : Reply
  text status error : List ℕ → Reply
  integer : ℕ → Reply

-- A server, as it answers one command after the other; `none` is a command that got no answer.
-- `atoll` gives the bit pattern of the number.
pub record Redis : Type 1 where
  pub Db : Type 0
  pub exec_command : Db → Command → Option Reply × Db
  pub atoll : List ℕ → ℕ
