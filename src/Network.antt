-- ===== src/Network.antt =====
-- src/network.rs: a node of one network. Libp2p is outside: what its calls return enters as arguments.
pub mod Bootstrap
pub mod Loop
pub mod Channel
use kinetic_atlas.Base.{ℕ, Option, List}
use kinetic_atlas.Text.{Str, Bytes}
use kinetic_atlas.Types.{ProxyRequest}

-- A command to the task of a node. A responder is named by a number; its receiver waits for it.
pub data NetworkCommand : Type 0 where
  get_record : (domain : Str) (resp : ℕ) → NetworkCommand
  lookup_peer : (peer_id_str : Str) (resp : ℕ) → NetworkCommand
  send_proxy_request : (peer_id : ℕ) (request : ProxyRequest) (resp : ℕ) → NetworkCommand
