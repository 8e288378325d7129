-- ===== src/Tests/Network.antt =====
-- src/network.rs: a node that is set up, and turns of its loop.
use kinetic_atlas.Base.{
  ℕ, ◌+◌, ◌≡◌, ◌≢◌, ◌⊎◌, ◌↔◌, ◌≤◌, inl, inr, refl, Bool, true, false, Option, none, some, List, [],
  ◌∷◌, ◌++◌, arith, All, In, length, Result, ok, err, ◌==◌, if◌then◌else◌,
}
use kinetic_atlas.Text.{Str, Str_eq, str}
use kinetic_atlas.Types.{ProxyRequest, ProxyResponse}
use kinetic_atlas.Network.{get_record, lookup_peer, send_proxy_request}
use kinetic_atlas.Network.Bootstrap.{Libp2p, Node, new}
use kinetic_atlas.Network.Bootstrap.Dialling.{IsUsable, new-contacts}
use kinetic_atlas.Network.Loop.{
  Turn, command, event, Issued, no_tables, found_record, other_result, query_progressed, run_from,
}
use kinetic_atlas.Network.Loop.Responses.{received_response, ending, send_proxy_request-received}
use kinetic_atlas.Network.Loop.Replies.{received, get_record-received}
use kinetic_atlas.Network.Loop.Accounts.{IsTidy}
use kinetic_atlas.Proxy.Outside.{answered}

abbrev parse : Str → Option ℕ
parse node = if node == str "bad" then none else some (length node)

-- Addresses are numbers, each of the peer with the same number; no dial succeeds.
abbrev lib : Libp2p ℕ ℕ
lib = record {
  parse = parse;
  last_peer = λ ma. some ma;
  dial = λ n ma. false;
  protocol = λ text. ok text;
  transport = ok tt;
  dns = ok tt;
  behaviour = ok tt;
}

abbrev nodes : List Str
nodes = str "x" ∷ str "bad" ∷ str "yy" ∷ []

abbrev node : Node lib
node = record {
  network_id = str "kinetic";
  kad_protocol = str "/kinetic/kad/2.0.0";
  proxy_protocol = str "/kinetic/proxy/1.0.0";
  contacts = record { table = (2, 2) ∷ (1, 1) ∷ []; dialed = 2 ∷ 1 ∷ []; dials = 0 };
}

new-contacts_example :
    (node.contacts.dials ≤ 8)
    × ((peer : ℕ) (ma : ℕ)
        → In (peer, ma) node.contacts.table ↔ ((n : Str) × In n nodes × IsUsable lib n peer ma))
unfolding new kinetic_atlas.Base.list_eq
new-contacts_example = new-contacts lib (str "kinetic") nodes node refl

abbrev returned : Issued
returned = record { query_id = 3; request_id = 4; parsed_peer = some 5; dial_ok = true }

abbrev turns : List Turn
turns =
    command (some (get_record (str "acme.kin") 10)) returned
    ∷ command (some (lookup_peer (str "p") 11)) returned
    ∷ command (some (lookup_peer (str "p") 12)) returned
    ∷ event (query_progressed 3 other_result)
    ∷ []

abbrev between : List Turn
between =
    command (some (lookup_peer (str "p") 11)) returned
    ∷ event (query_progressed 9 other_result)
    ∷ []

no_tables-IsTidy : IsTidy no_tables
no_tables-IsTidy = record { queries = tt; dials = tt; requests = tt }

get_record-received_example :
    received 10
      (run_from no_tables (
        command (some (get_record (str "acme.kin") 10)) returned
        ∷ (between ++ event (query_progressed 3 (found_record (str "v"))) ∷ []))).1
    ≡ some (answered (some (str "v")))
get_record-received_example =
    get_record-received (str "acme.kin") 10 returned no_tables between (found_record (str "v"))
      no_tables-IsTidy refl refl (ground arith)

abbrev reply : ProxyResponse
reply = record { status = 200; headers = []; body = [] }

abbrev asked : ProxyRequest
asked = record { method = str "GET"; path = str "/"; headers = []; body = [] }

send_proxy_request-received_example :
    received_response 10
      (run_from no_tables (
        command (some (send_proxy_request 7 asked 10)) returned
        ∷ (between ++ event (ending 4 (some reply)) ∷ []))).1
    ≡ some (answered (some reply))
send_proxy_request-received_example =
    send_proxy_request-received 7 asked 10 returned no_tables between (some reply) no_tables-IsTidy
      refl refl (ground arith)
