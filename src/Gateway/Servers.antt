-- ===== src/Gateway/Servers.antt =====
-- setLiveServers and setByzantineServers of gateway/operations.go: the calls by which the gateway
-- tells each server, before a set, whether it is live and whether it is Byzantine.
pub mod Delivery
use pbft_2pc.Prelude.{
  String, string_eq, Bool, true, false, not, List, [], ◌∷◌, ◌++◌, select, contains, assign, ◌==◌,
  if◌then◌else◌, Result, ok, err, panic, ◌>>=◌,
}
use pbft_2pc.Deps.{Bolt}
use pbft_2pc.Node.{Node}
use pbft_2pc.Node.Service.{set_status, set_byzantine}

pub data ServerCall : Type 0 where
  status : String → Bool → ServerCall
  byzantine : String → Bool → ServerCall

-- `for _, node := range nodes { client := gateway.gRPCClientMap[node]; client.… }`: a name without a
-- client reads as nil, whose method ends the process. An error of the call itself is only logged.
unfoldable pub call_all :
    List String → (String → ServerCall) → List String → Result (List ServerCall)
call_all clients make [] = ok []
call_all clients make (node ∷ nodes) =
    let rest = call_all clients make nodes >>= λ calls. ok (make node ∷ calls) in
    if contains clients node then rest else panic

-- `nodes` are the names of all the clusters, in the order in which they are visited.
unfoldable pub set_live_servers : List String → List String → List String → Result (List ServerCall)
unfolding call_all
set_live_servers clients nodes live_nodes = do
  dead ←
      call_all clients (λ n. ServerCall.status n false)
        (select (λ n. not (contains live_nodes n)) nodes)
  alive ←
      call_all clients (λ n. ServerCall.status n true) (select (λ n. contains live_nodes n) nodes)
  ok (dead ++ alive)

-- The empty name is skipped.
unfoldable pub set_byzantine_servers :
    List String → List String → List String → Result (List ServerCall)
unfolding call_all
set_byzantine_servers clients nodes byzantine_nodes = do
  good ←
      call_all clients (λ n. ServerCall.byzantine n false)
        (select (λ n. not (contains byzantine_nodes n)) nodes)
  bad ←
      call_all clients (λ n. ServerCall.byzantine n true)
        (select (λ n. not (n == "")) byzantine_nodes)
  ok (good ++ bad)

module _ ⦃bolt : Bolt⦄ where
  -- What a call does to the servers that it reaches.
  unfoldable pub deliver : ServerCall → (String → Node) → String → Node
  unfolding set_status set_byzantine
  deliver (ServerCall.status node b) servers = assign node (set_status b (servers node)).1 servers
  deliver (ServerCall.byzantine node b) servers =
      assign node (set_byzantine b (servers node)).1 servers

  unfoldable pub deliver_all : List ServerCall → (String → Node) → String → Node
  unfolding deliver
  deliver_all [] servers = servers
  deliver_all (call ∷ calls) servers = deliver_all calls (deliver call servers)
