-- ===== src/Net/Upstream.antt =====
-- common/src/net/tcp_client.cpp: UpstreamClientPool. One call at a time; the calls of the chosen
-- client are given as in TcpClient.
pub mod Turns
use project_moon.Base.{
  ℕ, zero, suc, ◌+◌, ◌%◌, ◌^◌, Bool, Option, none, some, List, [], ◌∷◌, Bytes, length, get_elem?,
  set, replicate, ℤ, pos, negsuc, if◌then◌else◌, ◌==◌, nat_eq,
}
use project_moon.Base.Text.{codes}
use project_moon.Base.Calls.{Result, failed}
use project_moon.Net.Packet.{Packet}
use project_moon.Net.TcpClient.{Calls, PersistentTcpClient, Exchange, send_and_receive}

pub record UpstreamClientPool : Type 0 where
  pub clients : List PersistentTcpClient
  pub next_index : ℕ

-- `pool_size > 0 ? pool_size : 1`
unfoldable pub size_of : ℤ → ℕ
size_of (pos zero) = 1
size_of (pos (suc n)) = suc n
size_of (negsuc n) = 1

-- The constructor
unfoldable pub make_pool : Bytes → ℤ → ℤ → UpstreamClientPool
unfolding size_of
make_pool host port pool_size = record {
  clients = replicate (size_of pool_size) (record { host = host; port = port; socket_fd = none });
  next_index = 0;
}

-- The index that a call takes: `next_index_.fetch_add(1) % clients_.size()` on a size_t.
unfoldable pub index_of : UpstreamClientPool → ℕ
index_of pool = pool.next_index % length pool.clients

-- The call on the chosen client. An index out of range would be undefined; that is `none` here.
send_chosen :
    Packet
    → Calls
    → UpstreamClientPool
    → Option PersistentTcpClient
    → UpstreamClientPool × Option (Result Packet)
unfolding index_of
send_chosen request calls pool none =
    (record pool { next_index = (pool.next_index + 1) % 2 ^ 64 }, none)
send_chosen request calls pool (some client) =
    let x = send_and_receive request calls client in
    (
      record {
        clients = set pool.clients (index_of pool) x.client;
        next_index = (pool.next_index + 1) % 2 ^ 64;
      },
      x.result,
    )

unfoldable pub send_on_pool :
    Packet → Calls → UpstreamClientPool → UpstreamClientPool × Option (Result Packet)
unfolding send_chosen index_of
send_on_pool request calls pool =
    if length pool.clients == 0
    then (pool, some (failed (codes "no upstream clients configured")))
    else send_chosen request calls pool (get_elem? pool.clients (index_of pool))
