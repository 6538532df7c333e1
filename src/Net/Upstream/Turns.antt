-- ===== src/Net/Upstream/Turns.antt =====
-- Every call finds a client, and every client has its turn.
use project_moon.Base.{
  ℕ, zero, suc, ◌+◌, ◌-◌, ◌%◌, ◌^◌, ◌<◌, ◌≡◌, refl, sym, ap, subst, ◌∙◌, false, Bool-cases, inl,
  inr, leb, ◌==◌, nat_eq, some, List, [], ◌∷◌, Bytes, length, take, get_elem?, set, length-set,
  length-take, get_elem?-some, ℤ, pos, negsuc, arith, if◌then◌else◌,
}
use native.Mathlib.Nat.{mod-add-mod, mod-eq_of_lt}
use project_moon.Base.Text.{codes}
use project_moon.Base.Calls.{failed}
use project_moon.Net.Packet.{Packet}
use project_moon.Net.TcpClient.{Calls, PersistentTcpClient, send_and_receive}
use project_moon.Net.Upstream.{UpstreamClientPool, make_pool, index_of, send_on_pool, send_chosen}

-- Some client
pub record IsFilled (pool : UpstreamClientPool) : Type 0 where
  pub filled : 0 < length pool.clients

pub make_pool-IsFilled : (host : Bytes) (port size : ℤ) → IsFilled (make_pool host port size)
unfolding make_pool
make_pool-IsFilled host port (pos zero) = record { filled = omega arith }
make_pool-IsFilled host port (pos (suc n)) = record { filled = omega arith }
make_pool-IsFilled host port (negsuc n) = record { filled = omega arith }

mod-lt : (k n : ℕ) → 0 < n → k % n < n
mod-lt k n h = grind arith

not_empty : (n : ℕ) → 0 < n → (n == 0) ≡ false
not_empty n h = ground arith

-- On a pool that has clients every call goes to the client at its index, which is one of them, and
-- answers with what that client answers; that client alone is changed, and the count of calls goes
-- on by one, from its largest value back to 0.
pub send_on_pool_one :
    (request : Packet) (calls : Calls) (pool : UpstreamClientPool)
    → IsFilled pool
    → (index_of pool < length pool.clients)
      × (client : PersistentTcpClient) × (get_elem? pool.clients (index_of pool) ≡ some client)
      × (send_on_pool request calls pool ≡ (
        record {
          clients = set pool.clients (index_of pool) (send_and_receive request calls client).client;
          next_index = (pool.next_index + 1) % 2 ^ 64;
        },
        (send_and_receive request calls client).result,
      ))
unfolding send_on_pool
send_on_pool_one request calls pool h =
    let inside : index_of pool < length pool.clients =
      mod-lt pool.next_index (length pool.clients) h.filled in
    let (client, found) = get_elem?-some pool.clients (index_of pool) inside in
    (
      inside,
      client,
      found,
      ap
            (λ b.
              if b
              then (pool, some (failed (codes "no upstream clients configured")))
              else send_chosen request calls pool (get_elem? pool.clients (index_of pool)))
            (not_empty (length pool.clients) h.filled)
          ∙ ap (send_chosen request calls pool) found,
    )

around : (k n i : ℕ) → leb (k % n) i ≡ false → k % n < n → k % n + (i + n - k % n) ≡ i + n
around k n i behind r = ground (arith, behind, r)

wrapped : (i n : ℕ) → i < n → (i + n) % n ≡ i
wrapped i n h = grind arith

turn : (k n i : ℕ) → i < n → (j : ℕ) × (j < n) × ((k + j) % n ≡ i)
turn k n i h =
    let r = mod-lt k n (omega (arith, h)) in
    elim (Bool-cases (leb (k % n) i)) [
      | inl before ↦ (
        i - k % n,
        ground (arith, before),
        sym (mod-add-mod k n (i - k % n))
            ∙ ap (λ (x : ℕ). x % n) (ground (arith, before))
            ∙ mod-eq_of_lt h,
      )
      | inr behind ↦ (
        i + n - k % n,
        ground (arith, behind, r),
        sym (mod-add-mod k n (i + n - k % n))
            ∙ ap (λ (x : ℕ). x % n) (around k n i behind r)
            ∙ wrapped i n h,
      )
    ]

-- A sequence of calls on the pool
unfoldable pub run_calls : List (Packet × Calls) → UpstreamClientPool → UpstreamClientPool
run_calls [] pool = pool
run_calls ((request, calls) ∷ requests) pool =
    run_calls requests (send_on_pool request calls pool).0

-- The number of clients does not change, and the count goes on by the number of calls.
record Counted (pool after : UpstreamClientPool) (n : ℕ) : Type 0 where
  size : length after.clients ≡ length pool.clients
  count : after.next_index ≡ pool.next_index + n

one_call :
    (request : Packet) (calls : Calls) (pool : UpstreamClientPool)
    → IsFilled pool
    → pool.next_index + 1 < 2 ^ 64
    → Counted pool (send_on_pool request calls pool).0 1
one_call request calls pool h small =
    let (inside, client, found, e) = send_on_pool_one request calls pool h in
    record {
      size =
          ap (λ r. length r.0.clients) e
          ∙ length-set pool.clients (index_of pool) (send_and_receive request calls client).client;
      count = ap (λ r. r.0.next_index) e ∙ mod-eq_of_lt small;
    }

run_calls-Counted :
    (requests : List (Packet × Calls)) (pool : UpstreamClientPool)
    → IsFilled pool
    → pool.next_index + length requests < 2 ^ 64
    → Counted pool (run_calls requests pool) (length requests)
unfolding run_calls
run_calls-Counted [] pool h small = record { size = refl; count = omega arith }
run_calls-Counted ((request, calls) ∷ requests) pool h small =
    let one = one_call request calls pool h (omega (arith, small)) in
    let more =
      run_calls-Counted requests (send_on_pool request calls pool).0
        (record { filled = omega (arith, h.filled, one.size) }) (omega (arith, small, one.count)) in
    record { size = more.size ∙ one.size; count = omega (arith, more.count, one.count) }

-- What a call that goes to the client at `i` does.
record GoesTo (i : ℕ) (request : Packet) (calls : Calls) (pool : UpstreamClientPool) : Type 0 where
  client : PersistentTcpClient
  there : get_elem? pool.clients i ≡ some client
  does : send_on_pool request calls pool ≡ (
    record {
      clients = set pool.clients i (send_and_receive request calls client).client;
      next_index = (pool.next_index + 1) % 2 ^ 64;
    },
    (send_and_receive request calls client).result,
  )

GoesTo-index_of :
    (request : Packet) (calls : Calls) (pool : UpstreamClientPool)
    → IsFilled pool
    → GoesTo (index_of pool) request calls pool
GoesTo-index_of request calls pool h =
    let (inside, client, found, e) = send_on_pool_one request calls pool h in
    record { client = client; there = found; does = e }

-- Among as many calls in a row as the pool has clients, unless the count of calls starts again in
-- between, every client has a call that goes to it: what that call comes back with is what this
-- client comes back with, and this client alone is changed.
pub every_client_has_its_turn :
    (requests : List (Packet × Calls)) (pool : UpstreamClientPool) (i : ℕ)
    → IsFilled pool
    → length requests ≡ length pool.clients
    → pool.next_index + length requests < 2 ^ 64
    → i < length pool.clients
    → (j : ℕ) × (request : Packet) × (calls : Calls) × (client : PersistentTcpClient) × (get_elem?
          requests j
        ≡ some (request, calls))
      × (get_elem? (run_calls (take j requests) pool).clients i ≡ some client)
      × (send_on_pool request calls (run_calls (take j requests) pool) ≡ (
        record {
          clients =
              set
                (run_calls (take j requests) pool).clients
                i
                (send_and_receive request calls client).client;
          next_index = ((run_calls (take j requests) pool).next_index + 1) % 2 ^ 64;
        },
        (send_and_receive request calls client).result,
      ))
unfolding index_of
every_client_has_its_turn requests pool i h enough small inside =
    let (j, early, is) = turn pool.next_index (length pool.clients) i inside in
    let measured = length-take j requests (omega (arith, early, enough)) in
    let counted =
      run_calls-Counted (take j requests) pool h (omega (arith, small, measured, early, enough)) in
    let at_i : index_of (run_calls (take j requests) pool) ≡ i =
      ap (λ (k : ℕ). k % length (run_calls (take j requests) pool).clients)
        (counted.count ∙ ap (λ (k : ℕ). pool.next_index + k) measured)
      ∙ ap (λ (n : ℕ). (pool.next_index + j) % n) counted.size
      ∙ is in
    let ((request, calls), named) = get_elem?-some requests j (omega (arith, early, enough)) in
    let goes =
      subst (λ k. GoesTo k request calls (run_calls (take j requests) pool)) at_i
        (GoesTo-index_of request calls (run_calls (take j requests) pool)
          (record { filled = omega (arith, h.filled, counted.size) })) in
    (j, request, calls, goes.client, named, goes.there, goes.does)
