-- ===== src/Net/TcpClient/Sockets.antt =====
-- A socket is kept only behind a success, and none is lost.
use project_moon.Base.{
  append_nil, ℕ, ◌≡◌, ◌≢◌, inl, inr, refl, ap, subst, Bool, true, false, Option, none, some, List,
  [], ◌∷◌, ◌++◌, Bytes, arith, if◌then◌else◌, Option-cases,
}
use project_moon.Base.Calls.{Result, done, failed}
use project_moon.Net.Packet.{Packet}
use project_moon.Net.TcpClient.{
  try_addresses, Calls, PersistentTcpClient, Exchange, ensure_connected, end_with, carry_on,
  write_packet, read_packet, send_and_receive,
}

-- The sockets that Connect makes: up to the first that gets connected.
unfoldable pub made : List (Option ℕ × Bool) → List ℕ
made [] = []
made ((none, _) ∷ results) = made results
made ((some fd, connected) ∷ results) =
    let later = made results in fd ∷ (if connected then [] else later)

abbrev pub made_by : Calls → PersistentTcpClient → List ℕ
made_by calls client = elim client.socket_fd [
  | some fd ↦ []
  | none ↦ elim calls.addresses [ none ↦ [] | some results ↦ made results ]
]

abbrev pub held : Option ℕ → List ℕ
held none = []
held (some fd) = fd ∷ []

made-try_addresses :
    (results : List (Option ℕ × Bool))
    → made results ≡ (try_addresses results).1 ++ held (try_addresses results).0
unfolding made try_addresses
made-try_addresses [] = refl
made-try_addresses ((none, c) ∷ results) = made-try_addresses results
made-try_addresses ((some fd, true) ∷ results) = refl
made-try_addresses ((some fd, false) ∷ results) = ap (λ s. fd ∷ s) (made-try_addresses results)

-- What EnsureConnected leaves: the sockets accounted for, and one kept where it is true.
record Connected (calls : Calls) (client : PersistentTcpClient)
    (r : PersistentTcpClient × List ℕ × Option Bytes) : Type 0 where
  accounted : held client.socket_fd ++ made_by calls client ≡ r.1 ++ held r.0.socket_fd
  kept : r.2 ≡ none → r.0.socket_fd ≢ none
  lost : r.2 ≢ none → r.0.socket_fd ≡ none

kept_or_not :
    (calls : Calls) (client : PersistentTcpClient) (results : List (Option ℕ × Bool))
    → client.socket_fd ≡ none
    → calls.addresses ≡ some results
    → Connected calls client (ensure_connected calls.addresses client)
unfolding ensure_connected
kept_or_not calls client results start found = elim (Option-cases (try_addresses results).0) [
  | inl no_socket ↦ record {
    accounted = ground (arith, start, found, no_socket, made-try_addresses results);
    kept = λ e. ground (arith, start, found, no_socket, e);
    lost = λ e. ground (arith, start, found, no_socket);
  }
  | inr (fd, socket) ↦ record {
    accounted = ground (arith, start, found, socket, made-try_addresses results);
    kept = λ e. ground (arith, start, found, socket);
    lost = λ e. ground (arith, start, found, socket, e);
  }
]

ensure_connected-Connected :
    (calls : Calls) (client : PersistentTcpClient)
    → Connected calls client (ensure_connected calls.addresses client)
unfolding ensure_connected
ensure_connected-Connected calls client = elim (Option-cases client.socket_fd) [
  | inr (fd, has) ↦ record {
    accounted = ground (arith, has);
    kept = λ e. ground (arith, has);
    lost = λ e. ground (arith, has, e);
  }
  | inl start ↦ elim (Option-cases calls.addresses) [
    | inl not_found ↦ record {
      accounted = ground (arith, start, not_found);
      kept = λ e. ground (arith, start, not_found, e);
      lost = λ e. ground (arith, start, not_found);
    }
    | inr (results, found) ↦ kept_or_not calls client results start found
  ]
]

-- The sockets that were there or were made are those that were closed and the one that is kept; a
-- failure keeps none, and a success keeps one.
record Tidy (before : List ℕ) (x : Exchange) : Type 0 where
  accounted : before ≡ x.shut ++ held x.client.socket_fd
  failed_closed : (m : Bytes) → x.result ≡ some (failed m) → x.client.socket_fd ≡ none
  done_open : (p : Packet) → x.result ≡ some (done p) → x.client.socket_fd ≢ none

end_with-Tidy :
    (before : List ℕ) (client : PersistentTcpClient) (shut : List ℕ) (sent : Bytes)
    (result : Option (Result Packet))
    → before ≡ shut ++ held client.socket_fd
    → client.socket_fd ≢ none
    → Tidy before (end_with client shut sent result)
unfolding end_with
end_with-Tidy before client shut sent none e h = record {
  accounted = e;
  failed_closed = λ m f. cc;
  done_open = λ p f. cc;
}
end_with-Tidy before client shut sent (some (done p)) e h = record {
  accounted = e;
  failed_closed = λ m f. ground (arith, f);
  done_open = λ p f. h;
}
end_with-Tidy before client shut sent (some (failed m)) e h = elim (Option-cases client.socket_fd) [
  | inl no_socket ↦ absurd (h no_socket)
  | inr (fd, socket) ↦ record {
    accounted = ground (arith, socket, e, append_nil (shut ++ fd ∷ []));
    failed_closed = λ m f. ground (arith, socket);
    done_open = λ p f. ground (arith, f);
  }
]

carry_on-Tidy :
    (calls : Calls) (client : PersistentTcpClient) (r : PersistentTcpClient × List ℕ × Option Bytes)
    (written : Bytes × Option (Result (Unit {0}))) (response : Option (Result Packet))
    → Connected calls client r
    → Tidy (held client.socket_fd ++ made_by calls client) (carry_on r written response)
unfolding carry_on
carry_on-Tidy calls client (open_client, shut, some m) written response k = record {
  accounted = k.accounted;
  failed_closed = λ _ f. k.lost (λ e. cc);
  done_open = λ p f. cc;
}
carry_on-Tidy calls client (open_client, shut, none) (sent, none) response k =
    end_with-Tidy _ open_client shut sent none k.accounted (k.kept refl)
carry_on-Tidy calls client (open_client, shut, none) (sent, some (failed m)) response k =
    end_with-Tidy _ open_client shut sent (some (failed m)) k.accounted (k.kept refl)
carry_on-Tidy calls client (open_client, shut, none) (sent, some (done u)) response k =
    end_with-Tidy _ open_client shut sent response k.accounted (k.kept refl)

-- Whatever the calls of one SendAndReceive come back with: a failure leaves the client without a
-- socket, a success leaves it with one, and the socket that it had before and those that were made
-- are, each once and in this order, those that were closed and the one that it has now.
pub send_and_receive_sockets :
    (request : Packet) (calls : Calls) (client : PersistentTcpClient) (x : Exchange)
    → send_and_receive request calls client ≡ x
    → ((m : Bytes) → x.result ≡ some (failed m) → x.client.socket_fd ≡ none)
      × ((p : Packet) → x.result ≡ some (done p) → x.client.socket_fd ≢ none)
      × (held client.socket_fd ++ made_by calls client ≡ x.shut ++ held x.client.socket_fd)
unfolding send_and_receive
send_and_receive_sockets request calls client x e =
    let t = subst (Tidy (held client.socket_fd ++ made_by calls client)) e (
      carry_on-Tidy calls client (ensure_connected calls.addresses client)
        (write_packet calls.writes request) (read_packet calls.reads)
        (ensure_connected-Connected calls client)) in
    (t.failed_closed, t.done_open, t.accounted)
