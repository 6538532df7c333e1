-- ===== src/Net/EventLoop/Numbering.antt =====
-- The ids of the connections over the events of Run: no two open connections share one, and none is
-- used again.
use project_moon.Base.{
  ℕ, ◌+◌, ◌^◌, ◌<◌, ◌≡◌, ◌≢◌, inl, inr, refl, sym, ap, subst, ◌∙◌, Bool, true, false, Option, none,
  some, Option-cases, List, [], ◌∷◌, length, arith, nat_eq, ok, Exec, pure, ◌>>=◌, >>=-ok,
  if◌then◌else◌,
}
use project_moon.Base.Dict.{lookup}
use project_moon.Net.Packet.{Packet}
use project_moon.Net.RequestContext.{IncomingPacket}
use project_moon.Net.TcpServer.{Connection}
use project_moon.Net.EventLoop.Ids.{read_part_id, write_part_id}
use project_moon.Net.EventLoop.{
  EpollTcpServer, new_server, Event, listening, ready, wait_failed, read_part, write_part, settle,
  handle_event, run,
}
use project_moon.Net.EventLoop.Table.{
  IsTable, Later, Later-refl, Later-trans, accept_connections-Later, erase-Later, insert-Later,
}

-- How many sockets an event can bring
abbrev pub brought_by : Event → ℕ
brought_by (listening calls) = length calls
brought_by (ready fd hung_up readable writable) = 0
brought_by wait_failed = 0

-- How many sockets the events can bring
abbrev pub brought : List Event → ℕ
brought [] = 0
brought (event ∷ events) = brought_by event + brought events

pub new_server-IsTable : IsTable new_server
unfolding lookup
new_server-IsTable = record {
  given = λ fd c e. absurd (ground (arith, e));
  apart = λ fd fd' c c' e e' same. absurd (ground (arith, e));
}

module _ {W : Type 0} (disconnect_handler : ℕ → W → W) where
  settle-Later :
      (fd : ℕ) (c : Connection) (kept : Option Connection) (server after : EpollTcpServer)
      (w w' : W)
      → IsTable server
      → lookup fd server.connections ≡ some c
      → ((c' : Connection) → kept ≡ some c' → c'.id ≡ c.id)
      → settle disconnect_handler fd kept server w ≡ (ok after, w')
      → Later server after 0
  unfolding settle
  settle-Later fd c none server after w w' t there same h =
      subst (λ s. Later server s 0) (ground (arith, h, there)) (erase-Later fd server t)
  settle-Later fd c (some c') server after w w' t there same h =
      subst (λ s. Later server s 0) (ground (arith, h))
        (insert-Later fd c c' server t there (same c' refl))

module _ {W : Type 0} (packet_handler : IncomingPacket → Exec W (Option Packet))
    (disconnect_handler : ℕ → W → W) where
  handle_event-Later :
      (event : Event) (server after : EpollTcpServer) (good : Bool) (w w' : W)
      → IsTable server
      → server.next_connection_id + brought_by event < 2 ^ 64
      → handle_event packet_handler disconnect_handler event server w ≡ (ok (good, after), w')
      → Later server after (brought_by event)
  unfolding handle_event
  handle_event-Later wait_failed server after good w w' t small h =
      subst (λ s. Later server s 0) (ground (arith, h)) (Later-refl 0 t)
  handle_event-Later (listening calls) server after good w w' t small h =
      subst (λ s. Later server s (length calls)) (ground (arith, h))
        (accept_connections-Later calls server t small)
  handle_event-Later (ready fd hung_up readable writable) server after good w w' t small h =
      elim (Option-cases (lookup fd server.connections)) [
        | inl closed ↦ subst (λ s. Later server s 0) (ground (arith, h, closed)) (Later-refl 0 t)
        | inr (c, there) ↦
            let (kept, v, reads, rest) =
              >>=-ok (read_part packet_handler hung_up readable c) settled w w' (good, after)
                (ap (λ r. whole r w) (sym there) ∙ h) in
            let (now, v', settles, last) =
              >>=-ok (settle disconnect_handler fd (written kept) server) finish v w' (good, after)
                rest in
            let is : now ≡ after = ground (arith, last) in
            subst (λ s. Later server s 0) is
              (settle-Later disconnect_handler fd c (written kept) server now v v' t there
                (written_id c w v kept reads) settles)
      ]
    where
      written : Option Connection → Option Connection
      written kept = elim kept [ none ↦ none | some c ↦ write_part writable c ]

      finish : EpollTcpServer → Exec W (Bool × EpollTcpServer)
      finish now = pure (true, now)

      settled : Option Connection → Exec W (Bool × EpollTcpServer)
      settled kept = settle disconnect_handler fd (written kept) server >>= finish

      whole : Option Connection → Exec W (Bool × EpollTcpServer)
      whole r = elim r [
        | none ↦ pure (true, server)
        | some c ↦ read_part packet_handler hung_up readable c >>= settled
      ]

      written_id :
          (c : Connection) (w v : W) (kept : Option Connection)
          → read_part packet_handler hung_up readable c w ≡ (ok kept, v)
          → (c' : Connection) → written kept ≡ some c'
          → c'.id ≡ c.id
      written_id c w v none reads c' e = absurd (ground (arith, e))
      written_id c w v (some d) reads c' e =
          write_part_id writable d c' e ∙ read_part_id packet_handler hung_up readable c d w v reads

  run-Later :
      (events : List Event) (server after : EpollTcpServer) (good : Bool) (w w' : W)
      → IsTable server
      → server.next_connection_id + brought events < 2 ^ 64
      → run packet_handler disconnect_handler events server w ≡ (ok (good, after), w')
      → Later server after (brought events)
  unfolding run
  run-Later [] server after good w w' t small h =
      subst (λ s. Later server s 0) (ground (arith, h)) (Later-refl 0 t)
  run-Later (event ∷ events) server after good w w' t small h =
      let ((fine, next), v, handled, rest) =
        >>=-ok (handle_event packet_handler disconnect_handler event server) continue w w'
          (good, after) h in
      let one = handle_event-Later event server next fine w v t (omega (arith, small)) handled in
      go fine next v one rest
        (run-Later events next after good v w' one.table (omega (arith, small, one.bound)))
    where
      continue : Bool × EpollTcpServer → Exec W (Bool × EpollTcpServer)
      continue r =
          if r.0 then run packet_handler disconnect_handler events r.1 else pure (false, r.1)

      go :
          (fine : Bool) (next : EpollTcpServer) (v : W)
          → Later server next (brought_by event)
          → continue (fine, next) v ≡ (ok (good, after), w')
          → (run packet_handler disconnect_handler events next v ≡ (ok (good, after), w')
              → Later next after (brought events))
          → Later server after (brought_by event + brought events)
      go true next v one rest further = Later-trans _ _ one (further rest)
      go false next v one rest further =
          subst (λ s. Later server s (brought_by event + brought events)) (ground (arith, rest))
            (Later-trans _ _ one (Later-refl _ one.table))

  -- While fewer than 2^64 sockets come, after any events of the server's loop that a handler's
  -- exception did not leave: each open connection has an id that was given out, no two have the same,
  -- and an id that had been given out before the events and that no open connection had then is not
  -- used again.
  pub run-IsTable :
      (events : List Event) (server after : EpollTcpServer) (good : Bool) (w w' : W)
      → IsTable server
      → server.next_connection_id + brought events < 2 ^ 64
      → run packet_handler disconnect_handler events server w ≡ (ok (good, after), w')
      → IsTable after
        × ((id : ℕ)
            → id < server.next_connection_id
            → ((fd : ℕ) (c : Connection) → lookup fd server.connections ≡ some c → c.id ≢ id)
            → (fd : ℕ) (c : Connection) → lookup fd after.connections ≡ some c
            → c.id ≢ id)
  run-IsTable events server after good w w' t small h =
      let later = run-Later events server after good w w' t small h in
      (
        later.table,
        λ id young gone fd c e same.
            let (c', e', kept) = later.old fd c e (omega (arith, same, young)) in
            gone fd c' e' (kept ∙ same),
      )
