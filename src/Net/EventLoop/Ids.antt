-- ===== src/Net/EventLoop/Ids.antt =====
-- A connection keeps its id while it is read and written.
use project_moon.Base.{
  ◌≡◌, refl, sym, ap, ◌∙◌, Bool, true, false, Option, none, some, Option-cases, inl, inr, List, [],
  ◌∷◌, length, suc, arith, ok, Exec, pure, ◌>>=◌, >>=-ok, Bytes,
}
use project_moon.Net.Packet.{Packet}
use project_moon.Net.RequestContext.{IncomingPacket}
use project_moon.Net.TcpServer.{
  Connection, Recv, Send, receive, drain, dispatch, queue_response, handle_read, flush,
}
use project_moon.Net.EventLoop.{read_part, write_part, written}

abbrev answered : Option Packet → Connection → Connection
answered response connection = elim response [
  | none ↦ connection
  | some answer ↦ queue_response answer connection
]

answered_id : (response : Option Packet) (c : Connection) → (answered response c).id ≡ c.id
unfolding queue_response
answered_id none c = refl
answered_id (some p) c = refl

module _ {W : Type 0} (packet_handler : IncomingPacket → Exec W (Option Packet)) where
  dispatch_id :
      (packets : List Packet) (c c' : Connection) (w w' : W)
      → dispatch packet_handler packets c w ≡ (ok c', w')
      → c'.id ≡ c.id
  unfolding dispatch
  dispatch_id [] c c' w w' h = ground (arith, h)
  dispatch_id (p ∷ packets) c c' w w' h =
      let (response, v, handled, rest) =
        >>=-ok
          (packet_handler
            (record { connection_id = c.id; packet = p; peer_address = c.peer_address }))
          (λ response. dispatch packet_handler packets (answered response c)) w w' c' h in
      dispatch_id packets (answered response c) c' v w' rest ∙ answered_id response c

  handle_read_id :
      (calls : List Recv) (c c' : Connection) (w w' : W)
      → handle_read packet_handler calls c w ≡ (ok (some c'), w')
      → c'.id ≡ c.id
  unfolding handle_read
  handle_read_id calls c c' w w' h = elim (Option-cases (receive calls c.read_buffer)) [
    | inl over ↦ absurd (ground (arith, h, over))
    | inr (buffer, more) ↦
        let (after, v, dispatched, last) =
          >>=-ok (on buffer) (λ after. pure (some after)) w w' (some c')
            (ap (λ r. whole r w) (sym more) ∙ h) in
        let is : after ≡ c' = ground (arith, last) in
        sym (ap (λ (x : Connection). x.id) is)
        ∙ dispatch_id _ (record c { read_buffer = (drain (suc (length buffer)) buffer).1 }) after w
            v dispatched
  ]
    where
      on : Bytes → Exec W Connection
      on buffer =
          dispatch packet_handler (drain (suc (length buffer)) buffer).0
            (record c { read_buffer = (drain (suc (length buffer)) buffer).1 })

      whole : Option Bytes → Exec W (Option Connection)
      whole r = elim r [ none ↦ pure none | some buffer ↦ on buffer >>= λ after. pure (some after) ]

  pub read_part_id :
      (hung_up : Bool) (readable : Option (List Recv)) (c c' : Connection) (w w' : W)
      → read_part packet_handler hung_up readable c w ≡ (ok (some c'), w')
      → c'.id ≡ c.id
  unfolding read_part
  read_part_id true readable c c' w w' h = absurd (ground (arith, h))
  read_part_id false none c c' w w' h = ground (arith, h)
  read_part_id false (some calls) c c' w w' h = handle_read_id calls c c' w w' h

written_id :
    (registered : Bool) (queue : List Bytes) (c c' : Connection)
    → written registered queue c ≡ some c'
    → c'.id ≡ c.id
unfolding written
written_id true [] c c' h = ground (arith, h)
written_id false [] c c' h = absurd (ground (arith, h))
written_id registered (front ∷ queue) c c' h = ground (arith, h)

pub write_part_id :
    (writable : Option (List Send × Bool)) (c c' : Connection)
    → write_part writable c ≡ some c'
    → c'.id ≡ c.id
unfolding write_part
write_part_id none c c' h = ground (arith, h)
write_part_id (some (calls, registered)) c c' h = elim (Option-cases (flush calls c.write_queue)) [
  | inl broken ↦ absurd (ground (arith, h, broken))
  | inr (queue, left) ↦ written_id registered queue c c' (ap (λ q. whole q) (sym left) ∙ h)
]
  where
    whole : Option (List Bytes) → Option Connection
    whole q = elim q [ none ↦ none | some queue ↦ written registered queue c ]
