-- ===== src/Net/EventLoop/Table.antt =====
-- The table of connections and their ids, as accepting, closing and putting back change them.
use project_moon.Base.{
  ℕ, ◌+◌, ◌^◌, ◌<◌, ◌≤◌, ◌≡◌, inl, inr, refl, sym, ap, ◌∙◌, Bool, true, false, some, List, [], ◌∷◌,
  length, arith, nat_eq,
}
use native.Mathlib.Nat.{mod-eq_of_lt}
use project_moon.Base.Dict.{lookup, insert, erase, insert-cases, emplace-cases, erase-cases}
use project_moon.Net.TcpServer.{Connection}
use project_moon.Net.EventLoop.{
  EpollTcpServer, Accepted, accepted, would_block, accept_failed, accept_one, new_connection,
  accept_connections,
}

-- Ids were given out, and to one connection each.
pub record IsTable (server : EpollTcpServer) : Type 0 where
  pub given :
      (fd : ℕ) (c : Connection)
      → lookup fd server.connections ≡ some c
      → c.id < server.next_connection_id
  pub apart :
      (fd fd' : ℕ) (c c' : Connection)
      → lookup fd server.connections ≡ some c
      → lookup fd' server.connections ≡ some c'
      → c.id ≡ c'.id
      → fd ≡ fd'

-- After some events: the table is in order, an id that had been given out stands where it stood,
-- and at most `n` ids were given out.
pub record Later (server after : EpollTcpServer) (n : ℕ) : Type 0 where
  pub table : IsTable after
  pub old :
      (fd : ℕ) (c : Connection)
      → lookup fd after.connections ≡ some c
      → c.id < server.next_connection_id
      → (c' : Connection) × (lookup fd server.connections ≡ some c') × (c'.id ≡ c.id)
  pub grows : server.next_connection_id ≤ after.next_connection_id
  pub bound : after.next_connection_id ≤ server.next_connection_id + n

pub Later-refl : {server : EpollTcpServer} (n : ℕ) → IsTable server → Later server server n
Later-refl n t = record {
  table = t;
  old = λ fd c e small. (c, e, refl);
  grows = omega arith;
  bound = omega arith;
}

pub Later-trans : {a b c : EpollTcpServer} (m n : ℕ) → Later a b m → Later b c n → Later a c (m + n)
Later-trans m n x y = record {
  table = y.table;
  old = λ fd c e small.
      let (c', e', same) = y.old fd c e (omega (arith, small, x.grows)) in
      let (c'', e'', same') = x.old fd c' e' (omega (arith, small, same)) in
      (c'', e'', same' ∙ same);
  grows = omega (arith, x.grows, y.grows);
  bound = omega (arith, x.bound, y.bound);
}

accept_one-Later :
    (fd : ℕ) (registered : Bool) (peer : List ℕ) (server : EpollTcpServer)
    → IsTable server
    → server.next_connection_id + 1 < 2 ^ 64
    → Later server (accept_one fd registered peer server) 1
unfolding accept_one
accept_one-Later fd false peer server t small =
    let next = mod-eq_of_lt small in
    record {
      table = record { given = λ j c e. omega (arith, t.given j c e, next); apart = t.apart };
      old = λ j c e young. (c, e, refl);
      grows = omega (arith, next);
      bound = omega (arith, next);
    }
accept_one-Later fd true peer server t small =
    let next = mod-eq_of_lt small in
    let new = new_connection server.next_connection_id peer in
    record {
      table = record {
        given = λ j c e. elim (emplace-cases fd j new c server.connections e) [
          | inl was ↦ omega (arith, t.given j c was, next)
          | inr (here, is) ↦ omega (arith, ap (λ x. x.id) is, next)
        ];
        apart = λ j j' c c' e e' same. elim (emplace-cases fd j new c server.connections e) [
          | inl was ↦ elim (emplace-cases fd j' new c' server.connections e') [
            | inl was' ↦ t.apart j j' c c' was was' same
            | inr (here', is') ↦ absurd (omega (arith, t.given j c was, same, ap (λ x. x.id) is'))
          ]
          | inr (here, is) ↦ elim (emplace-cases fd j' new c' server.connections e') [
            | inl was' ↦ absurd (omega (arith, t.given j' c' was', same, ap (λ x. x.id) is))
            | inr (here', is') ↦ sym here ∙ here'
          ]
        ];
      };
      old = λ j c e young. elim (emplace-cases fd j new c server.connections e) [
        | inl was ↦ (c, was, refl)
        | inr (here, is) ↦ absurd (omega (arith, young, ap (λ x. x.id) is))
      ];
      grows = omega (arith, next);
      bound = omega (arith, next);
    }

pub accept_connections-Later :
    (calls : List Accepted) (server : EpollTcpServer)
    → IsTable server
    → server.next_connection_id + length calls < 2 ^ 64
    → Later server (accept_connections calls server).1 (length calls)
unfolding accept_connections
accept_connections-Later [] server t small = Later-refl 0 t
accept_connections-Later (would_block ∷ calls) server t small = Later-refl _ t
accept_connections-Later (accept_failed ∷ calls) server t small = Later-refl _ t
accept_connections-Later (accepted fd false registered peer ∷ calls) server t small =
    let rest = accept_connections-Later calls server t (omega (arith, small)) in
    record {
      table = rest.table;
      old = rest.old;
      grows = rest.grows;
      bound = omega (arith, rest.bound);
    }
accept_connections-Later (accepted fd true registered peer ∷ calls) server t small =
    let one = accept_one-Later fd registered peer server t (omega (arith, small)) in
    let rest =
      accept_connections-Later calls (accept_one fd registered peer server) one.table
        (omega (arith, small, one.bound)) in
    let both = Later-trans 1 (length calls) one rest in
    record {
      table = both.table;
      old = both.old;
      grows = both.grows;
      bound = omega (arith, both.bound);
    }

pub erase-Later :
    (fd : ℕ) (server : EpollTcpServer)
    → IsTable server
    → Later server (record server { connections = erase fd server.connections }) 0
erase-Later fd server t =
    let was = λ (j : ℕ) (c : Connection) (e : lookup j (erase fd server.connections) ≡ some c).
      (erase-cases fd j c server.connections e).0 in
    record {
      table = record {
        given = λ j c e. t.given j c (was j c e);
        apart = λ j j' c c' e e' same. t.apart j j' c c' (was j c e) (was j' c' e') same;
      };
      old = λ j c e young. (c, was j c e, refl);
      grows = omega arith;
      bound = omega arith;
    }

stood :
    (fd : ℕ) (c₀ c₁ : Connection) (server : EpollTcpServer)
    → lookup fd server.connections ≡ some c₀
    → c₁.id ≡ c₀.id
    → (j : ℕ) (c : Connection) → lookup j (insert fd c₁ server.connections) ≡ some c
    → (c' : Connection) × (lookup j server.connections ≡ some c') × (c'.id ≡ c.id)
stood fd c₀ c₁ server there same j c e = elim (insert-cases fd j c₁ c server.connections e) [
  | inl (here, is) ↦ (
    c₀,
    ap (λ k. lookup k server.connections) (sym here) ∙ there,
    sym same ∙ ap (λ x. x.id) (sym is),
  )
  | inr (other, was) ↦ (c, was, refl)
]

-- The connection at a descriptor is put back, changed, with its id.
pub insert-Later :
    (fd : ℕ) (c₀ c₁ : Connection) (server : EpollTcpServer)
    → IsTable server
    → lookup fd server.connections ≡ some c₀
    → c₁.id ≡ c₀.id
    → Later server (record server { connections = insert fd c₁ server.connections }) 0
insert-Later fd c₀ c₁ server t there same_id =
    let was = stood fd c₀ c₁ server there same_id in
    record {
      table = record {
        given = λ j c e. let (c', e', same) = was j c e in omega (arith, t.given j c' e', same);
        apart = λ j j' c c' e e' same.
            let (d, f, g) = was j c e in
            let (d', f', g') = was j' c' e' in t.apart j j' d d' f f' (g ∙ same ∙ sym g');
      };
      old = λ j c e young. was j c e;
      grows = omega arith;
      bound = omega arith;
    }
