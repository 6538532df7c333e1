-- ===== src/Dungeon/MySql/Laws.antt =====
-- What the repository relies on in MySQL, and what its transactions then guarantee.
use project_moon.Base.{
  ℕ, ◌≡◌, ◌⊎◌, inl, inr, refl, ap, ◌∙◌, subst, false, Option, none, some, Bytes, bytes_eq, nat_eq,
  ℤ, arith, Option-cases, nat_beq_iff,
}
use project_moon.Dungeon.Sql.{
  Statement, Select, start_transaction, commit, rollback, take_stamina, finish_battle, Tables,
  Connection, run, run_on, unfinished_battle, clear_of, is_busy, find_progress,
}
use project_moon.Dungeon.MySql.{
  MySqlClient, Executed, done, failed, query_one, try_execute, try_update,
}

-- The statements whose count of changed rows the code reads.
abbrev pub IsCounted : Statement → Type 0
IsCounted (take_stamina cost p) = Unit
IsCounted (finish_battle id) = Unit
IsCounted _ = ⊥

-- The statements that stand inside a transaction.
abbrev pub IsPlain : Statement → Type 0
IsPlain start_transaction = ⊥
IsPlain commit = ⊥
IsPlain rollback = ⊥
IsPlain _ = Unit

-- `view` is what the connection sees. A statement that succeeds has done what `run_on` says, and
-- its count, where the code reads it, is the one of `run_on`. One that fails has changed nothing,
-- but for COMMIT: one that is reported as failed may have left the transaction open, may have
-- committed it, or may have lost it. A rollback always undoes the open transaction, also where the
-- client reports that it failed (the server rolls back when the connection is lost); without an
-- open transaction it does nothing. A SELECT changes nothing.
pub record IsMySql {W : Type 0} (client : MySqlClient W) (view : W → Connection) : Type 0 where
  pub executed :
      (s : Statement) (w w' : W) (n : ℕ)
      → client.execute s w ≡ (done n, w')
      → (k : ℕ) × (run_on s (view w) ≡ some (view w', k)) × (IsCounted s → k ≡ n)
  pub not_started :
      (w w' : W) (m : Bytes)
      → client.execute start_transaction w ≡ (failed m, w')
      → view w' ≡ view w
  pub unchanged :
      (s : Statement) (w w' : W) (m : Bytes)
      → IsPlain s
      → client.execute s w ≡ (failed m, w')
      → view w' ≡ view w
  pub commit_failed :
      (w w' : W) (m : Bytes)
      → client.execute commit w ≡ (failed m, w')
      → (view w' ≡ view w)
        ⊎ (view w' ≡ record (view w) { saved = none })
        ⊎ ((t : Tables) × ((view w).saved ≡ some t)
            × (view w' ≡ record { tables = t; saved = none }))
  pub rolled_back :
      (w : W) (t : Tables)
      → (view w).saved ≡ some t
      → view (client.execute rollback w).1 ≡ record { tables = t; saved = none }
  pub nothing_open : (w : W) → (view w).saved ≡ none → view (client.execute rollback w).1 ≡ view w
  pub selected : (q : Select) (w : W) → view (client.query q w).1 ≡ view w

-- The SELECT statements do not fail, and answer from the tables.
pub record Answers {W : Type 0} (client : MySqlClient W) (view : W → Connection) : Type 0 where
  pub unfinished :
      (p : ℤ) (w : W)
      → (query_one client (unfinished_battle p) w).0 ≡ none
      → is_busy p (view w).tables.dungeon_battle ≡ false
  pub cleared :
      (p d : ℤ) (w : W)
      → (query_one client (clear_of p d) w).0 ≡ none
      → find_progress p d (view w).tables.player_dungeon ≡ none
  pub not_cleared :
      (p d : ℤ) (w : W)
      → find_progress p d (view w).tables.player_dungeon ≡ none
      → (query_one client (clear_of p d) w).0 ≡ none

run_on_plain :
    (s : Statement) (c c' : Connection) (n : ℕ)
    → IsPlain s
    → run_on s c ≡ some (c', n)
    → (run s c.tables ≡ some (c'.tables, n)) × (c'.saved ≡ c.saved)
unfolding run_on
run_on_plain start_transaction c c' n h e = absurd h
run_on_plain commit c c' n h e = absurd h
run_on_plain rollback c c' n h e = absurd h
run_on_plain s c c' n h e = elim (Option-cases (run s c.tables)) [
  | inl r ↦ absurd (ground (arith, r))
  | inr ((t, k), r) ↦ (ground (arith, r), ground (arith, r))
]

pub Executed-cases :
    {W : Type 0} (r : Executed × W)
    → ((n : ℕ) × (w : W) × (r ≡ (done n, w))) ⊎ ((m : Bytes) × (w : W) × (r ≡ (failed m, w)))
Executed-cases (done n, w) = inl (n, w, refl)
Executed-cases (failed m, w) = inr (m, w, refl)

-- Steps that leave the point of return as it is.
abbrev pub Inside : {W : Type 0} → (W → Connection) → (W → Option Bytes × W) → Type 0
Inside {W} view steps = (w : W) → (view (steps w).1).saved ≡ (view w).saved

module _ {W : Type 0} (client : MySqlClient W) (view : W → Connection)
    (db : IsMySql client view) where
  module _ (s : Statement) (plain : IsPlain s) where
    pub try_execute_done :
        (w w' : W)
        → try_execute client s w ≡ (none, w')
        → (n : ℕ) × (run s (view w).tables ≡ some ((view w').tables, n))
    unfolding try_execute
    try_execute_done w w' h = elim (Executed-cases (client.execute s w)) [
      | inl (n, w₁, e) ↦
          let same : w₁ ≡ w' = ground (arith, e) in
          let (k, ran, _) = db.executed s w w₁ n e in
          (
            k,
            subst (λ x. run s (view w).tables ≡ some ((view x).tables, k)) same
                (run_on_plain s (view w) (view w₁) k plain ran).0,
          )
      | inr (m, w₁, e) ↦ absurd (ground (arith, e))
    ]

    saved-execute : (w : W) → (view (client.execute s w).1).saved ≡ (view w).saved
    saved-execute w = elim (Executed-cases (client.execute s w)) [
      | inl (n, w₁, e) ↦
          let (k, ran, _) = db.executed s w w₁ n e in
          rw e (run_on_plain s (view w) (view w₁) k plain ran).1
      | inr (m, w₁, e) ↦ rw e (ap (λ (c : Connection). c.saved) (db.unchanged s w w₁ m plain e))
    ]

    pub try_execute-Inside : Inside view (try_execute client s)
    unfolding try_execute
    try_execute-Inside w = saved-execute w

    pub try_update-Inside : (m : Bytes) → Inside view (try_update client s m)
    unfolding try_update
    try_update-Inside m w = saved-execute w

    pub try_update_done :
        IsCounted s
        → (m : Bytes) (w w' : W) → try_update client s m w ≡ (none, w')
        → run s (view w).tables ≡ some ((view w').tables, 1)
    unfolding try_update
    try_update_done counted m w w' h = elim (Executed-cases (client.execute s w)) [
      | inl (n, w₁, e) ↦
          let same : w₁ ≡ w' = ground (arith, e) in
          let one : n ≡ 1 = ground (arith, e, nat_beq_iff n 1) in
          let (k, ran, is) = db.executed s w w₁ n e in
          subst (λ x. run s (view w).tables ≡ some ((view x).tables, 1)) same
            (subst (λ c. run s (view w).tables ≡ some ((view w₁).tables, c)) (is counted ∙ one)
              (run_on_plain s (view w) (view w₁) k plain ran).0)
      | inr (m', w₁, e) ↦ absurd (ground (arith, e))
    ]
