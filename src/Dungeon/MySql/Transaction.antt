-- ===== src/Dungeon/MySql/Transaction.antt =====
-- A transaction does all of its steps or none.
use project_moon.Base.{
  ℕ, ◌≡◌, ◌⊎◌, inl, inr, refl, sym, ap, ◌∙◌, Option, none, some, Bytes, arith, Option-cases,
}
use project_moon.Dungeon.Sql.{start_transaction, commit, rollback, Tables, Connection, run_on}
use project_moon.Dungeon.MySql.{MySqlClient, done, failed, finish, transaction, ◌then_try◌}
use project_moon.Dungeon.MySql.Laws.{IsMySql, Inside, Executed-cases}

-- COMMIT is reported as failed in the state `w`.
abbrev pub CommitFailed : {W : Type 0} → MySqlClient W → W → Type 0
CommitFailed {W} client w = (m : Bytes) × (w' : W) × (client.execute commit w ≡ (failed m, w'))

module _ {W : Type 0} (client : MySqlClient W) (view : W → Connection)
    (db : IsMySql client view) where
  -- `begin`, when it succeeded.
  started :
      (w w₁ : W) (n : ℕ)
      → client.execute start_transaction w ≡ (done n, w₁)
      → view w₁ ≡ record { tables = (view w).tables; saved = some (view w).tables }
  unfolding run_on
  started w w₁ n e = let (k, ran, _) = db.executed start_transaction w w₁ n e in ground (arith, ran)

  committed :
      (w w₁ : W) (n : ℕ)
      → client.execute commit w ≡ (done n, w₁)
      → (view w₁).tables ≡ (view w).tables
  unfolding run_on
  committed w w₁ n e = let (k, ran, _) = db.executed commit w w₁ n e in ground (arith, ran)

  -- Where COMMIT has failed, the rollback behind it leaves the tables of before the transaction, or
  -- all of its work.
  commit_undone :
      (t : Tables) (w w₁ : W) (m : Bytes)
      → (view w).saved ≡ some t
      → client.execute commit w ≡ (failed m, w₁)
      → ((view (client.execute rollback w₁).1).tables ≡ t)
        ⊎ ((view (client.execute rollback w₁).1).tables ≡ (view w).tables)
  commit_undone t w w₁ m s e = elim (db.commit_failed w w₁ m e) [
    | inl still ↦ inl (
        ap (λ (c : Connection). c.tables)
          (db.rolled_back w₁ t (ap (λ (c : Connection). c.saved) still ∙ s)))
    | inr (inl closed) ↦ inr (
        ap (λ (c : Connection). c.tables)
          (db.nothing_open w₁ (ap (λ (c : Connection). c.saved) closed) ∙ closed))
    | inr (inr (t', s', lost)) ↦
        let same : t' ≡ t = ground (arith, s, s') in
        inl (
          ap (λ (c : Connection). c.tables)
            (db.nothing_open w₁ (ap (λ (c : Connection). c.saved) lost) ∙ lost)
          ∙ same)
  ]

  finish_failed :
      (r : Option Bytes × W) (t : Tables) (m : Bytes) (w' : W)
      → (view r.1).saved ≡ some t
      → finish client r ≡ (some m, w')
      → ((view w').tables ≡ t)
        ⊎ ((r.0 ≡ none) × CommitFailed client r.1 × ((view w').tables ≡ (view r.1).tables))
  unfolding finish
  finish_failed (some m', w) t m w' s h =
      let same : (client.execute rollback w).1 ≡ w' = ground arith in
      inl (
        ap (λ (x : W). (view x).tables) (sym same)
        ∙ ap (λ (c : Connection). c.tables) (db.rolled_back w t s))
  finish_failed (none, w) t m w' s h = elim (Executed-cases (client.execute commit w)) [
    | inl (n, w₁, e) ↦ absurd (ground (arith, e))
    | inr (m', w₁, e) ↦
        let same : (client.execute rollback w₁).1 ≡ w' = ground (arith, e) in
        elim (commit_undone t w w₁ m' s e) [
          | inl undone ↦ inl (ap (λ (x : W). (view x).tables) (sym same) ∙ undone)
          | inr stays ↦ inr (refl, (m', w₁, e), ap (λ (x : W). (view x).tables) (sym same) ∙ stays)
        ]
  ]

  finish_done :
      (r : Option Bytes × W) (w' : W)
      → finish client r ≡ (none, w')
      → (r.0 ≡ none) × ((view w').tables ≡ (view r.1).tables)
  unfolding finish
  finish_done (some m', w) w' h = absurd (ground arith)
  finish_done (none, w) w' h = elim (Executed-cases (client.execute commit w)) [
    | inl (n, w₁, e) ↦
        let same : w₁ ≡ w' = ground (arith, e) in
        (refl, ap (λ (x : W). (view x).tables) (sym same) ∙ committed w w₁ n e)
    | inr (m', w₁, e) ↦ absurd (ground (arith, e))
  ]

  module _ (steps : W → Option Bytes × W) where
    -- Whatever step, or `begin`, fails: nothing has happened. Where `commit` fails, nothing has
    -- happened or everything.
    pub transaction_failed :
        Inside view steps
        → (w w' : W) (m : Bytes) → transaction client steps w ≡ (some m, w')
        → ((view w').tables ≡ (view w).tables)
          ⊎ ((w₁ w₂ : W) × ((view w₁).tables ≡ (view w).tables)
              × (steps w₁ ≡ (none, w₂))
              × CommitFailed client w₂
              × ((view w').tables ≡ (view w₂).tables))
    unfolding transaction
    transaction_failed inside w w' m h =
        elim (Executed-cases (client.execute start_transaction w)) [
          | inr (m', w₁, e) ↦
              let same : w₁ ≡ w' = ground (arith, e) in
              inl (
                ap (λ (x : W). (view x).tables) (sym same)
                ∙ ap (λ (c : Connection). c.tables) (db.not_started w w₁ m' e))
          | inl (n, w₁, e) ↦
              elim (finish_failed (steps w₁) (view w).tables m w'
                (inside w₁ ∙ ap (λ (c : Connection). c.saved) (started w w₁ n e))
                (ground (arith, e))) [
                  | inl undone ↦ inl undone
                  | inr (finished, unsure, all) ↦ inr (
                    w₁,
                    (steps w₁).1,
                    ap (λ (c : Connection). c.tables) (started w w₁ n e),
                    ap (λ r. (r, (steps w₁).1)) finished,
                    unsure,
                    all,
                  )
                ]
        ]

    -- Otherwise every step succeeded, from the tables before to those afterwards.
    pub transaction_done :
        (w w' : W)
        → transaction client steps w ≡ (none, w')
        → (w₁ w₂ : W) × ((view w₁).tables ≡ (view w).tables)
          × (steps w₁ ≡ (none, w₂))
          × ((view w').tables ≡ (view w₂).tables)
    unfolding transaction
    transaction_done w w' h = elim (Executed-cases (client.execute start_transaction w)) [
      | inr (m', w₁, e) ↦ absurd (ground (arith, e))
      | inl (n, w₁, e) ↦
          (let f = finish_done (steps w₁) w' (ground (arith, e)) in
            (
              w₁,
              (steps w₁).1,
              ap (λ (c : Connection). c.tables) (started w w₁ n e),
              ground (arith, f.0),
              f.1,
            ))
    ]

-- Two steps, one after the other.
module _ {W : Type 0} (client : MySqlClient W) (view : W → Connection) where
  pub then_try-Inside :
      (m n : W → Option Bytes × W)
      → Inside view m
      → Inside view n
      → Inside view (◌then_try◌ client m n)
  unfolding ◌then_try◌
  then_try-Inside m n f g w = elim (Option-cases (m w).0) [
    | inl e ↦ ground (arith, e, f w, g (m w).1)
    | inr (x, e) ↦ ground (arith, e, f w)
  ]

module _ {W : Type 0} (client : MySqlClient W) (m n : W → Option Bytes × W) where
  pub then_try_done :
      (w w' : W)
      → ◌then_try◌ client m n w ≡ (none, w')
      → (w₁ : W) × (m w ≡ (none, w₁)) × (n w₁ ≡ (none, w'))
  unfolding ◌then_try◌
  then_try_done w w' h = elim (Option-cases (m w).0) [
    | inl e ↦ ((m w).1, ground (arith, e), ground (arith, e))
    | inr (x, e) ↦ absurd (ground (arith, e))
  ]
