-- ===== src/Login/Sessions.antt =====
-- What a login returns, and the session that it leaves.
use project_moon.Base.{
  ◌≡◌, subst, inl, inr, Bool, true, false, Option, none, some, Bytes, bytes_eq, ℤ, ok, Outcome,
  arith, Found-cases, Outcome-cases, Bool-cases, if◌then◌else◌, int_beq_iff, int_eq, beq_self, sym,
  ◌∙◌,
}
use project_moon.Base.Dict.{Dict}
use project_moon.Model.{Account, Session}
use project_moon.Security.{verify_password}
use project_moon.Session.{SessionRepository}
use project_moon.Session.InMemory.{InMemorySessionRepository, in_memory, find_by_id, create}
use project_moon.Session.InMemory.Invariant.{IsValid, find_by_id-create, unless_account}
use project_moon.Session.SessionId.{make_session_id}
use project_moon.Login.{
  AccountRepository, in_memory_accounts, LoginRequest, LoginResponse, login_account, login,
}

module _ {W : Type 0} (pbkdf2 : Bytes → Bytes → ℤ → Option Bytes) (accounts : AccountRepository W)
    (sessions : SessionRepository W) where
  -- A login succeeds only for an account that the repository found, that is enabled and whose
  -- stored hash accepts the password; the session is then the one that the session repository
  -- created for this account and its default player, and the answer names that player.
  pub login_success :
      (request : LoginRequest) (w w' : W) (response : LoginResponse)
      → login pbkdf2 accounts sessions request w ≡ (ok response, w')
      → response.success ≡ true
      → (account : Account) × (w₁ : W) × (accounts.find_by_name request.account_name w
          ≡ (ok (some account), w₁))
        × (account.enabled ≡ true)
        × (verify_password pbkdf2 request.password account.password_hash ≡ true)
        × (response.default_player_id ≡ account.default_player_id)
        × (sessions.create account.account_id account.default_player_id w₁
            ≡ (ok response.session, w'))
  unfolding login login_account
  login_success request w w' r h good =
      elim (Found-cases (accounts.find_by_name request.account_name w)) [
        | inr (inl (w₁, e)) ↦ absurd (ground (arith, e))
        | inr (inr (w₁, e)) ↦ absurd (ground (arith, e))
        | inl (account, w₁, e) ↦ elim (Bool-cases account.enabled) [
          | inr off ↦ absurd (ground (arith, e, off))
          | inl on ↦
              elim (Bool-cases (verify_password pbkdf2 request.password account.password_hash)) [
                | inr wrong ↦ absurd (ground (arith, e, on, wrong))
                | inl right ↦
                    elim (Outcome-cases
                      (sessions.create account.account_id account.default_player_id w₁)) [
                        | inr (w₂, f) ↦ absurd (ground (arith, e, on, right, f))
                        | inl (s, w₂, f) ↦ (
                          account,
                          w₁,
                          e,
                          on,
                          right,
                          ground (arith, e, on, right, f),
                          ground (arith, e, on, right, f),
                        )
                      ]
              ]
        ]
      ]

-- The session is found, and no other one of its account.
abbrev Only : Session → InMemorySessionRepository → Type 0
Only session r =
    (find_by_id session.session_id r ≡ some session)
    × ((k : Bytes) (s : Session)
        → find_by_id k r ≡ some s
        → s.account_id ≡ session.account_id
        → s ≡ session)

only_new :
    (a : ℤ) (hit : Bool) (new s : Session) (old : Option Session)
    → (if hit then some new else unless_account a old) ≡ some s
    → s.account_id ≡ a
    → s ≡ new
only_new a true new s old e same = ground (arith, e)
only_new a false new s none e same = absurd (ground (arith, e))
only_new a false new s (some t) e same =
    absurd (ground (arith, e, same, int_beq_iff t.account_id a))

module _ (now account_id player_id : ℤ) (r : InMemorySessionRepository) (v : IsValid r) where
  -- Right after a creation its session is found, and it is the only one of its account.
  created_lem :
      (find_by_id
          (create now account_id player_id r).0.session_id
          (create now account_id player_id r).1
        ≡ some (create now account_id player_id r).0)
      × ((k : Bytes) (s : Session)
          → find_by_id k (create now account_id player_id r).1 ≡ some s
          → s.account_id ≡ account_id
          → s ≡ (create now account_id player_id r).0)
  unfolding create
  created_lem = (
    rw (
      find_by_id-create r now account_id player_id _ v,
      beq_self (make_session_id account_id player_id r.sequence),
    ),
    λ k s e same.
        only_new account_id _ _ s (find_by_id k r)
          (sym (find_by_id-create r now account_id player_id k v) ∙ e) same,
  )

  -- The same, of what a call came back with.
  created_as :
      (session : Session) (r' : InMemorySessionRepository)
      → (create now account_id player_id r).0 ≡ session
      → (create now account_id player_id r).1 ≡ r'
      → (find_by_id session.session_id r' ≡ some session)
        × ((k : Bytes) (s : Session)
            → find_by_id k r' ≡ some s
            → s.account_id ≡ session.account_id
            → s ≡ session)
  unfolding create
  created_as session r' made after = subst (λ x. Only x r') made (subst (Only _) after created_lem)

module _ (pbkdf2 : Bytes → Bytes → ℤ → Option Bytes) (accounts : Dict Bytes Account) (now : ℤ)
    (request : LoginRequest) (response : LoginResponse) (r r' : InMemorySessionRepository) where
  created_parts :
      (a p : ℤ) (r₁ : InMemorySessionRepository)
      → ◌≡◌ {A = Outcome Session × InMemorySessionRepository}
          (ok (create now a p r₁).0, (create now a p r₁).1)
          (ok response.session, r')
      → ((create now a p r₁).0 ≡ response.session) × ((create now a p r₁).1 ≡ r')
  created_parts a p r₁ e = (ground (arith, e), ground (arith, e))

  -- On the in-memory repositories, the sessions valid: right after a login that succeeds, the session
  -- that it names is found, and no other session of its account is.
  pub login-find_by_id :
      IsValid r
      → login pbkdf2 (in_memory_accounts accounts) (in_memory now) request r ≡ (ok response, r')
      → response.success ≡ true
      → (find_by_id response.session.session_id r' ≡ some response.session)
        × ((k : Bytes) (s : Session)
            → find_by_id k r' ≡ some s
            → s.account_id ≡ response.session.account_id
            → s ≡ response.session)
  login-find_by_id v h good =
      let (account, r₁, found, on, right, player, created) =
        login_success pbkdf2 (in_memory_accounts accounts) (in_memory now) request r r' response h
          good in
      let same : r ≡ r₁ = ground (arith, found) in
      let (made, after) = created_parts account.account_id account.default_player_id r₁ created in
      created_as now account.account_id account.default_player_id r₁ (subst IsValid same v)
        response.session r' made after
