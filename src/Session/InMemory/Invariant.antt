-- ===== src/Session/InMemory/Invariant.antt =====
-- One live session for each account.
use project_moon.Base.{
  ℕ, ◌≡◌, ◌≢◌, ◌⊎◌, sym, ap, ◌∙◌, Option, none, some, List, [], ◌∷◌, arith, Bytes, bytes_eq, ℤ,
  int_eq, if◌then◌else◌, ◌==◌, inl, inr, Bool-cases, Option-cases, bytes_beq_iff, int_beq_iff,
}
use project_moon.Base.Dict.{lookup, lookup-insert, lookup-erase}
use project_moon.Model.{Session}
use project_moon.Session.SessionId.{make_session_id, make_session_id_account}
use project_moon.Session.InMemory.{
  InMemorySessionRepository, empty, new_session, drop_active, create, find_by_id,
}

pub record IsValid (r : InMemorySessionRepository) : Type 0 where
  pub active :
      (k : Bytes) (s : Session)
      → lookup k r.sessions ≡ some s
      → lookup s.account_id r.account_sessions ≡ some k
  pub named : (k : Bytes) (s : Session) → lookup k r.sessions ≡ some s → s.session_id ≡ k
  pub owner :
      (a : ℤ) (k : Bytes) (s : Session)
      → lookup a r.account_sessions ≡ some k
      → lookup k r.sessions ≡ some s
      → s.account_id ≡ a
  pub made :
      (a : ℤ) (k : Bytes)
      → lookup a r.account_sessions ≡ some k
      → (p : ℤ) × (n : ℕ) × (k ≡ make_session_id a p n)

-- What is left of a session when a new one is created for `a`.
abbrev pub unless_account : ℤ → Option Session → Option Session
unless_account a none = none
unless_account a (some s) = if s.account_id == a then none else some s

drop_active_lem :
    (r : InMemorySessionRepository) (a : ℤ) (k : Bytes)
    → IsValid r
    → lookup k (drop_active a r) ≡ unless_account a (lookup k r.sessions)
unfolding drop_active
drop_active_lem r a k v = elim (Option-cases (lookup a r.account_sessions)) [
  | inl idle ↦ elim (Option-cases (lookup k r.sessions)) [
    | inl e ↦ ground (arith, idle, e)
    | inr (s, e) ↦ ground (arith, idle, e, v.active k s e, int_beq_iff s.account_id a)
  ]
  | inr (old, held) ↦ elim (Option-cases (lookup k r.sessions)) [
    | inl e ↦ ground (arith, held, e, lookup-erase old k r.sessions)
    | inr (s, e) ↦ ground (
      arith,
      held,
      e,
      lookup-erase old k r.sessions,
      bytes_beq_iff old k,
      int_beq_iff s.account_id a,
      v.active k s e,
      v.owner a k s,
    )
  ]
]

-- For a valid repository and any id: after `create` for account `a` the new session is found under
-- its id, no other session of `a` is found, and every other account's sessions are found as before.
pub find_by_id-create :
    (r : InMemorySessionRepository) (now a p : ℤ) (k : Bytes)
    → IsValid r
    → find_by_id k (create now a p r).1 ≡ (
        if make_session_id a p r.sequence == k
        then some (new_session now a p r.sequence)
        else unless_account a (find_by_id k r))
unfolding find_by_id create
find_by_id-create r now a p k v =
    lookup-insert (make_session_id a p r.sequence) k (new_session now a p r.sequence)
      (drop_active a r)
    ∙ ap
        (λ o.
          if make_session_id a p r.sequence == k then some (new_session now a p r.sequence) else o)
        (drop_active_lem r a k v)

module _ (r : InMemorySessionRepository) (now a p : ℤ) (v : IsValid r) where
  id : Bytes
  id = make_session_id a p r.sequence

  after_sessions :
      (k : Bytes) (s : Session)
      → lookup k (create now a p r).1.sessions ≡ some s
      → ((id ≡ k) × (s ≡ new_session now a p r.sequence))
        ⊎ ((id ≢ k) × (lookup k r.sessions ≡ some s) × (s.account_id ≢ a))
  unfolding find_by_id id
  after_sessions k s e = elim (Bool-cases (make_session_id a p r.sequence == k)) [
    | inl hit ↦ inl (
        ground (
          arith,
          find_by_id-create r now a p k v,
          bytes_beq_iff (make_session_id a p r.sequence) k,
        ))
    | inr miss ↦ elim (Option-cases (lookup k r.sessions)) [
      | inl old ↦ absurd (ground (arith, find_by_id-create r now a p k v))
      | inr (t, old) ↦ inr (
          ground (
            arith,
            find_by_id-create r now a p k v,
            bytes_beq_iff (make_session_id a p r.sequence) k,
            int_beq_iff t.account_id a,
          ))
    ]
  ]

  after_active :
      (k : Bytes) (s : Session)
      → lookup k (create now a p r).1.sessions ≡ some s
      → lookup s.account_id (create now a p r).1.account_sessions ≡ some k
  unfolding create id
  after_active k s e = elim (after_sessions k s e) [
    | inl (hit, new) ↦ ground (
      arith,
      lookup-insert a s.account_id (make_session_id a p r.sequence) r.account_sessions,
      int_beq_iff a s.account_id,
    )
    | inr (miss, old, other) ↦ ground (
      arith,
      lookup-insert a s.account_id (make_session_id a p r.sequence) r.account_sessions,
      int_beq_iff a s.account_id,
      v.active k s old,
    )
  ]

  after_account :
      (b : ℤ) (k : Bytes)
      → lookup b (create now a p r).1.account_sessions ≡ some k
      → ((b ≡ a) × (k ≡ id)) ⊎ ((b ≢ a) × (lookup b r.account_sessions ≡ some k))
  unfolding create id
  after_account b k e = ground (
    arith,
    lookup-insert a b (make_session_id a p r.sequence) r.account_sessions,
    int_beq_iff a b,
  )

  after_owner :
      (b : ℤ) (k : Bytes) (s : Session)
      → lookup b (create now a p r).1.account_sessions ≡ some k
      → lookup k (create now a p r).1.sessions ≡ some s
      → s.account_id ≡ b
  unfolding id
  after_owner b k s e f = elim (after_account b k e) [
    | inl (same, at_id) ↦ elim (after_sessions k s f) [
      | inl (hit, new) ↦ ground arith
      | inr (miss, old, other) ↦ absurd (miss (sym at_id))
    ]
    | inr (differ, held) ↦ elim (after_sessions k s f) [
      | inl (hit, new) ↦
          let (q, n, k_made) = v.made b k held in
          absurd (differ (sym (make_session_id_account a b p q r.sequence n (hit ∙ k_made))))
      | inr (miss, old, other) ↦ v.owner b k s held old
    ]
  ]

  -- Creating a session keeps the repository valid.
  pub create-IsValid : IsValid (create now a p r).1
  unfolding id
  create-IsValid = record {
    active = after_active;
    named = λ k s e. elim (after_sessions k s e) [
      | inl (hit, new) ↦ ground arith
      | inr (miss, old, other) ↦ v.named k s old
    ];
    owner = after_owner;
    made = λ b k e. elim (after_account b k e) [
      | inl (same, at_id) ↦
          (p, r.sequence, at_id ∙ ap (λ c. make_session_id c p r.sequence) (sym same))
      | inr (differ, held) ↦ v.made b k held
    ];
  }

pub empty-IsValid : IsValid empty
unfolding lookup
empty-IsValid = record {
  active = λ k s e. cc;
  named = λ k s e. cc;
  owner = λ a k s e f. cc;
  made = λ a k e. absurd (cc e);
}

-- The calls of `create` that a history makes, each with the clock, the account and the player.
unfoldable pub create_all : List (ℤ × ℤ × ℤ) → InMemorySessionRepository → InMemorySessionRepository
create_all [] r = r
create_all ((now, a, p) ∷ calls) r = create_all calls (create now a p r).1

create_all-IsValid :
    (calls : List (ℤ × ℤ × ℤ)) (r : InMemorySessionRepository)
    → IsValid r
    → IsValid (create_all calls r)
unfolding create_all
create_all-IsValid [] r v = v
create_all-IsValid ((now, a, p) ∷ calls) r v =
    create_all-IsValid calls (create now a p r).1 (create-IsValid r now a p v)

-- After any history of logins, two sessions that can be found and belong to one account are found
-- under one id: an account has one live session at most.
pub one_session_per_account :
    (calls : List (ℤ × ℤ × ℤ)) (j k : Bytes) (s t : Session)
    → find_by_id j (create_all calls empty) ≡ some s
    → find_by_id k (create_all calls empty) ≡ some t
    → s.account_id ≡ t.account_id
    → j ≡ k
unfolding find_by_id
one_session_per_account calls j k s t e f same =
    let v = create_all-IsValid calls empty empty-IsValid in
    ground (arith, v.active j s e, v.active k t f)
