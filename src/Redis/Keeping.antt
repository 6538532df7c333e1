-- ===== src/Redis/Keeping.antt =====
-- A hash that a repository has written by the client of redis_client.cpp is found again.
use project_moon.Base.{
  ◌≡◌, ◌≢◌, ◌⊎◌, inl, inr, refl, ap, sym, ◌∙◌, Bool, true, Exec, ◌>>=◌, none, some, Option, [], ◌∷◌,
  Bytes, bytes_eq, ℤ, Outcome, ok, throw, pure, continue, arith,
}
use project_moon.Base.Dict.{Dict, IsMap, lookup}
use project_moon.Base.Calls.{Result, done, failed, result_or, Result-cases}
use project_moon.Redis.{at, non_empty}
use project_moon.Redis.Hiredis.{ConnectionOptions, Hiredis}
use project_moon.Redis.Client.{h_set, h_get_all, redis_client}
use project_moon.Redis.Client.Server.{IsRedis}
use project_moon.Redis.Client.Hashes.{h_get_all-h_set, some_entry}

pub at-lookup :
    (field text : Bytes) (m : Dict Bytes Bytes) → lookup field m ≡ some text → at field m ≡ ok text
unfolding at
at-lookup field text m e = ap (λ r. elim r [ none ↦ throw | some found ↦ ok found ]) e

-- Every field that is written is in `m`.
abbrev pub HasFields : Dict Bytes Bytes → Dict Bytes Bytes → Type 0
HasFields values m =
    (field text : Bytes) → lookup field values ≡ some text → lookup field m ≡ some text

non_empty-HasFields :
    (values m : Dict Bytes Bytes) → values ≢ [] → HasFields values m → non_empty (some m) ≡ some m
unfolding lookup non_empty
non_empty-HasFields values [] filled there =
    let (field, text, e) = some_entry values filled in absurd (ground (arith, there field text e))
non_empty-HasFields values (entry ∷ m) filled there = refl

module _ {W Context A : Type 0} (hiredis : Hiredis W Context) (options : ConnectionOptions)
    (of_fields : Dict Bytes Bytes → Exec (Option Context × W) A) where
  -- What a repository makes of what HGetAll has come back with.
  abbrev of_found : Option (Dict Bytes Bytes) → Exec (Option Context × W) (Option A)
  of_found found s = elim found [
    | none ↦ pure none s
    | some values ↦ (of_fields values >>= λ x. pure (some x)) s
  ]

  abbrev pub answer : Result (Option (Dict Bytes Bytes)) × (Option Context × W) → Outcome (Option A)
  answer r = (of_found (non_empty (result_or none r.0)) r.1).0

  -- Behind an HSet that reported success, and from whose fields `a` is read: HGetAll gives `a`, or it
  -- fails, and gives nothing.
  pub answer-h_set :
      (hash : Context → W → Bytes → Bytes → Option Bytes) (holds : Context → W → Bytes → Bool)
      → IsRedis hiredis hash holds
      → (key : Bytes) (values : Dict Bytes Bytes) (a : A) (ttl_seconds : ℤ)
        (s s' : Option Context × W)
      → values ≢ []
      → IsMap values
      → ((m : Dict Bytes Bytes) (t : Option Context × W)
          → HasFields values m
          → of_fields m t ≡ (ok a, t))
      → (redis_client hiredis options).h_set key values ttl_seconds s ≡ (true, s')
      → (answer (h_get_all hiredis options key s') ≡ ok (some a))
        ⊎ ((m : Bytes) × (s'' : Option Context × W) × (h_get_all hiredis options key s'
              ≡ (failed m, s''))
            × (answer (h_get_all hiredis options key s') ≡ ok none))
  unfolding non_empty
  answer-h_set hash holds redis key values a ttl_seconds s s' filled once reads saved =
      elim (Result-cases (h_set hiredis options key values ttl_seconds s)) [
        | inr (m, t, e) ↦ absurd (ground (arith, e, saved))
        | inl (u, t, e) ↦
            let stored = e ∙ ap (λ x. (done u, x)) (stays t u e) in
            elim (Result-cases (h_get_all hiredis options key s')) [
              | inr (m, s'', e') ↦ inr (m, s'', e', ap answer e')
              | inl (found, s'', e') ↦
                  let (m, is, there) =
                    h_get_all-h_set hiredis hash holds redis options key values ttl_seconds s s' s''
                      u found filled once stored e' in
                  inl (
                    ap answer e'
                    ∙ ap (λ x. answer (done x, s'')) is
                    ∙ ap (λ r. (of_found r s'').0) (non_empty-HasFields values m filled there)
                    ∙ ap (λ r. (continue r.0 (λ x. pure (some x)) r.1).0) (reads m s'' there))
            ]
      ]
    where
      stays :
          (t : Option Context × W) (u : Unit {0})
          → h_set hiredis options key values ttl_seconds s ≡ (done u, t)
          → t ≡ s'
      stays t u e = ap (λ r. r.1) (sym e) ∙ ap (λ r. r.1) saved
