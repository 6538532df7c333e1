-- ===== src/Demo/Accounts.antt =====
-- The demo account logs in with the configured password.
use project_moon.Base.{
  ◌≡◌, refl, sym, ap, ◌∙◌, true, Bool-cases, inl, inr, Option, none, some, [], Bytes, bytes_eq,
  bytes_beq_iff, ◌==◌, ℤ, ok, arith, if◌then◌else◌,
}
use project_moon.Base.Text.{codes, is_empty}
use project_moon.Base.Dict.{Dict, lookup, lookup-emplace}
use project_moon.Config.{get_string}
use project_moon.ErrorCode.{ErrorCode, invalid_password}
use project_moon.Security.{hash_password, build_encoded_hash, verify_password}
use project_moon.Security.Laws.{AreBytes, verify_password-build_encoded_hash}
use project_moon.Session.InMemory.{InMemorySessionRepository, create, in_memory}
use project_moon.Login.{
  LoginResponse, refused, login, login_account, find_account, in_memory_accounts,
}
use project_moon.Demo.{demo_salt, default_iterations, demo_hash, demo_account, accounts_from_config}

demo_salt-AreBytes : AreBytes demo_salt
demo_salt-AreBytes = omega arith

abbrev pub demo_name : Dict Bytes Bytes → Bytes
demo_name config = get_string (codes "demo.account_name") (codes "demo") config

abbrev pub demo_password : Dict Bytes Bytes → Bytes
demo_password config = get_string (codes "demo.password") (codes "demo123") config

module _ (pbkdf2 : Bytes → Bytes → ℤ → Option Bytes) (config : Dict Bytes Bytes) where
  found :
      find_account (accounts_from_config pbkdf2 config) (demo_name config)
      ≡ some (demo_account pbkdf2 config)
  unfolding find_account accounts_from_config demo_account lookup
  found = ground (
    arith,
    lookup-emplace (demo_name config) (demo_name config) (demo_account pbkdf2 config) [],
    bytes_beq_iff (demo_name config) (demo_name config),
  )

  verified :
      (encoded password : Bytes)
      → is_empty (get_string (codes "demo.password_hash") [] config) ≡ true
      → build_encoded_hash pbkdf2 (demo_password config) demo_salt default_iterations ≡ some encoded
      → verify_password pbkdf2 password (demo_account pbkdf2 config).password_hash ≡ (
          hash_password pbkdf2 password demo_salt default_iterations
          == hash_password pbkdf2 (demo_password config) demo_salt default_iterations)
  unfolding demo_account demo_hash
  verified encoded password no_hash built =
      ap (verify_password pbkdf2 password) (
        ap
          (λ b.
            if b
            then elim (build_encoded_hash pbkdf2 (demo_password config) demo_salt
                default_iterations) [ none ↦ [] | some e ↦ e ]
            else get_string (codes "demo.password_hash") [] config)
          no_hash
        ∙ ap (λ r. elim r [ none ↦ [] | some e ↦ e ]) built)
      ∙ verify_password-build_encoded_hash pbkdf2 (demo_password config) password demo_salt encoded
          default_iterations demo_salt-AreBytes refl built

  -- Where no hash is configured and the configured password can be hashed, a login under the
  -- configured name on the in-memory accounts and sessions comes back, and is granted exactly to
  -- the passwords that hash to what the configured one hashes to.
  pub demo_account_logs_in :
      (now : ℤ) (encoded password : Bytes) (sessions : InMemorySessionRepository)
      → is_empty (get_string (codes "demo.password_hash") [] config) ≡ true
      → build_encoded_hash pbkdf2 (demo_password config) demo_salt default_iterations ≡ some encoded
      → (response : LoginResponse) × (sessions' : InMemorySessionRepository) × (login pbkdf2
            (in_memory_accounts (accounts_from_config pbkdf2 config))
            (in_memory now)
            (record { account_name = demo_name config; password = password })
            sessions
          ≡ (ok response, sessions'))
        × (response.success ≡ (
            hash_password pbkdf2 password demo_salt default_iterations
            == hash_password pbkdf2 (demo_password config) demo_salt default_iterations))
  unfolding login login_account demo_account
  demo_account_logs_in now encoded password sessions no_hash built =
      let account = demo_account pbkdf2 config in
      let created = create now account.account_id account.default_player_id sessions in
      let checked = verified encoded password no_hash built in
      elim (Bool-cases (verify_password pbkdf2 password account.password_hash)) [
        | inl right ↦ (
          record {
            success = true;
            error_code = ErrorCode.ok;
            error_message = [];
            session = created.0;
            default_player_id = account.default_player_id;
          },
          created.1,
          ground (arith, found, right),
          sym right ∙ checked,
        )
        | inr wrong ↦ (
          refused invalid_password (codes "invalid password"),
          sessions,
          ground (arith, found, wrong),
          sym wrong ∙ checked,
        )
      ]
