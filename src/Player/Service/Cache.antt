-- ===== src/Player/Service/Cache.antt =====
-- What loading a player returns, and what it leaves in the cache.
use project_moon.Base.{
  ◌≡◌, ◌⊎◌, inl, inr, Bool, true, false, none, some, Bytes, ℤ, int_eq, int_beq_iff, ◌==◌, arith, ok,
  Found-cases, Outcome-cases, Bool-cases,
}
use project_moon.Model.{Session}
use project_moon.Session.{SessionRepository}
use project_moon.Player.{PlayerRepository, PlayerCacheRepository}
use project_moon.Player.Service.{LoadPlayerResponse, load_authorized, load_player}

module _ {W : Type 0} (sessions : SessionRepository W) (players : PlayerRepository W)
    (cache : PlayerCacheRepository W) where
  authorized_success :
      (player_id : ℤ) (w w' : W) (r : LoadPlayerResponse)
      → load_authorized sessions players cache player_id w ≡ (ok r, w')
      → r.success ≡ true
      → ((r.loaded_from_cache ≡ true)
          × (cache.find_by_player_id player_id w ≡ (ok (some r.player_state), w')))
        ⊎ ((r.loaded_from_cache ≡ false)
            × ((w₂ w₃ : W) × (saved : Bool) × (cache.find_by_player_id player_id w ≡ (ok none, w₂))
                × (players.load_player_state player_id w₂ ≡ (ok (some r.player_state), w₃))
                × (cache.save r.player_state w₃ ≡ (ok saved, w'))))
  unfolding load_authorized
  authorized_success player_id w w' r h good =
      elim (Found-cases (cache.find_by_player_id player_id w)) [
        | inl (state, w₂, e) ↦ inl (ground (arith, e), ground (arith, e))
        | inr (inr (w₂, e)) ↦ absurd (ground (arith, e))
        | inr (inl (w₂, e)) ↦ elim (Found-cases (players.load_player_state player_id w₂)) [
          | inr (inl (w₃, f)) ↦ absurd (ground (arith, e, f))
          | inr (inr (w₃, f)) ↦ absurd (ground (arith, e, f))
          | inl (state, w₃, f) ↦ elim (Outcome-cases (cache.save state w₃)) [
            | inr (w₄, g) ↦ absurd (ground (arith, e, f, g))
            | inl (saved, w₄, g) ↦ inr (
              ground (arith, e, f, g),
              (w₂, w₃, saved, e, ground (arith, e, f, g), ground (arith, e, f, g)),
            )
          ]
        ]
      ]

  -- A player is handed out only under a session that the repository found and that is the
  -- player's own; the state is the cached one, or, where the cache has none, the repository's,
  -- which has then been offered to the cache.
  pub load_player_success :
      (session_id : Bytes) (player_id : ℤ) (w w' : W) (r : LoadPlayerResponse)
      → load_player sessions players cache session_id player_id w ≡ (ok r, w')
      → r.success ≡ true
      → (s : Session) × (w₁ : W) × (sessions.find_by_id session_id w ≡ (ok (some s), w₁))
        × (s.player_id ≡ player_id)
        × (((r.loaded_from_cache ≡ true)
              × (cache.find_by_player_id player_id w₁ ≡ (ok (some r.player_state), w')))
            ⊎ ((r.loaded_from_cache ≡ false)
                × ((w₂ w₃ : W) × (saved : Bool) × (cache.find_by_player_id player_id w₁
                      ≡ (ok none, w₂))
                    × (players.load_player_state player_id w₂ ≡ (ok (some r.player_state), w₃))
                    × (cache.save r.player_state w₃ ≡ (ok saved, w')))))
  unfolding load_player
  load_player_success session_id player_id w w' r h good =
      elim (Found-cases (sessions.find_by_id session_id w)) [
        | inr (inl (w₁, e)) ↦ absurd (ground (arith, e))
        | inr (inr (w₁, e)) ↦ absurd (ground (arith, e))
        | inl (s, w₁, e) ↦ elim (Bool-cases (s.player_id == player_id)) [
          | inr other ↦ absurd (ground (arith, e, other))
          | inl own ↦ (
            s,
            w₁,
            e,
            (int_beq_iff s.player_id player_id).0 own,
            authorized_success player_id w₁ w' r (ground (arith, e, own)) good,
          )
        ]
      ]
