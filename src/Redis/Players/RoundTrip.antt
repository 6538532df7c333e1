-- ===== src/Redis/Players/RoundTrip.antt =====
-- A player's snapshot that is saved on the client is found again.
use project_moon.Base.{
  Bool, ◌≡◌, ◌≢◌, ◌⊎◌, refl, Bool, true, Option, none, some, [], Bytes, bytes_eq, bytes_beq, ℤ, All,
  fits, ok,
}
use project_moon.Base.Text.{codes}
use project_moon.Base.Decimal.{to_string, stoi-to_string, stoll-to_string}
use project_moon.Base.Dict.{Dict, IsMap, lookup}
use project_moon.Model.{PlayerState}
use project_moon.Player.Progress.{serialize_progress}
use project_moon.Player.Progress.RoundTrip.{Fits, parse_progress-serialize_progress}
use project_moon.Redis.{at}
use project_moon.Redis.Keeping.{HasFields, at-lookup, answer-h_set}
use project_moon.Redis.Hiredis.{ConnectionOptions, Hiredis}
use project_moon.Redis.Client.{h_get_all, redis_client}
use project_moon.Redis.Client.Server.{IsRedis}
use project_moon.Base.Calls.{failed}
use project_moon.Redis.Players.{cache_key, fields, of_fields, save, find_by_player_id}

fields_ne_nil : (p : PlayerState) → fields p ≢ []
unfolding fields
fields_ne_nil p e = cc

-- The numbers are values of their types.
pub record Snapshot (p : PlayerState) : Type 0 where
  pub player_fits : fits 63 p.profile.player_id ≡ true
  pub account_fits : fits 63 p.profile.account_id ≡ true
  pub level_fits : fits 31 p.profile.level ≡ true
  pub stamina_fits : fits 31 p.profile.stamina ≡ true
  pub gold_fits : fits 63 p.profile.gold ≡ true
  pub diamond_fits : fits 63 p.profile.diamond ≡ true
  pub progress_fits : All Fits p.dungeon_progress

module _ (p : PlayerState) (fit : Snapshot p) (m : Dict Bytes Bytes)
    (there : HasFields (fields p) m) where
  at_player_id : at (codes "player_id") m ≡ ok (to_string p.profile.player_id)
  unfolding fields lookup bytes_beq
  at_player_id = at-lookup _ _ m (there _ _ refl)

  at_account_id : at (codes "account_id") m ≡ ok (to_string p.profile.account_id)
  unfolding fields lookup bytes_beq
  at_account_id = at-lookup _ _ m (there _ _ refl)

  at_player_name : at (codes "player_name") m ≡ ok (p.profile.player_name)
  unfolding fields lookup bytes_beq
  at_player_name = at-lookup _ _ m (there _ _ refl)

  at_level : at (codes "level") m ≡ ok (to_string p.profile.level)
  unfolding fields lookup bytes_beq
  at_level = at-lookup _ _ m (there _ _ refl)

  at_stamina : at (codes "stamina") m ≡ ok (to_string p.profile.stamina)
  unfolding fields lookup bytes_beq
  at_stamina = at-lookup _ _ m (there _ _ refl)

  at_gold : at (codes "gold") m ≡ ok (to_string p.profile.gold)
  unfolding fields lookup bytes_beq
  at_gold = at-lookup _ _ m (there _ _ refl)

  at_diamond : at (codes "diamond") m ≡ ok (to_string p.profile.diamond)
  unfolding fields lookup bytes_beq
  at_diamond = at-lookup _ _ m (there _ _ refl)

  at_dungeon_progress : at (codes "dungeon_progress") m ≡ ok (serialize_progress p.dungeon_progress)
  unfolding fields lookup bytes_beq
  at_dungeon_progress = at-lookup _ _ m (there _ _ refl)

  of_fields_lem : {W : Type 0} (w : W) → of_fields m w ≡ (ok p, w)
  unfolding of_fields
  of_fields_lem w =
      rw
        (
          at_player_id,
          stoll-to_string p.profile.player_id fit.player_fits,
          at_account_id,
          stoll-to_string p.profile.account_id fit.account_fits,
          at_player_name,
          at_level,
          stoi-to_string p.profile.level fit.level_fits,
          at_stamina,
          stoi-to_string p.profile.stamina fit.stamina_fits,
          at_gold,
          stoll-to_string p.profile.gold fit.gold_fits,
          at_diamond,
          stoll-to_string p.profile.diamond fit.diamond_fits,
          at_dungeon_progress,
          parse_progress-serialize_progress p.dungeon_progress fit.progress_fits,
        )
        refl

fields-IsMap : (p : PlayerState) → IsMap (fields p)
unfolding fields lookup bytes_beq
fields-IsMap p = (refl, (refl, (refl, (refl, (refl, (refl, (refl, (refl, tt))))))))

module _ {W Context : Type 0} (hiredis : Hiredis W Context)
    (hash : Context → W → Bytes → Bytes → Option Bytes) (holds : Context → W → Bytes → Bool)
    (redis : IsRedis hiredis hash holds) (options : ConnectionOptions) (ttl_seconds : ℤ) where
  -- With the repository on the client of redis_client.cpp and a server that does what Redis documents:
  -- behind a Save that reports success of a player's snapshot whose numbers, those of its progress
  -- included, fit their types, FindByPlayerId on the same client comes back with that snapshot; or
  -- its HGETALL has failed, and it comes back with nothing.
  pub find_by_player_id-save :
      (p : PlayerState) (s s' : Option Context × W)
      → Snapshot p
      → save (redis_client hiredis options) ttl_seconds p s ≡ (true, s')
      → ((find_by_player_id (redis_client hiredis options) ttl_seconds p.profile.player_id s').0
          ≡ ok (some p))
        ⊎ ((m : Bytes) × (s'' : Option Context × W) × (h_get_all hiredis options
                (cache_key p.profile.player_id)
                s'
              ≡ (failed m, s''))
            × ((find_by_player_id
                  (redis_client hiredis options)
                  ttl_seconds
                  p.profile.player_id
                  s').0
                ≡ ok none))
  unfolding save find_by_player_id
  find_by_player_id-save p s s' fit saved =
      answer-h_set hiredis options (λ m. of_fields m) hash holds redis
        (cache_key p.profile.player_id) (fields p) p ttl_seconds s s' (fields_ne_nil p)
        (fields-IsMap p) (λ m t there. of_fields_lem p fit m there t) saved
