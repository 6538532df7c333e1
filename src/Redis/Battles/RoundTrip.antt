-- ===== src/Redis/Battles/RoundTrip.antt =====
-- A battle context is read from the fields that are written for it.
use project_moon.Base.{
  ◌≡◌, ◌≢◌, refl, ap, Bool, true, false, [], Bytes, bytes_eq, bytes_beq, fits, ok, ◌==◌,
  if◌then◌else◌,
}
use project_moon.Base.Text.{codes}
use project_moon.Base.Decimal.{to_string, stoi-to_string, stoll-to_string}
use project_moon.Base.Dict.{Dict, lookup}
use project_moon.Model.{BattleContext}
use project_moon.Redis.{at}
use project_moon.Redis.Keeping.{HasFields, at-lookup}
use project_moon.Redis.Battles.{fields, of_fields}

pub fields_ne_nil : (b : BattleContext) → fields b ≢ []
unfolding fields
fields_ne_nil b e = cc

-- The numbers are values of their types.
abbrev pub Fits : BattleContext → Type 0
Fits b =
    (fits 63 b.player_id ≡ true)
    × (fits 31 b.dungeon_id ≡ true)
    × (fits 31 b.cost_stamina ≡ true)
    × (fits 31 b.max_star ≡ true)

flag_read : (b : Bool) → ((if b then codes "1" else codes "0") == codes "1") ≡ b
unfolding bytes_beq
flag_read true = refl
flag_read false = refl

module _ (b : BattleContext) (fit : Fits b) (m : Dict Bytes Bytes)
    (there : HasFields (fields b) m) where
  at_player : at (codes "player_id") m ≡ ok (to_string b.player_id)
  unfolding fields lookup bytes_beq
  at_player = at-lookup _ _ m (there _ _ refl)

  at_dungeon : at (codes "dungeon_id") m ≡ ok (to_string b.dungeon_id)
  unfolding fields lookup bytes_beq
  at_dungeon = at-lookup _ _ m (there _ _ refl)

  at_cost : at (codes "cost_stamina") m ≡ ok (to_string b.cost_stamina)
  unfolding fields lookup bytes_beq
  at_cost = at-lookup _ _ m (there _ _ refl)

  at_star : at (codes "max_star") m ≡ ok (to_string b.max_star)
  unfolding fields lookup bytes_beq
  at_star = at-lookup _ _ m (there _ _ refl)

  at_settled : at (codes "settled") m ≡ ok (if b.settled then codes "1" else codes "0")
  unfolding fields lookup bytes_beq
  at_settled = at-lookup _ _ m (there _ _ refl)

  pub of_fields_lem : {W : Type 0} (w : W) → of_fields b.battle_id m w ≡ (ok b, w)
  unfolding of_fields
  of_fields_lem w =
      rw
        (
          at_player,
          stoll-to_string b.player_id fit.0,
          at_dungeon,
          stoi-to_string b.dungeon_id fit.1,
          at_cost,
          stoi-to_string b.cost_stamina fit.2,
          at_star,
          stoi-to_string b.max_star fit.3,
          at_settled,
        )
        (ap (λ s. (ok (record b { settled = s }), w)) (flag_read b.settled))
