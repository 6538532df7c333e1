-- ===== src/Dungeon/Service/Guards.antt =====
-- What dungeon_service.cpp has checked when it answers with success: the repositories' side, and
-- rules for answers that are a refusal unless a fact holds.
pub mod Enter
pub mod Settle
use project_moon.Base.{
  ◌≡◌, ◌∙◌, refl, ℕ, Bool, true, false, not, ◌||◌, Option, none, some, Bytes, ℤ, int_eq,
  int_beq_iff, ◌==◌, pos, ltb_ℤ, leb_ℤ, ◌≤ℤ◌, if◌then◌else◌, ok, Exec, pure, ◌>>=◌, ◌>>◌, arith,
  Bool-cases,
}
use project_moon.Base.Text.{codes}
use project_moon.ErrorCode.{player_not_found, battle_not_found, dungeon_not_found, player_busy}
use project_moon.Model.{Session, PlayerState, BattleContext}
use project_moon.Dungeon.{DungeonConfig}
use project_moon.Dungeon.Service.{
  Repositories, EnterDungeonRequest, EnterDungeonResponse, SettleDungeonRequest,
  SettleDungeonResponse, generate_battle_id, release_and, enter_refused, settle_refused,
  enter_with_state, enter_locked, enter_dungeon, find_battle, settle_battle, settle_locked,
  settle_with_config, settle_dungeon, is_session_of,
}
use project_moon.Dungeon.Service.Triples.{
  Triple, Keeps, Triple-pure, Triple-if, Triple-bind, Triple-fact, Triple-elim,
}

-- No condition on the state.
abbrev pub Any : {W : Type 0} → W → Type 0
Any w = Unit

-- What the repositories hand out: predicates of which every answer is known.
pub record HandsOut {W : Type 0} (r : Repositories W) (Live : Bytes → Session → Type 0)
    (Configured : ℤ → DungeonConfig → Type 0) (Stored : ℤ → PlayerState → Type 0)
    (Known : Bytes → BattleContext → Type 0) : Type 0 where
  pub session :
      (id : Bytes)
      → Triple Any
          (r.sessions.find_by_id id)
          (λ found _. (s : Session) → found ≡ some s → Live id s)
  pub config :
      (id : ℤ)
      → Triple Any
          (r.configs.find_by_dungeon_id id)
          (λ found _. (c : DungeonConfig) → found ≡ some c → Configured id c)
  pub player :
      (id : ℤ)
      → Triple Any
          (r.players.load_player_state id)
          (λ found _. (s : PlayerState) → found ≡ some s → Stored id s)
  pub cached :
      (id : Bytes)
      → Triple Any
          (r.battles.find_by_battle_id id)
          (λ found _. (b : BattleContext) → found ≡ some b → Known id b)
  pub stored :
      (id : Bytes)
      → Triple Any
          (r.dungeons.find_battle_by_id id)
          (λ found _. (b : BattleContext) → found ≡ some b → Known id b)

pub is_session_of-some :
    (player_id : ℤ) (found : Option Session)
    → not (is_session_of player_id found) ≡ false
    → (s : Session) × (found ≡ some s) × (s.player_id ≡ player_id)
unfolding is_session_of
is_session_of-some player_id none h = absurd (ground (arith, h))
is_session_of-some player_id (some s) h =
    (s, refl, (int_beq_iff s.player_id player_id).0 (ground (arith, h)))

-- The answer is a refusal, or the fact holds.
unfoldable pub Unless : {W A : Type 0} → (A → Bool) → Type 0 → A → W → Type 0
Unless success F a w = success a ≡ true → F

module _ {W A : Type 0} {P : W → Type 0} (success : A → Bool) (F : Type 0) where
  pub known : (m : Exec W A) → F → Triple P m (Unless success F)
  unfolding Unless
  known m f = record { run = λ w w' a p e good. f }

  pub refused : (a : A) → success a ≡ false → Triple P (pure a) (Unless success F)
  unfolding Unless
  refused a h = Triple-pure a λ w p good. absurd (ground (arith, h, good))

module _ {W A : Type 0} {P : W → Type 0} (success : A → Bool) (F G : Type 0) where
  pub widen :
      (m : Exec W A) → Triple P m (Unless success F) → (F → G) → Triple P m (Unless success G)
  unfolding Unless
  widen m h k = record { run = λ w w' a p e good. k (h.run w w' a p e good) }

module _ {W A : Type 0} {P : W → Type 0} (success : A → Bool) (F : Type 0) where
  pub released :
      (r : Repositories W) (player_id : ℤ) (a : A)
      → success a ≡ false
      → Triple P (release_and r player_id a) (Unless success F)
  released r player_id a h =
      Triple-bind {Q = λ _. Any} (r.locks.release player_id) (λ _. pure a)
        (record { run = λ w w' b p e. tt }) λ _. refused success F a h

  pub past :
      {B : Type 0} (m : Exec W B) (f : B → Exec W A)
      → ((b : B) → Triple Any (f b) (Unless success F))
      → Triple P (m >>= f) (Unless success F)
  past m f k = Triple-bind m f (record { run = λ w w' b p e. tt }) k

  -- Whatever runs first.
  pub after :
      {B : Type 0} {Q : B → W → Type 0} (m : Exec W B) (f : B → Exec W A)
      → Triple Any m Q
      → ((b : B) → Triple (Q b) (f b) (Unless success F))
      → Triple P (m >>= f) (Unless success F)
  after m f h k = Triple-bind m f (record { run = λ w w' b p e. h.run w w' b tt e }) k
