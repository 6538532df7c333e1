-- ===== src/Dungeon/Service/Lock.antt =====
-- The player's lock in dungeon_service.cpp: how many of its acquirings are not released yet.
pub mod Inside
pub mod Ledger
pub mod Returned
use project_moon.Base.{
  ◌≡◌, pos, ℕ, Bool, true, false, if◌then◌else◌, Bytes, ℤ, int_eq, ◌==◌, ◌+ℤ◌, ◌-ℤ◌,
}
use project_moon.Model.{PlayerState, BattleContext}
use project_moon.Dungeon.{DungeonConfig}
use project_moon.Dungeon.Service.{Repositories}
use project_moon.Dungeon.Service.Triples.{Triple, Keeps}

-- A number for each player: how often an Acquire for the player has come back true, less how often
-- Release has been called.
abbrev pub Counts : Type 0
Counts = ℤ → ℤ

unfoldable pub one_more : ℤ → Counts → Counts
one_more player_id counts p = if p == player_id then counts p +ℤ pos 1 else counts p

unfoldable pub one_less : ℤ → Counts → Counts
one_less player_id counts p = if p == player_id then counts p -ℤ pos 1 else counts p

-- The counts of a state are these.
unfoldable pub Counted : {W : Type 0} → (W → Counts) → Counts → W → Type 0
Counted count counts w = (p : ℤ) → count w p ≡ counts p

unfoldable pub acquired_counts : ℤ → Bool → Counts → Counts
acquired_counts player_id true counts = one_more player_id counts
acquired_counts player_id false counts = counts

-- The counts go on as their description says, and nothing else changes them.
pub record HasCounts {W : Type 0} (r : Repositories W) (count : W → Counts) : Type 0 where
  pub acquire :
      (counts : Counts) (p : ℤ)
      → Triple
          (Counted count counts)
          (r.locks.acquire p)
          (λ acquired. Counted count (acquired_counts p acquired counts))
  pub release :
      (counts : Counts) (p : ℤ)
      → Triple (Counted count counts) (r.locks.release p) (λ _. Counted count (one_less p counts))
  pub find_session :
      (counts : Counts) (s : Bytes) → Keeps (Counted count counts) (r.sessions.find_by_id s)
  pub find_config :
      (counts : Counts) (d : ℤ) → Keeps (Counted count counts) (r.configs.find_by_dungeon_id d)
  pub load_player :
      (counts : Counts) (p : ℤ) → Keeps (Counted count counts) (r.players.load_player_state p)
  pub invalidate : (counts : Counts) (p : ℤ) → Keeps (Counted count counts) (r.cache.invalidate p)
  pub enter :
      (counts : Counts) (s : PlayerState) (c : DungeonConfig) (b : Bytes)
      → Keeps (Counted count counts) (r.dungeons.enter_dungeon s c b)
  pub settle :
      (counts : Counts) (b : BattleContext) (c : DungeonConfig) (star : ℤ)
      → Keeps (Counted count counts) (r.dungeons.settle_dungeon b c star)
  pub find_stored :
      (counts : Counts) (b : Bytes) → Keeps (Counted count counts) (r.dungeons.find_battle_by_id b)
  pub save : (counts : Counts) (b : BattleContext) → Keeps (Counted count counts) (r.battles.save b)
  pub find_cached :
      (counts : Counts) (b : Bytes) → Keeps (Counted count counts) (r.battles.find_by_battle_id b)
  pub delete : (counts : Counts) (b : Bytes) → Keeps (Counted count counts) (r.battles.delete b)
  pub set_sequence : (n : ℕ) (w : W) (p : ℤ) → count (r.set_sequence n w) p ≡ count w p
